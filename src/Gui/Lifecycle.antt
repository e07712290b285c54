-- ===== src/Gui/Lifecycle.antt =====
-- titoos/gui/server.py: `start`, `serve_forever` and `stop` of `KernelGUI`. Each block under the
-- lifecycle lock is one step, and the steps of the threads interleave as an explicit sequence: a
-- thread that `start` makes, another one that calls `serve_forever`, and one that calls `stop`.
pub mod Quiet
pub mod Served
pub mod Stopped
mod Tests
use tito_os.Prelude.{
  Bool, true, false, not, ◌&&◌, ◌||◌, Option, none, some, if◌then◌else◌, List, [], ◌∷◌,
}

-- the two threads that may serve
pub data Who : Type 0 where
  background caller : Who

-- Where a thread is in `serve_forever`: not in it, in front of its first block, or in the loop of
-- the server, between its two blocks.
pub data Phase : Type 0 where
  away entering looping : Phase

abbrev pub is_looping : Phase → Bool
is_looping looping = true
is_looping _ = false

abbrev pub is_away : Phase → Bool
is_away away = true
is_away _ = false

-- Where `stop` is: not called, behind its first block with what it read there (the thread that
-- serves, and whether `start` had made one), or behind `server_close`.
pub data Stop : Type 0 where
  idle : Stop
  read : Option Who → Bool → Stop
  closing : Stop

-- The fields of `KernelGUI` that say how far its server is, and the threads. `has_thread` is
-- whether `_thread` is not None, `serve_thread` is `_serve_thread`, `is_closed` says that the port
-- is released, `caller_over` that the caller's thread has ended.
pub record Life : Type 0 where
  pub has_thread : Bool
  pub stopped : Bool
  pub serving : Bool
  pub serve_thread : Option Who
  pub started_thread : Phase
  pub calling_thread : Phase
  pub caller_over : Bool
  pub stop : Stop
  pub is_closed : Bool

-- after `__init__`
abbrev pub fresh_life : Life
fresh_life = record {
  has_thread = false;
  stopped = false;
  serving = false;
  serve_thread = none;
  started_thread = away;
  calling_thread = away;
  caller_over = false;
  stop = idle;
  is_closed = false;
}

abbrev pub phase_of : Who → Life → Phase
phase_of background l = l.started_thread
phase_of caller l = l.calling_thread

abbrev pub set_phase : Who → Phase → Life → Life
set_phase background p l = record l { started_thread = p }
set_phase caller p l = record l { calling_thread = p }

-- `start`; it raises where a thread was made before, or after a stop.
unfoldable pub start : Life → Life
start l =
    if l.has_thread || l.stopped
    then l
    else record l { has_thread = true; started_thread = entering }

-- The first block of `serve_forever`: after a stop it returns, where another thread serves it
-- raises.
unfoldable pub enter : Who → Life → Life
enter who l = elim (phase_of who l) [
  | entering ↦
      if l.stopped || l.serving
      then set_phase who away l
      else set_phase who looping (record l { serving = true; serve_thread = some who })
  | _ ↦ l
]

-- The second block of `serve_forever`, when the loop of the server has returned or raised.
unfoldable pub leave : Who → Life → Life
leave who l = elim (phase_of who l) [
  | looping ↦ set_phase who away (record l { serving = false; serve_thread = none })
  | _ ↦ l
]

-- The first block of `stop`; a second call waits for the first one's lock.
unfoldable pub stop_reads : Life → Life
stop_reads l = elim l.stop [
  | idle ↦ record l { stopped = true; stop = read l.serve_thread l.has_thread }
  | _ ↦ l
]

-- Whether `shutdown` and `join` come back. `shutdown` waits until no thread is in the loop of the
-- server, which may leave it at any time, asked or not (a `KeyboardInterrupt` does not ask). `join`
-- waits for the end of a thread: the one that `start` made has nothing to do after `serve_forever`,
-- the caller's may go on with other things.
abbrev pub is_joined : Option Who → Bool → Life → Bool
is_joined none false l = true
is_joined none true l = is_away l.started_thread
is_joined (some background) made l = is_away l.started_thread
is_joined (some caller) made l = is_away l.calling_thread && l.caller_over

-- `shutdown`, `join` and `server_close`, as soon as the threads that are waited for are gone
unfoldable pub stop_closes : Life → Life
stop_closes l = elim l.stop [
  | read who made ↦
      if is_joined who made l then record l { stop = closing; is_closed = true } else l
  | _ ↦ l
]

-- the second block of `stop`
unfoldable pub stop_ends : Life → Life
stop_ends l = elim l.stop [ closing ↦ record l { has_thread = false; stop = idle } | _ ↦ l ]

pub data Event : Type 0 where
  starts calls dies : Event
  enters leaves : Who → Event
  reads closes ends : Event

-- the caller's thread calls `serve_forever`
unfoldable pub serve_forever : Life → Life
serve_forever l =
    if is_away l.calling_thread && not l.caller_over
    then record l { calling_thread = entering }
    else l

-- The caller's thread ends, which is outside of `serve_forever`.
unfoldable pub thread_ends : Life → Life
thread_ends l = if is_away l.calling_thread then record l { caller_over = true } else l

unfoldable pub happen : Event → Life → Life
unfolding start serve_forever thread_ends enter leave stop_reads stop_closes stop_ends
happen starts l = start l
happen calls l = serve_forever l
happen dies l = thread_ends l
happen (enters who) l = enter who l
happen (leaves who) l = leave who l
happen reads l = stop_reads l
happen closes l = stop_closes l
happen ends l = stop_ends l

-- An interleaving.
unfoldable pub happen_all : List Event → Life → Life
unfolding happen
happen_all [] l = l
happen_all (e ∷ events) l = happen_all events (happen e l)
