-- ===== src/Gui/Demo.antt =====
-- titoos/gui/__main__.py: the agents of the demo and the kernel that runs them. Its `Program` has the
-- attributes of the three classes as memory, and no driver.
pub mod Handing
pub mod Sharing
pub mod Working
mod Tests
use Prim.Native.Nat.{◌%◌}
use tito_os.Prelude.{
  ℕ, suc, ◌+◌, String, Bool, true, false, List, [], ◌∷◌, ◌++◌, map, Option, none, some,
  if◌then◌else◌, nat_eq, length, get_elem?,
}
use tito_os.Strings.{concat}
use tito_os.Errors.{Result, ok, err, Error, division_by_zero, transient_failure, ◌>>=◌}
use tito_os.Message.{Value, null, text, Message}
use tito_os.Agent.{Agent, RestartPolicy, never, on_failure, Script, Spec, Program, make_agent}
use tito_os.Kernel.{Kernel, make_kernel, register}

-- What the classes add to an agent: `Dispatcher`, `Worker` and `Collector`.
pub data Attributes : Type 0 where
  plain : Attributes
  dispatching : (workers : List String) (next : ℕ) → Attributes
  working : (flaky : Bool) → Attributes
  collecting : (results : List Value) → Attributes

-- the rest of a step after a call of `ctx.send`, which may raise
abbrev pub after_send : Attributes → Script Attributes → Result Message → Script Attributes
after_send m rest (ok _) = rest
after_send m rest (err e) = Script.raise e m

-- The loop of `Dispatcher.step` over the inbox. The remainder by zero raises, and any other is an
-- index of the list.
unfoldable pub hand_out : List String → ℕ → List Message → Script Attributes
hand_out workers next [] = Script.wait (Script.return (dispatching workers next))
hand_out workers next (m ∷ inbox) = elim (get_elem? workers (next % length workers)) [
  | none ↦ Script.raise division_by_zero (dispatching workers next)
  | some worker ↦
      Script.send worker m.payload []
        (after_send (dispatching workers next) (hand_out workers (suc next) inbox))
]

-- the jobs of the first tick, sent to the dispatcher itself, and then the rest of its step
abbrev pub start_jobs : String → Attributes → List String → Script Attributes → Script Attributes
start_jobs me m [] rest = rest
start_jobs me m (job ∷ jobs) rest =
    Script.send me (text job) [] (after_send m (start_jobs me m jobs rest))

abbrev pub jobs : List String
jobs = "index" ∷ "resize" ∷ "upload" ∷ []

-- `Dispatcher.step`
unfoldable pub dispatcher_step : String → List String → ℕ → ℕ → List Message → Script Attributes
unfolding hand_out
dispatcher_step me workers next tick inbox =
    start_jobs me (dispatching workers next) (if nat_eq tick 1 then jobs else [])
      (hand_out workers next inbox)

-- `Collector.step`
unfoldable pub collector_step : List Value → List Message → Script Attributes
collector_step results inbox =
    Script.wait (Script.return (collecting (results ++ map (λ m. m.payload) inbox)))

-- `str` is Python's, of a payload.
module _ (str : Value → String) where
  -- `f"{message.payload}: done by {self.name}"`
  abbrev pub result_of : String → Message → Value
  result_of me m = text (concat (str m.payload) (concat ": done by " me))

  -- `Worker.step`
  unfoldable pub worker_step : String → Bool → List Message → Script Attributes
  worker_step me flaky [] = Script.wait (Script.return (working flaky))
  worker_step me true (m ∷ inbox) = Script.raise transient_failure (working false)
  worker_step me false (m ∷ inbox) =
      Script.send "collector" (result_of me m) []
        (after_send (working false) (worker_step me false inbox))

  -- the step of an object, by its class
  abbrev pub step_by : String → Attributes → ℕ → List Message → Script Attributes
  step_by me plain tick inbox = Script.return plain
  step_by me (dispatching workers next) tick inbox = dispatcher_step me workers next tick inbox
  step_by me (working flaky) tick inbox = worker_step me flaky inbox
  step_by me (collecting results) tick inbox = collector_step results inbox

  -- The hooks are those of `Agent`, which do nothing and save nothing.
  abbrev pub demo : Program
  demo = record {
    Memory = Attributes;
    Device = Unit {0};
    no_attributes = plain;
    step = λ a tick inbox. step_by a.name a.memory tick inbox;
    on_restart = λ a. (a.memory, none);
    save_state = λ a. [];
    load_state = λ a state. a.memory;
    perform = λ d operation arguments. (ok null, d);
    close = λ d. (none, d);
  }

  -- `Agent.max_restarts` is 3.
  abbrev pub spec_of : String → String → RestartPolicy → Attributes → Spec Attributes
  spec_of name kind policy memory = record {
    name = name;
    kind = kind;
    restart_policy = policy;
    max_restarts = 3;
    is_async = false;
    memory = memory;
  }

  -- the constructor of an agent, and `kernel.register` of what it built
  abbrev pub add : Spec Attributes → Option String → Kernel demo → Result (Kernel demo)
  add spec parent k = make_agent spec >>= λ a. register a parent k

  -- `demo_kernel`
  unfoldable pub demo_kernel : Result (Kernel demo)
  demo_kernel =
      make_kernel 1 none
      >>= add
          (spec_of "dispatcher" "Dispatcher" never (dispatching ("worker-1" ∷ "worker-2" ∷ []) 0))
          none
      >>= add (spec_of "worker-1" "Worker" on_failure (working false)) (some "dispatcher")
      >>= add (spec_of "worker-2" "Worker" on_failure (working true)) (some "dispatcher")
      >>= add (spec_of "collector" "Collector" never (collecting [])) none
