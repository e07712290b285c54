-- ===== src/Gui.antt =====
-- titoos/gui/server.py: `KernelGUI`, what it keeps and the operations that the server offers. Every
-- operation runs under one lock, so it is one step. `Gui/Requests` has the handler of requests.
pub mod Requests
pub mod History
pub mod Guarded
pub mod Lifecycle
pub mod Demo
pub mod Json
mod Tests
use tito_os.Prelude.{
  ℕ, ◌-◌, String, Bool, true, false, List, [], ◌∷◌, ◌++◌, map, Option, none, some, not, ◌==◌, ◌&&◌,
  ◌||◌, elem, if◌then◌else◌, leb, length, is_some,
}
use tito_os.Strings.{lower, contains_text, concat, starts_with}
use tito_os.Errors.{
  Result, ok, err, Error, Exec, proceed, empty_name, out_of_range, refused, Refusal,
  ticks_not_integer, ticks_out_of_range, empty_recipient, metadata_not_object, nobody_named,
  unknown_recipient, ◌>>=◌,
}
use tito_os.Dict
use tito_os.Dict.{Dict}
use tito_os.Message.{Value, null, bool, int, text, arr, obj, opaque, Message}
use tito_os.Message.Codec.{of_fields}
use tito_os.Bus
use tito_os.Bus.{MessageBus}
use tito_os.Agent.{Agent, Program, is_alive}
use tito_os.Persistence.{Snapshot, state_value}
use tito_os.Kernel.{Kernel, Backend, StopReason, is_quiescent}
use tito_os.Kernel.Tick.{TickReport}
use tito_os.Kernel.Tick
use tito_os.Kernel.Run
use tito_os.Kernel.Saving

-- `MAX_BODY`, `MAX_RUN_TICKS` and `MAX_MESSAGES_SHOWN`
abbrev pub max_body : ℕ
max_body = 65536

abbrev pub max_run_ticks : ℕ
max_run_ticks = 10000

abbrev pub max_messages_shown : ℕ
max_messages_shown = 50

pub record KernelGui (P : Program) : Type 0 where
  pub kernel : Kernel P
  pub sender : String
  pub reports : List TickReport
  pub history : ℕ
  pub allowed_hosts : List String

-- `_bracket`
unfoldable pub bracket : String → String
bracket host =
    if contains_text ":" host && not (starts_with host "[")
    then concat "[" (concat host "]")
    else host

-- `f"{_bracket(name)}:{self.port}".lower()`
unfoldable pub authority : String → String → String
unfolding bracket lower
authority port name = lower (concat (bracket name) (concat ":" port))

-- the names of `_LOOPBACK_NAMES`, where they are added
abbrev pub loopback_names : String → List String
loopback_names host =
    if host == "127.0.0.1" || host == "localhost"
    then "127.0.0.1" ∷ "localhost" ∷ "[::1]" ∷ []
    else []

-- The last `n` elements: a `deque` with a `maxlen`.
unfoldable pub last : {A : Type 0} → ℕ → List A → List A
last n [] = []
last n (x ∷ xs) = let rest = last n xs in if leb (length (x ∷ xs)) n then x ∷ xs else rest

-- the reports and the stop reason
abbrev pub RunReply : Type 0
RunReply = List TickReport × Option StopReason

-- `metadata`, where it is an object or None
abbrev pub metadata_of : Value → Result (Dict Value)
metadata_of null = ok []
metadata_of (obj fs) = ok (of_fields fs)
metadata_of _ = err (refused metadata_not_object)

abbrev pub recipient_of : Value → Result String
recipient_of (text s) = if s == "" then err (refused empty_recipient) else ok s
recipient_of _ = err (refused empty_recipient)

-- a KeyError of the bus becomes a GUIError
abbrev pub refused_by_bus : Error → Error
refused_by_bus (unknown_recipient name) = refused (nobody_named name)
refused_by_bus e = e

module _ {P : Program} where
  -- `KernelGUI.__init__`, with the port that the server was bound to, in digits
  unfoldable pub make_gui :
      Kernel P → String → String → String → ℕ → List String → Result (KernelGui P)
  make_gui kernel host port sender history allowed_hosts =
      if sender == ""
      then err empty_name
      else if not (leb 1 history)
      then err out_of_range
      else ok (record {
        kernel = kernel;
        sender = sender;
        reports = [];
        history = history;
        allowed_hosts = map (authority port) (host ∷ allowed_hosts ++ loopback_names host);
      })

  -- `_host_allowed`
  unfoldable pub host_allowed : Option String → KernelGui P → Bool
  unfolding lower
  host_allowed none gui = false
  host_allowed (some host) gui = elem (lower host) gui.allowed_hosts

  -- `self.reports.extend(reports)`
  abbrev pub recorded : List TickReport → KernelGui P → KernelGui P
  recorded reports gui = record gui { reports = last gui.history (gui.reports ++ reports) }

  abbrev pub with_kernel : KernelGui P → Kernel P → KernelGui P
  with_kernel gui k = record gui { kernel = k }

  abbrev pub stepped : KernelGui P → Result TickReport × Kernel P → Result TickReport × KernelGui P
  stepped gui (err e, k) = (err e, with_kernel gui k)
  stepped gui (ok report, k) = (ok report, recorded (report ∷ []) (with_kernel gui k))

  -- `KernelGUI.step`, at the schedule of its tick
  unfoldable pub gui_step : List ℕ → Exec (KernelGui P) TickReport
  gui_step schedule gui = stepped gui (Tick.step schedule gui.kernel)

  abbrev pub ran_all :
      KernelGui P → Result (List TickReport) × Kernel P → Result RunReply × KernelGui P
  ran_all gui (err e, k) = (err e, with_kernel gui k)
  ran_all gui (ok reports, k) = (ok (reports, k.stop_reason), recorded reports (with_kernel gui k))

  -- `KernelGUI.run`; `-0` is no JSON integer of its own
  unfoldable pub gui_run : Value → List (List ℕ) → Exec (KernelGui P) RunReply
  gui_run (int negative n) schedules gui =
      if negative || not (leb n max_run_ticks)
      then (err (refused ticks_out_of_range), gui)
      else ran_all gui (Run.run n schedules gui.kernel)
  gui_run null schedules gui = (err (refused ticks_not_integer), gui)
  gui_run (bool b) schedules gui = (err (refused ticks_not_integer), gui)
  gui_run (text s) schedules gui = (err (refused ticks_not_integer), gui)
  gui_run (arr items) schedules gui = (err (refused ticks_not_integer), gui)
  gui_run (obj fields) schedules gui = (err (refused ticks_not_integer), gui)
  gui_run (opaque n) schedules gui = (err (refused ticks_not_integer), gui)

  abbrev pub sent_or : KernelGui P → Message → Result MessageBus → Result Message × KernelGui P
  sent_or gui m (ok bus) = (ok m, with_kernel gui (record gui.kernel { bus = bus }))
  sent_or gui m (err e) = (err (refused_by_bus e), gui)

  abbrev pub send_to :
      Value → KernelGui P → Result String → Result (Dict Value) → Result Message × KernelGui P
  send_to payload gui (err e) metadata = (err e, gui)
  send_to payload gui (ok to) (err e) = (err e, gui)
  send_to payload gui (ok to) (ok metadata) =
      let m : Message = record {
        sender = gui.sender;
        to = to;
        payload = payload;
        metadata = metadata;
      } in
      sent_or gui m (Bus.send m gui.kernel.bus)

  -- `KernelGUI.send`
  unfoldable pub gui_send : Value → Value → Value → Exec (KernelGui P) Message
  gui_send to payload metadata gui = send_to payload gui (recipient_of to) (metadata_of metadata)

  -- `KernelGUI.snapshot`, before `to_json`
  unfoldable pub gui_snapshot : KernelGui P → Result Snapshot
  gui_snapshot gui = Saving.snapshot gui.kernel
