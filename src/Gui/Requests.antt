-- ===== src/Gui/Requests.antt =====
-- titoos/gui/server.py: the handler of requests. `http.server` reads a request and writes a response;
-- `json` reads the body. Here a request has what they made of it, and a response its status and
-- what its body says.
use tito_os.Prelude.{
  ℕ, String, Bool, true, false, List, [], ◌∷◌, map, Option, none, some, not, ◌==◌, ◌||◌, ◌⊎◌, inl,
  inr, ◌++◌, elem, if◌then◌else◌, leb, nat_eq, length, take,
}
use tito_os.Strings.{lower, strip, partition, before}
use tito_os.Errors.{Result, ok, err, Error, refused}
use tito_os.Dict
use tito_os.Dict.{Dict}
use tito_os.Message.{Value, null, int, text, obj, Fields, end, Message}
use tito_os.Message.Codec.{lookup}
use tito_os.Bus
use tito_os.Agent.{Agent, AgentState, Program, is_alive}
use tito_os.Integrations
use tito_os.Persistence.{Snapshot}
use tito_os.Kernel.{Kernel, Backend, StopReason, is_quiescent}
use tito_os.Kernel.Tick.{TickReport}
use tito_os.Kernel.Run.{this_tick}
use tito_os.Gui.{
  KernelGui, max_body, max_messages_shown, host_allowed, gui_step, gui_run, gui_send, gui_snapshot,
}

-- `length` is what `int` makes of the header Content-Length, "0" if it is missing, and none where
-- that is no number or a negative one; `body` is what `json.loads` makes of that many bytes.
pub record Request : Type 0 where
  pub path : String
  pub host : Option String
  pub content_type : String
  pub origin : Option String
  pub length : Option ℕ
  pub body : Option Value

-- An agent in `state`.
pub record AgentView : Type 0 where
  pub name : String
  pub kind : String
  pub state : AgentState
  pub alive : Bool
  pub parent : Option String
  pub restarts : ℕ
  pub pending : ℕ

pub record View : Type 0 where
  pub tick : ℕ
  pub stop_reason : Option StopReason
  pub quiescent : Bool
  pub backend : Backend
  pub sender : String
  pub agents : List AgentView
  pub mailboxes : Dict (ℕ × List Message)
  pub errors : List (String × Error)
  pub integrations : List String
  pub reports : List TickReport

-- What a response says.
pub data Answer : Type 0 where
  page : Answer
  view : View → Answer
  saved : Snapshot → Answer
  report : TickReport → Answer
  ran : List TickReport → Option StopReason → Answer
  posted : Message → Answer
  failure : Error → Answer
  refusal : String → Answer

pub record Response : Type 0 where
  pub status : ℕ
  pub answer : Answer

abbrev pub respond : ℕ → Answer → Response
respond status answer = record { status = status; answer = answer }

unfoldable pub newest_first : List TickReport → List TickReport
newest_first [] = []
newest_first (r ∷ rest) = newest_first rest ++ r ∷ []

-- `type(agent).__name__`, which for a placeholder is not the kind that it stands for
unfoldable pub class_name : {M : Type 0} → Agent M → String
class_name a = elim a.saved [ none ↦ a.kind | some _ ↦ "FinishedAgent" ]

unfoldable pub is_json : String → Bool
unfolding before strip lower
is_json content_type = lower (strip (before ";" content_type)) == "application/json"

abbrev pub parsed : Option Value → Fields ⊎ Response
parsed none = inr (respond 400 (refusal "body is not valid JSON"))
parsed (some (obj fs)) = inl fs
parsed (some _) = inr (respond 400 (refusal "body must be a JSON object"))

abbrev pub read_body : Option ℕ → Option Value → Fields ⊎ Response
read_body none body = inr (respond 413 (refusal "invalid body length"))
read_body (some n) body =
    if not (leb n max_body)
    then inr (respond 413 (refusal "invalid body length"))
    else parsed (if nat_eq n 0 then some (obj end) else body)

abbrev pub or_default : Value → Option Value → Value
or_default v none = v
or_default v (some w) = w

-- a GUIError, or an exception of the kernel
abbrev pub status_of : Error → ℕ
status_of (refused why) = 400
status_of e = 500

module _ {P : Program} where
  unfoldable pub agent_view : Kernel P → Agent P.Memory → AgentView
  unfolding class_name
  agent_view k a = record {
    name = a.name;
    kind = class_name a;
    state = a.state;
    alive = is_alive a;
    parent = a.parent;
    restarts = a.restarts;
    pending = Bus.pending a.name k.bus;
  }

  -- `KernelGUI.state`
  unfoldable pub gui_state : KernelGui P → View
  unfolding newest_first
  gui_state gui =
      let k = gui.kernel in
      record {
        tick = k.tick;
        stop_reason = k.stop_reason;
        quiescent = is_quiescent k;
        backend = k.backend;
        sender = gui.sender;
        agents = map (agent_view k) (Dict.values k.agents);
        mailboxes = map (λ e. (e.0, (length e.1, take max_messages_shown e.1))) (Bus.dump k.bus);
        errors = k.errors;
        integrations = Integrations.names k.integrations;
        reports = newest_first gui.reports;
      }

  -- `do_GET`
  unfoldable pub do_get : Request → KernelGui P → Response
  do_get request gui =
      let path = before "?" request.path in
      if not (host_allowed request.host gui)
      then respond 403 (refusal "host not allowed")
      else if path == "/" || path == "/index.html"
      then respond 200 page
      else if path == "/api/state"
      then respond 200 (view (gui_state gui))
      else if path == "/api/snapshot"
      then elim (gui_snapshot gui) [
        | ok s ↦ respond 200 (saved s)
        | err e ↦ respond 409 (failure e)
      ]
      else respond 404 (refusal "not found")

  -- `scheme != "http" or not gui._host_allowed(rest)`, negated
  unfoldable pub origin_allowed : Option String → KernelGui P → Bool
  unfolding partition
  origin_allowed none gui = true
  origin_allowed (some origin) gui =
      let (scheme, rest) = partition "://" origin in
      if not (scheme == "http") then false else host_allowed (some rest) gui

  -- `_body`: the object that the body holds, or the response that was sent instead
  unfoldable pub body_of : Request → KernelGui P → Fields ⊎ Response
  body_of request gui =
      if not (is_json request.content_type)
      then inr (respond 415 (refusal "expected application/json"))
      else if not (origin_allowed request.origin gui)
      then inr (respond 403 (refusal "cross-origin request refused"))
      else read_body request.length request.body

  -- the `except` clauses of `do_POST`
  abbrev pub answer_with :
      {A : Type 0} → (A → Answer) → Result A × KernelGui P → Response × KernelGui P
  answer_with f (ok a, gui) = (respond 200 (f a), gui)
  answer_with f (err e, gui) = (respond (status_of e) (failure e), gui)

  abbrev pub operate : String → Fields → List (List ℕ) → KernelGui P → Response × KernelGui P
  operate path fs schedules gui =
      if path == "/api/step"
      then answer_with report (gui_step (this_tick schedules) gui)
      else if path == "/api/run"
      then answer_with (λ r. ran r.0 r.1)
          (gui_run (or_default (int false 100) (lookup "max_ticks" fs)) schedules gui)
      else answer_with posted (
          gui_send (or_default (text "") (lookup "to" fs)) (or_default null (lookup "payload" fs))
            (or_default null (lookup "metadata" fs)) gui)

  abbrev pub with_body :
      String → List (List ℕ) → KernelGui P → Fields ⊎ Response → Response × KernelGui P
  with_body path schedules gui (inl fs) = operate path fs schedules gui
  with_body path schedules gui (inr response) = (response, gui)

  -- `do_POST`, at the schedules of the ticks that it runs
  unfoldable pub do_post : Request → List (List ℕ) → KernelGui P → Response × KernelGui P
  unfolding body_of
  do_post request schedules gui =
      let path = before "?" request.path in
      if not (host_allowed request.host gui)
      then (respond 403 (refusal "host not allowed"), gui)
      else if not (elem path ("/api/step" ∷ "/api/run" ∷ "/api/send" ∷ []))
      then (respond 404 (refusal "not found"), gui)
      else with_body path schedules gui (body_of request gui)
