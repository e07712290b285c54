-- ===== src/Agent.antt =====
-- titoos/agent.py: agents, their lifecycle, and what a step can ask of its context. The code of an
-- agent is not this program's: `Program` stands for the classes that a caller supplies.
pub mod Traces
use tito_os.Prelude.{ℕ, String, Bool, true, false, List, Option, none, some, ◌==◌, if◌then◌else◌}
use tito_os.Errors.{Result, ok, err, Error, empty_name, cannot_run_again}
use tito_os.Dict.{Dict}
use tito_os.Message.{Value, Message}

pub data RestartPolicy : Type 0 where
  never on_failure : RestartPolicy

pub data AgentState : Type 0 where
  ready running waiting done failed : AgentState

-- An `Agent` object. `kind` is its class's name, `memory` the attributes that its class adds,
-- `is_async` what `inspect.iscoroutinefunction` says of its step. `saved` is the `saved_state` of a
-- `FinishedAgent` of titoos/persistence.py, and none for an agent of any other class.
pub record Agent (M : Type 0) : Type 0 where
  pub name : String
  pub kind : String
  pub state : AgentState
  pub parent : Option String
  pub restarts : ℕ
  pub restart_policy : RestartPolicy
  pub max_restarts : ℕ
  pub is_async : Bool
  pub memory : M
  pub saved : Option (Dict Value)

-- `Agent.is_alive`, of the state
unfoldable pub alive_state : AgentState → Bool
alive_state ready = true
alive_state running = true
alive_state waiting = true
alive_state done = false
alive_state failed = false

unfoldable pub is_running : AgentState → Bool
is_running running = true
is_running _ = false

unfoldable pub is_waiting : AgentState → Bool
is_waiting waiting = true
is_waiting _ = false

unfoldable pub is_failed : AgentState → Bool
is_failed failed = true
is_failed _ = false

unfoldable pub is_alive : {M : Type 0} → Agent M → Bool
unfolding alive_state
is_alive a = alive_state a.state

-- What a class and its constructor's arguments give an agent.
pub record Spec (M : Type 0) : Type 0 where
  pub name : String
  pub kind : String
  pub restart_policy : RestartPolicy
  pub max_restarts : ℕ
  pub is_async : Bool
  pub memory : M

-- `Agent.__init__`
unfoldable pub make_agent : {M : Type 0} → Spec M → Result (Agent M)
make_agent s =
    if s.name == ""
    then err empty_name
    else ok (record {
      name = s.name;
      kind = s.kind;
      state = ready;
      parent = none;
      restarts = 0;
      restart_policy = s.restart_policy;
      max_restarts = s.max_restarts;
      is_async = s.is_async;
      memory = s.memory;
      saved = none;
    })

-- One run of `Agent.step`: what the step asks of its `Context`, each request with the rest of the
-- step for every answer. A step returns or raises, with the attributes that it leaves.
pub data Script (M : Type 0) : Type 0 where
  return : M → Script M
  raise : Error → M → Script M
  send : String → Value → Dict Value → (Result Message → Script M) → Script M
  broadcast : Value → Dict Value → (Result Message → Script M) → Script M
  spawn : Spec M → (Result (Agent M) → Script M) → Script M
  children : (List (Agent M) → Script M) → Script M
  call : String → String → Value → (Result Value → Script M) → Script M
  wait : Script M → Script M
  exit : Script M → Script M

-- What the caller supplies: the classes of agents and of drivers.
pub record Program : Type 1 where
  -- the attributes of agents, and the states of drivers
  pub Memory : Type 0
  pub Device : Type 0
  -- the attributes of an object whose class adds none
  pub no_attributes : Memory
  -- `Agent.step(ctx)`, at the tick and the inbox of the context
  pub step : Agent Memory → ℕ → List Message → Script Memory
  -- `Agent.on_restart`: the attributes after it, and what it raised
  pub on_restart : Agent Memory → Memory × Option Error
  -- `Agent.save_state` and `Agent.load_state`
  pub save_state : Agent Memory → Dict Value
  pub load_state : Agent Memory → Dict Value → Memory
  -- a method of a driver, and `Integration.close`
  pub perform : Device → String → Value → Result Value × Device
  pub close : Device → Option Error × Device

-- The step of an agent of any class: a `FinishedAgent` raises.
unfoldable pub step_of : (P : Program) → Agent P.Memory → ℕ → List Message → Script P.Memory
step_of P a tick inbox = elim a.saved [
  | none ↦ P.step a tick inbox
  | some _ ↦ Script.raise (cannot_run_again a.name) a.memory
]

-- `save_state` and `load_state` of an agent of any class
unfoldable pub save_state_of : (P : Program) → Agent P.Memory → Dict Value
save_state_of P a = elim a.saved [ none ↦ P.save_state a | some state ↦ state ]

unfoldable pub load_state_of : (P : Program) → Agent P.Memory → Dict Value → Agent P.Memory
load_state_of P a state = record a {
  memory = elim a.saved [ none ↦ P.load_state a state | some _ ↦ a.memory ];
  saved = elim a.saved [ none ↦ none | some _ ↦ some state ];
}
