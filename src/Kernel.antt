-- ===== src/Kernel.antt =====
-- titoos/kernel.py: the kernel's state and its operations between ticks, and what it does to one
-- agent at the tick barrier. `Kernel/Context` has what a running step may do, `Kernel/Tick` the tick,
-- `Kernel/Run` the run loop.
pub mod Context
pub mod Pools
pub mod Tick
pub mod Run
pub mod Stable
pub mod Soundness
pub mod Planning
pub mod Barrier
pub mod Settles
pub mod Settlement
pub mod Report
pub mod Clockwork
pub mod Supervision
pub mod Quiescence
pub mod Stopping
pub mod Enduring
pub mod Shutdown
pub mod Closing
pub mod Saving
pub mod Reloading
pub mod Restoring
pub mod Roundtrip
pub mod Schedules
pub mod Samples
mod SavingTests
mod ShutdownTests
mod Tests
use tito_os.Prelude.{
  ℕ, ◌+◌, String, Bool, true, false, List, [], ◌∷◌, map, Option, none, some, not, ◌&&◌, ◌||◌, ◌==◌,
  if◌then◌else◌, leb, nat_eq, is_empty,
}
use tito_os.Errors.{
  Result, ok, err, Error, Exec, proceed, out_of_range, already_registered, no_agent, ◌>>=◌,
}
use tito_os.Dict
use tito_os.Dict.{Dict}
use tito_os.Message.{Value, text, int, Message}
use tito_os.Bus
use tito_os.Bus.{MessageBus}
use tito_os.Integrations
use tito_os.Integrations.{Integration, Registry}
use tito_os.Agent.{
  Agent, AgentState, ready, running, waiting, done, failed, RestartPolicy, never, on_failure, Spec,
  Program, make_agent, is_alive, is_waiting,
}

-- `CHILD_FAILED`
abbrev pub child_failed : String
child_failed = "titoos.child_failed"

pub data StopReason : Type 0 where
  finished quiescent max_ticks : StopReason

-- Which class of titoos/backends.py the kernel was built with.
pub data Backend : Type 0 where
  serial : Backend
  thread : (max_workers : ℕ) → Backend
  async : Backend

pub record Kernel (P : Program) : Type 0 where
  pub bus : MessageBus
  pub integrations : Registry P.Device
  pub agents : Dict (Agent P.Memory)
  pub tick : ℕ
  pub errors : List (String × Error)
  pub stop_reason : Option StopReason
  pub max_workers : ℕ
  pub backend : Backend

-- `Kernel.__init__`
unfoldable pub make_kernel : {P : Program} → ℕ → Option Backend → Result (Kernel P)
make_kernel workers backend =
    let chosen : Backend = elim backend [
      | none ↦ if nat_eq workers 1 then serial else thread workers
      | some b ↦ b
    ] in
    if not (leb 1 workers)
    then err out_of_range
    else ok (record {
      bus = Bus.empty;
      integrations = [];
      agents = [];
      tick = 0;
      errors = [];
      stop_reason = none;
      max_workers = workers;
      backend = chosen;
    })

module _ {M : Type 0} where
  abbrev pub with_parent : Option String → Agent M → Agent M
  with_parent none a = a
  with_parent (some p) a = record a { parent = some p }

  unfoldable pub filter_parent : String → List (Agent M) → List (Agent M)
  filter_parent name [] = []
  filter_parent name (a ∷ rest) =
      let others = filter_parent name rest in
      elim a.parent [ none ↦ others | some p ↦ if p == name then a ∷ others else others ]

  unfoldable pub filter_alive : List (Agent M) → List (Agent M)
  filter_alive [] = []
  filter_alive (a ∷ rest) =
      let others = filter_alive rest in if is_alive a then a ∷ others else others

  abbrev pub agent_names : List (Agent M) → List String
  agent_names = map (λ a. a.name)

  unfoldable pub any_not_waiting : List (Agent M) → Bool
  any_not_waiting [] = false
  any_not_waiting (a ∷ rest) = not (is_waiting a.state) || any_not_waiting rest

  abbrev pub with_state : AgentState → Agent M → Agent M
  with_state s a = record a { state = s }

  -- `restarts += 1` and what `on_restart` does to the attributes
  abbrev pub restarted_once : M → Agent M → Agent M
  restarted_once m a = record a { restarts = a.restarts + 1; memory = m }

  -- the restart policy lets `agent` run again
  unfoldable pub may_restart : Agent M → Bool
  may_restart a = elim a.restart_policy [
    | never ↦ false
    | on_failure ↦ not (leb a.max_restarts a.restarts)
  ]

  abbrev pub failure_notice : Agent M → Dict Value
  failure_notice a = ("child", text a.name) ∷ ("restarts", int false a.restarts) ∷ []

module _ {P : Program} where
  -- `Kernel.get`
  unfoldable pub get : String → Kernel P → Result (Agent P.Memory)
  get name k = elim (Dict.get name k.agents) [ none ↦ err (no_agent name) | some a ↦ ok a ]

  -- `Kernel.register`: the kernel, or the error that left it as it was
  unfoldable pub register : Agent P.Memory → Option String → Kernel P → Result (Kernel P)
  register agent parent k =
      if Dict.contains agent.name k.agents
      then err (already_registered agent.name)
      else ok (record k {
        agents = Dict.set agent.name (with_parent parent agent) k.agents;
        bus = Bus.register agent.name k.bus;
      })

  -- `Kernel.install`
  unfoldable pub install : Integration P.Device → Kernel P → Result (Kernel P)
  install i k = Integrations.install i k.integrations >>= λ r. ok (record k { integrations = r })

  -- `Kernel.children_of`
  unfoldable pub children_of : String → Kernel P → List (Agent P.Memory)
  unfolding filter_parent
  children_of name k = filter_parent name (Dict.values k.agents)

  -- `Kernel.spawn`; the callable is in the memory of `FunctionAgent`
  unfoldable pub spawn : Spec P.Memory → Kernel P → Result (Kernel P)
  spawn spec k = make_agent spec >>= λ a. register a none k

  -- `Kernel.unregister`
  unfoldable pub unregister : String → Kernel P → Kernel P
  unregister name k = record k { agents = Dict.pop name k.agents; bus = Bus.unregister name k.bus }

  -- `Kernel._live_snapshot`
  unfoldable pub live_snapshot : Kernel P → List (Agent P.Memory)
  live_snapshot k = filter_alive (Dict.values k.agents)

  -- `Kernel._is_quiescent`
  unfoldable pub quiescent_among : List (Agent P.Memory) → Kernel P → Bool
  quiescent_among live k =
      if is_empty live
      then false
      else if any_not_waiting live
      then false
      else not (Bus.any_pending (agent_names live) k.bus)

  -- `Kernel.is_quiescent`
  unfoldable pub is_quiescent : Kernel P → Bool
  is_quiescent k = quiescent_among (live_snapshot k) k

  -- A write to attributes of the agent object that is registered under `name`.
  unfoldable pub update_agent : String → (Agent P.Memory → Agent P.Memory) → Kernel P → Kernel P
  update_agent name f k = record k { agents = Dict.modify name f k.agents }

  abbrev pub restart_result : String → List Message → P.Memory × Option Error → Exec (Kernel P) Bool
  restart_result name inbox (m, some e) k = (err e, update_agent name (restarted_once m) k)
  restart_result name inbox (m, none) k =
      let k' = update_agent name (λ a. with_state ready (restarted_once m a)) k in
      (ok true, record k' { bus = Bus.requeue name inbox k'.bus })

  -- `Kernel._supervise`: an exception of `on_restart` passes through. `on_restart` sees the counter
  -- raised.
  unfoldable pub supervise : String → List Message → Exec (Kernel P) Bool
  supervise name inbox k = elim (Dict.get name k.agents) [
    | none ↦ (ok false, k)
    | some a ↦
        if may_restart a
        then restart_result name inbox (P.on_restart (record a { restarts = a.restarts + 1 })) k
        else (ok false, k)
  ]

  -- the parent that `_escalate` tells, if it is registered and alive
  unfoldable pub living_parent : Agent P.Memory → Kernel P → Option String
  living_parent a k = elim a.parent [
    | none ↦ none
    | some p ↦ elim (Dict.get p k.agents) [
      | none ↦ none
      | some b ↦ if is_alive b then some p else none
    ]
  ]

  abbrev pub posted : Kernel P → Result (Message × MessageBus) → Result (Unit {0}) × Kernel P
  posted k (ok (m, bus)) = (ok tt, record k { bus = bus })
  posted k (err e) = (err e, k)

  -- `Kernel._escalate`
  unfoldable pub escalate : Agent P.Memory → Exec (Kernel P) (Unit {0})
  escalate a k = elim (living_parent a k) [
    | none ↦ (ok tt, k)
    | some p ↦ posted k (Bus.post a.name p (text child_failed) (failure_notice a) k.bus)
  ]

  -- `Kernel._unregister_finished_mailbox`
  unfoldable pub unregister_finished_mailbox : String → Kernel P → Kernel P
  unregister_finished_mailbox name k = elim (Dict.get name k.agents) [
    | none ↦ k
    | some a ↦ if is_alive a then k else record k { bus = Bus.unregister name k.bus }
  ]
