-- ===== src/Kernel/Tick.antt =====
-- titoos/backends.py, and `Kernel.step`. The steps of a tick may run in a pool: a schedule names,
-- request by request, the worker that goes on next, and what it leaves unfinished is run out in
-- registration order. The empty schedule is the serial order, so the schedules are all the
-- interleavings at the grain of the bus's and the kernel's locks.
use tito_os.Prelude.{
  ℕ, zero, suc, ◌+◌, String, Bool, true, false, List, [], ◌∷◌, map, Option, none, some, not, ◌&&◌,
  if◌then◌else◌, is_empty, length, ltb,
}
use tito_os.Errors.{Result, ok, err, Error, Exec, proceed, async_unsupported}
use tito_os.Dict
use tito_os.Dict.{Dict}
use tito_os.Message.{Message}
use tito_os.Bus
use tito_os.Agent.{Agent, Script, Program, is_waiting, is_failed}
use tito_os.Kernel.{
  Kernel, Backend, serial, thread, async, live_snapshot, agent_names, supervise, escalate,
  unregister_finished_mailbox,
}
use tito_os.Kernel.Context.{
  Progress, queued, active, finished, begin_step, script_of, one_request, run_script,
}

-- `TickReport`
pub record TickReport : Type 0 where
  pub tick : ℕ
  pub ran : List String
  pub failed : List String
  pub waiting : List String
  pub restarted : List String

-- `Job`: an agent that runs in this tick, and its inbox.
pub record Job : Type 0 where
  pub agent : String
  pub inbox : List Message

-- The run of an agent in a pool.
pub record Worker (M : Type 0) : Type 0 where
  pub agent : String
  pub progress : Progress M

abbrev pub hire : {M : Type 0} → Job → Worker M
hire job = record { agent = job.agent; progress = queued job.inbox }

abbrev pub started : {M : Type 0} → Option (Script M) → Progress M
started none = finished true
started (some script) = active script

module _ {P : Program} where
  abbrev pub in_progress : String → Progress P.Memory × Kernel P → Worker P.Memory × Kernel P
  in_progress me (progress, k) = (record { agent = me; progress = progress }, k)

  -- One atomic piece of a worker's run.
  unfoldable pub advance : ℕ → String → Progress P.Memory → Kernel P → Progress P.Memory × Kernel P
  advance tick me (queued inbox) k =
      let k' = begin_step me k in (started (script_of me tick inbox k'), k')
  advance tick me (active script) k = one_request me script k
  advance tick me (finished outcome) k = (finished outcome, k)

  abbrev pub run_started : String → Option (Script P.Memory) → Kernel P → Bool × Kernel P
  run_started me none k = (true, k)
  run_started me (some script) k = run_script me script k

  -- The rest of a worker's run: all of `_run_agent`, for a worker that is queued.
  unfoldable pub run_out : ℕ → String → Progress P.Memory → Kernel P → Bool × Kernel P
  run_out tick me (queued inbox) k =
      let k' = begin_step me k in run_started me (script_of me tick inbox k') k'
  run_out tick me (active script) k = run_script me script k
  run_out tick me (finished outcome) k = (outcome, k)

  -- The worker at a position of the pool goes on.
  unfoldable pub advance_at :
      ℕ → ℕ → List (Worker P.Memory) → Kernel P → List (Worker P.Memory) × Kernel P
  advance_at tick i [] k = ([], k)
  advance_at tick zero (w ∷ pool) k =
      let (progress, k') = advance tick w.agent w.progress k in
      (record w { progress = progress } ∷ pool, k')
  advance_at tick (suc i) (w ∷ pool) k =
      let (pool', k') = advance_at tick i pool k in (w ∷ pool', k')

  unfoldable pub interleave :
      ℕ → List ℕ → List (Worker P.Memory) → Kernel P → List (Worker P.Memory) × Kernel P
  interleave tick [] pool k = (pool, k)
  interleave tick (i ∷ schedule) pool k =
      let (pool', k') = advance_at tick i pool k in interleave tick schedule pool' k'

  -- Each worker runs out, and its outcome is collected, in registration order.
  unfoldable pub collect : ℕ → List (Worker P.Memory) → Kernel P → List Bool × Kernel P
  collect tick [] k = ([], k)
  collect tick (w ∷ pool) k =
      let (outcome, k') = run_out tick w.agent w.progress k in
      let (outcomes, k'') = collect tick pool k' in (outcome ∷ outcomes, k'')

  -- `_is_async_agent`
  unfoldable pub is_async_agent : String → Kernel P → Bool
  is_async_agent name k = elim (Dict.get name k.agents) [ none ↦ false | some a ↦ a.is_async ]

  -- `_reject_async`: the first asynchronous agent
  unfoldable pub reject_async : List Job → Kernel P → Option Error
  unfolding is_async_agent
  reject_async [] k = none
  reject_async (job ∷ jobs) k =
      let later = reject_async jobs k in
      if is_async_agent job.agent k then some (async_unsupported job.agent) else later

  abbrev pub done_or :
      Option Error → List Bool × Kernel P → Kernel P → Result (List Bool) × Kernel P
  done_or none (outcomes, k') k = (ok outcomes, k')
  done_or (some e) _ k = (err e, k)

  -- `run_tick` of the three backends, at a schedule
  unfoldable pub run_tick : Backend → List ℕ → ℕ → List Job → Exec (Kernel P) (List Bool)
  run_tick serial schedule tick jobs k =
      done_or (reject_async jobs k) (collect tick (map hire jobs) k) k
  run_tick (thread _) schedule tick jobs k =
      let (pool, k') = interleave tick schedule (map hire jobs) k in
      done_or (reject_async jobs k)
        (if ltb (length jobs) 2 then collect tick (map hire jobs) k else collect tick pool k') k
  run_tick async schedule tick jobs k =
      let (pool, k') = interleave tick schedule (map hire jobs) k in
      let (outcomes, k'') = collect tick pool k' in (ok outcomes, k'')

-- The loop of `step` that splits the live agents, each with what its mailbox held.
unfoldable pub plan : {M : Type 0} → List (Agent M) → List (List Message) → List Job × List String
plan [] inboxes = ([], [])
plan (a ∷ live) [] = ([], [])
plan (a ∷ live) (inbox ∷ inboxes) =
    let (jobs, idle) = plan live inboxes in
    if is_waiting a.state && is_empty inbox
    then (jobs, a.name ∷ idle)
    else (record { agent = a.name; inbox = inbox } ∷ jobs, idle)

-- The jobs whose outcome is `wanted`.
unfoldable pub with_outcome : Bool → List Job → List Bool → List Job
with_outcome wanted [] outcomes = []
with_outcome wanted (job ∷ jobs) [] = []
with_outcome wanted (job ∷ jobs) (ok? ∷ outcomes) =
    let rest = with_outcome wanted jobs outcomes in
    if (if wanted then ok? else not ok?) then job ∷ rest else rest

abbrev pub job_names : List Job → List String
job_names = map (λ job. job.agent)

abbrev pub report_of : ℕ → List Job → List String → List Bool → List String → TickReport
report_of tick jobs idle outcomes restarted = record {
  tick = tick;
  ran = job_names (with_outcome true jobs outcomes);
  failed = job_names (with_outcome false jobs outcomes);
  waiting = idle;
  restarted = restarted;
}

module _ {P : Program} where
  -- The names of the casualties that their supervision restarts.
  unfoldable pub supervise_all : List Job → Exec (Kernel P) (List String)
  supervise_all [] k = (ok [], k)
  supervise_all (job ∷ casualties) k = proceed (supervise job.agent job.inbox k) λ again k'.
      proceed (supervise_all casualties k')
        λ names k''. (ok (if again then job.agent ∷ names else names), k'')

  -- `if agent.state is FAILED: self._escalate(agent)`
  unfoldable pub escalate_failed : String → Exec (Kernel P) (Unit {0})
  escalate_failed name k = elim (Dict.get name k.agents) [
    | none ↦ (ok tt, k)
    | some a ↦ if is_failed a.state then escalate a k else (ok tt, k)
  ]

  unfoldable pub escalate_all : List Job → Exec (Kernel P) (Unit {0})
  unfolding escalate_failed
  escalate_all [] k = (ok tt, k)
  escalate_all (job ∷ casualties) k =
      proceed (escalate_failed job.agent k) λ _ k'. escalate_all casualties k'

  unfoldable pub reclaim : List Job → Kernel P → Kernel P
  reclaim [] k = k
  reclaim (job ∷ jobs) k = reclaim jobs (unregister_finished_mailbox job.agent k)

  -- The part of `step` behind the barrier.
  unfoldable pub settle : ℕ → List Job → List String → List Bool → Exec (Kernel P) TickReport
  settle tick jobs idle outcomes k =
      let casualties = with_outcome false jobs outcomes in
      proceed (supervise_all casualties k) λ restarted k'.
        proceed (escalate_all casualties k')
          λ _ k''. (ok (report_of tick jobs idle outcomes restarted), reclaim jobs k'')

  -- The kernel with the tick counted and the mailboxes of the live agents drained.
  abbrev pub drained : Kernel P → Kernel P
  drained k = record k {
    tick = k.tick + 1;
    bus = (Bus.receive_many (agent_names (live_snapshot k)) k.bus).1;
  }

  abbrev pub plan_of : Kernel P → List Job × List String
  plan_of k = plan (live_snapshot k) (Bus.receive_many (agent_names (live_snapshot k)) k.bus).0

  -- `Kernel.step`
  unfoldable pub step : List ℕ → Exec (Kernel P) TickReport
  step schedule k =
      let (jobs, idle) = plan_of k in
      let k' = drained k in
      proceed (run_tick k'.backend schedule k'.tick jobs k') (settle k'.tick jobs idle)
