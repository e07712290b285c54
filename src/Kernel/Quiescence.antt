-- ===== src/Kernel/Quiescence.antt =====
-- A quiescent kernel: what a tick does to it, and when a kernel is one.
use tito_os.Prelude.{ℕ, ◌+◌, String, true, false, List, [], ◌∷◌, map, ◌≡◌, refl, arith}
use tito_os.Errors.{ok}
use tito_os.Bus
use tito_os.Bus.Draining.{receive_many_idle}
use tito_os.Agent.{Agent, Program}
use tito_os.Kernel.{
  Kernel, Backend, serial, thread, async, live_snapshot, agent_names, is_quiescent, quiescent_among,
  any_not_waiting,
}
use tito_os.Kernel.Tick.{
  plan, with_outcome, supervise_all, escalate_all, reclaim, settle, step, run_tick, TickReport,
  collect, interleave, advance_at, reject_async,
}

plan_idle :
    {M : Type 0} (live : List (Agent M))
    → any_not_waiting live ≡ false
    → plan live (map (λ _. []) (agent_names live)) ≡ ([], agent_names live)
unfolding plan any_not_waiting
plan_idle [] h = refl
plan_idle (a ∷ live) h = ground (arith, plan_idle live)

abbrev pub idle_report : ℕ → List String → TickReport
idle_report tick names = record {
  tick = tick;
  ran = [];
  failed = [];
  waiting = names;
  restarted = [];
}

module _ {P : Program} where
  interleave_nobody :
      (tick : ℕ) (schedule : List ℕ) (k : Kernel P) → interleave tick schedule [] k ≡ ([], k)
  unfolding interleave advance_at
  interleave_nobody tick [] k = refl
  interleave_nobody tick (i ∷ schedule) k = interleave_nobody tick schedule k

  run_tick_nobody :
      (backend : Backend) (schedule : List ℕ) (tick : ℕ) (k : Kernel P)
      → run_tick backend schedule tick [] k ≡ (ok [], k)
  unfolding run_tick reject_async collect
  run_tick_nobody serial schedule tick k = refl
  run_tick_nobody (thread n) schedule tick k = refl
  run_tick_nobody async schedule tick k = rw (interleave_nobody tick schedule k)

  quiescent_parts :
      (live : List (Agent P.Memory)) (k : Kernel P)
      → quiescent_among live k ≡ true
      → (any_not_waiting live ≡ false) × (Bus.any_pending (agent_names live) k.bus ≡ false)
  unfolding quiescent_among
  quiescent_parts live k h = (ground arith, ground arith)

  settle_nobody :
      (tick : ℕ) (idle : List String) (k : Kernel P)
      → settle tick [] idle [] k ≡ (ok (idle_report tick idle), k)
  unfolding settle with_outcome supervise_all escalate_all reclaim
  settle_nobody tick idle k = refl

  -- A tick of a quiescent kernel returns, runs nobody, reports every live agent as waiting, and
  -- changes nothing but the tick counter: on every backend and schedule.
  pub step-quiescent :
      (schedule : List ℕ) (k : Kernel P)
      → is_quiescent k ≡ true
      → step schedule k ≡ (
        ok (idle_report (k.tick + 1) (agent_names (live_snapshot k))),
        record k { tick = k.tick + 1 },
      )
  step-quiescent schedule k h =
      let live = live_snapshot k in
      let (all_wait, no_mail) = quiescent_parts live k (unfold is_quiescent in h) in
      unfold step in
      rw (receive_many_idle (agent_names live) k.bus no_mail) (
        rw (plan_idle live all_wait) (
          rw (run_tick_nobody k.backend schedule (k.tick + 1) (record k { tick = k.tick + 1 }))
            (settle_nobody (k.tick + 1) (agent_names live) (record k { tick = k.tick + 1 }))))
