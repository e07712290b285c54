-- ===== src/Kernel/Clockwork.antt =====
-- What a tick never touches: the tick counter, once it is raised, and the stop reason.
use tito_os.Prelude.{ℕ, ◌+◌, String, List, [], ◌∷◌, Option, none, some, ◌≡◌, refl, All, arith}
use tito_os.Errors.{Result, ok, err, Error}
use tito_os.Message.{Message}
use tito_os.Bus
use tito_os.Bus.{MessageBus}
use tito_os.Agent.{Agent, Program, Spec}
use tito_os.Kernel.{
  Kernel, StopReason, register, update_agent, restart_result, unregister_finished_mailbox,
}
use tito_os.Kernel.Context.{
  ctx_send, ctx_broadcast, ctx_spawn, ctx_call, ctx_wait, ctx_exit, begin_step, end_step,
  record_failure, sent,
}
use tito_os.Kernel.Stable.{Stable}
use tito_os.Kernel.Settles.{Settles, step-keeps}
use tito_os.Kernel.Tick.{Job, step, plan_of}

module _ {P : Program} (t : ℕ) (r : Option StopReason) where
  pub record Shows (k : Kernel P) : Type 0 where
    pub tick : k.tick ≡ t
    pub reason : k.stop_reason ≡ r

  sent-Shows : (k : Kernel P) (s : Result (Message × MessageBus)) → Shows k → Shows (sent k s).1
  sent-Shows k (ok (m, bus)) h = record { tick = h.tick; reason = h.reason }
  sent-Shows k (err e) h = h

  update-Shows :
      (me : String) (f : Agent P.Memory → Agent P.Memory) (k : Kernel P)
      → Shows k
      → Shows (update_agent me f k)
  unfolding update_agent
  update-Shows me f k h = record { tick = h.tick; reason = h.reason }

  spawn-Shows :
      (me : String) (spec : Spec P.Memory) (k : Kernel P) → Shows k → Shows (ctx_spawn me spec k).1
  unfolding ctx_spawn register
  spawn-Shows me spec k h = record {
    tick = ground (arith, h.tick);
    reason = ground (arith, h.reason);
  }

  requests-Stable : Stable Shows (λ _. Unit {0})
  requests-Stable = record {
    sends = λ me to payload metadata k q h.
        unfold ctx_send in sent-Shows k (Bus.post me to payload metadata k.bus) h;
    broadcasts = λ me payload metadata k q h.
        unfold ctx_broadcast in sent-Shows k (Bus.broadcast me payload metadata k.bus) h;
    spawns = λ me spec k q h. spawn-Shows me spec k h;
    calls = λ name operation arguments k h.
        unfold ctx_call in record { tick = h.tick; reason = h.reason };
    waits = λ me k q h. unfold ctx_wait in update-Shows me _ k h;
    exits = λ me k q h. unfold ctx_exit in update-Shows me _ k h;
    begins = λ me k q h. unfold begin_step in update-Shows me _ k h;
    returns = λ me m k q h. unfold end_step in update-Shows me _ k h;
    raises = λ me e m k q h.
        unfold record_failure update_agent in record { tick = h.tick; reason = h.reason };
  }

  restart-Shows :
      (name : String) (inbox : List Message) (o : P.Memory × Option Error) (k : Kernel P)
      → Shows k
      → Shows (restart_result name inbox o k).1
  unfolding update_agent
  restart-Shows name inbox (m, some e) k h = record { tick = h.tick; reason = h.reason }
  restart-Shows name inbox (m, none) k h = record { tick = h.tick; reason = h.reason }

  drop-Shows : (name : String) (k : Kernel P) → Shows k → Shows (unregister_finished_mailbox name k)
  unfolding unregister_finished_mailbox
  drop-Shows name k h = record { tick = ground (arith, h.tick); reason = ground (arith, h.reason) }

  tick-Settles : Settles Shows Shows (λ _. Unit {0})
  tick-Settles = record {
    restarts = λ name inbox a k found may q h. restart-Shows name inbox (P.on_restart _) k h;
    posts = λ m k b e h. record { tick = h.tick; reason = h.reason };
    weakens = λ k h. h;
    drops = drop-Shows;
  }

everyone : (jobs : List Job) → All (λ job. Unit {0}) jobs
everyone [] = tt
everyone (job ∷ jobs) = (tt, everyone jobs)

-- A tick counts itself, whether it returns or raises, and leaves the stop reason alone.
pub step-Shows :
    {P : Program} (schedule : List ℕ) (k : Kernel P)
    → ((step schedule k).1.tick ≡ k.tick + 1) × ((step schedule k).1.stop_reason ≡ k.stop_reason)
step-Shows schedule k =
    let shown =
      step-keeps (tick-Settles (k.tick + 1) k.stop_reason)
        (requests-Stable (k.tick + 1) k.stop_reason) schedule k (everyone (plan_of k).0)
        (record { tick = refl; reason = refl }) in
    (shown.tick, shown.reason)
