-- ===== src/Kernel/Enduring.antt =====
-- `Kernel.run` keeps the invariant of the kernel.
use tito_os.Prelude.{ℕ, zero, suc, List, Option, none, some, ◌≡◌, refl}
use tito_os.Errors.{Result, ok, err, Exec, proceed}
use tito_os.Agent.{Program}
use tito_os.Kernel.{Kernel, StopReason}
use tito_os.Kernel.Tick.{step}
use tito_os.Kernel.Run.{run, run_loop, stop_now, stopped, or_stay, this_tick, later_ticks}
use tito_os.Kernel.Soundness.{IsSound}
use tito_os.Kernel.Stopping.{run_loop-goes, run_loop-leaves}
use tito_os.Kernel.Settlement.{step-IsSound}

-- What the first part of a method leaves, and the rest of it keeps, the whole method leaves.
pub proceed-keeps :
    {S A B : Type 0} (I : S → Type 0) (r : Result A × S) (f : A → Exec S B)
    → I r.1
    → ((a : A) (s : S) → I s → I (f a s).1)
    → I (proceed r f).1
proceed-keeps I (ok a, s) f h keeps = keeps a s h
proceed-keeps I (err e, s) f h keeps = h

module _ {P : Program} where
  stopped-IsSound : (reason : StopReason) (k : Kernel P) → IsSound k → IsSound (stopped reason k)
  stopped-IsSound reason k s = record {
    named = s.named;
    reachable = s.reachable;
    distinct = s.distinct;
  }

  or_stay-IsSound : (o : Option StopReason) (k : Kernel P) → IsSound k → IsSound (or_stay o k)
  or_stay-IsSound none k s = s
  or_stay-IsSound (some reason) k s = stopped-IsSound reason k s

  run_loop-IsSound :
      (left : ℕ) (schedules : List (List ℕ)) (k : Kernel P)
      → IsSound k
      → IsSound (run_loop left schedules k).1
  unfolding run_loop
  run_loop-IsSound zero schedules k s = or_stay-IsSound (stop_now k) k s
  run_loop-IsSound (suc left) schedules k s =
      by_reason (stop_now k) refl (λ k' s'. run_loop-IsSound left (later_ticks schedules) k' s')
    where
      by_reason :
          (o : Option StopReason)
          → stop_now k ≡ o
          → ((k' : Kernel P) → IsSound k' → IsSound (run_loop left (later_ticks schedules) k').1)
          → IsSound (run_loop (suc left) schedules k).1
      by_reason (some reason) e later =
          rw (run_loop-leaves left schedules k reason e) (stopped-IsSound reason k s)
      by_reason none e later = rw (run_loop-goes left schedules k e) (
          proceed-keeps IsSound (step (this_tick schedules) k) _
            (step-IsSound (this_tick schedules) k s)
            (λ report k' s'.
              proceed-keeps IsSound (run_loop left (later_ticks schedules) k') _ (later k' s')
                (λ reports k'' s''. s'')))

  -- A run keeps the kernel's invariant, for every program, budget and interleaving of the workers in
  -- each tick, whether it returns or a tick raises.
  pub run-IsSound :
      (ticks : ℕ) (schedules : List (List ℕ)) (k : Kernel P)
      → IsSound k
      → IsSound (run ticks schedules k).1
  unfolding run
  run-IsSound ticks schedules k s = run_loop-IsSound ticks schedules _ (stopped-IsSound _ k s)
