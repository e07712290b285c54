-- ===== src/Kernel/Run.antt =====
-- `Kernel.run`.
use tito_os.Prelude.{ℕ, zero, suc, List, [], ◌∷◌, Option, none, some, if◌then◌else◌, is_empty}
use tito_os.Errors.{ok, Exec, proceed}
use tito_os.Agent.{Program}
use tito_os.Kernel.{
  Kernel, StopReason, finished, quiescent, max_ticks, live_snapshot, quiescent_among,
}
use tito_os.Kernel.Tick.{TickReport, step}

-- The schedule of a tick, for the ticks that the caller has prepared one for.
abbrev pub this_tick : List (List ℕ) → List ℕ
this_tick [] = []
this_tick (schedule ∷ _) = schedule

abbrev pub later_ticks : List (List ℕ) → List (List ℕ)
later_ticks [] = []
later_ticks (_ ∷ schedules) = schedules

module _ {P : Program} where
  abbrev pub stopped : StopReason → Kernel P → Kernel P
  stopped reason k = record k { stop_reason = some reason }

  -- Why the loop breaks before the next tick, or what its `else` clause finds behind the last one.
  unfoldable pub stop_now : Kernel P → Option StopReason
  stop_now k =
      let live = live_snapshot k in
      if is_empty live
      then some finished
      else if quiescent_among live k
      then some quiescent
      else none

  abbrev pub or_stay : Option StopReason → Kernel P → Kernel P
  or_stay none k = k
  or_stay (some reason) k = stopped reason k

  -- The `for` loop, by the ticks that are left.
  unfoldable pub run_loop : ℕ → List (List ℕ) → Exec (Kernel P) (List TickReport)
  run_loop zero schedules k = (ok [], or_stay (stop_now k) k)
  run_loop (suc left) schedules k = elim (stop_now k) [
    | some reason ↦ (ok [], stopped reason k)
    | none ↦ proceed (step (this_tick schedules) k) λ report k'.
        proceed (run_loop left (later_ticks schedules) k')
          λ reports k''. (ok (report ∷ reports), k'')
  ]

  -- `Kernel.run`, at a number of ticks that is not negative
  unfoldable pub run : ℕ → List (List ℕ) → Exec (Kernel P) (List TickReport)
  run ticks schedules k = run_loop ticks schedules (stopped max_ticks k)
