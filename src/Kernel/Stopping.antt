-- ===== src/Kernel/Stopping.antt =====
-- `Kernel.run` against its stop reason.
use tito_os.Prelude.{
  ℕ, zero, suc, ◌+◌, ◌≤◌, true, List, [], ◌∷◌, Option, none, some, ◌≡◌, refl, inl, inr, arith,
  length, ◌↔◌, ap, Option-cases, subst, subst₂, sym, ◌∙◌,
}
use tito_os.Errors.{ok, proceed, proceed-eq-ok, ok-path}
use tito_os.Agent.{Program}
use tito_os.Kernel.{
  Kernel, StopReason, finished, quiescent, max_ticks, live_snapshot, is_quiescent, quiescent_among,
}
use tito_os.Kernel.Tick.{TickReport, step}
use tito_os.Kernel.Run.{run, run_loop, stop_now, stopped, or_stay, this_tick, later_ticks}
use tito_os.Kernel.Clockwork.{step-Shows}
use tito_os.Kernel.Report.{step-Accounts}

-- The reports are of the ticks `start + 1`, `start + 2`, ...
abbrev pub Numbered : ℕ → List TickReport → Type 0
Numbered start [] = Unit
Numbered start (r ∷ reports) = (r.tick ≡ start + 1) × Numbered (start + 1) reports

-- What a run that returned says of itself.
pub record Stops {P : Program} (ticks start : ℕ) (reports : List TickReport) (k : Kernel P)
    : Type 0 where
  pub within_budget : length reports ≤ ticks
  pub numbered : Numbered start reports
  pub counted : k.tick ≡ start + length reports
  pub finished_iff : (k.stop_reason ≡ some finished) ↔ (live_snapshot k ≡ [])
  pub quiescent_iff : (k.stop_reason ≡ some quiescent) ↔ (is_quiescent k ≡ true)
  pub exhausted : k.stop_reason ≡ some max_ticks → length reports ≡ ticks
  pub has_reason : (r : StopReason) × (k.stop_reason ≡ some r)

module _ {P : Program} where
  -- the stop reason of a kernel that the loop leaves, and the test that it leaves by
  abbrev Rightly : Kernel P → Type 0
  Rightly k =
      ((k.stop_reason ≡ some finished) ↔ (live_snapshot k ≡ []))
      × ((k.stop_reason ≡ some quiescent) ↔ (is_quiescent k ≡ true))

  none-Rightly : (k : Kernel P) → k.stop_reason ≡ some max_ticks → stop_now k ≡ none → Rightly k
  unfolding stop_now is_quiescent quiescent_among
  none-Rightly k r h =
      (((λ e. cc), λ e. absurd (ground arith)), ((λ e. cc), λ e. absurd (ground arith)))

  some-Rightly :
      (k : Kernel P) (reason : StopReason) → stop_now k ≡ some reason → Rightly (stopped reason k)
  unfolding stop_now is_quiescent quiescent_among live_snapshot
  some-Rightly k reason h =
      ((λ e. ground arith, λ e. ground arith), (λ e. ground arith, λ e. ground arith))

  -- the loop leaves by a test
  breaks :
      (left : ℕ) (k : Kernel P) (reason : StopReason)
      → stop_now k ≡ some reason
      → Stops left k.tick [] (stopped reason k)
  breaks left k reason h =
      let (fin, qui) = some-Rightly k reason h in
      record {
        within_budget = omega arith;
        numbered = tt;
        counted = omega arith;
        finished_iff = fin;
        quiescent_iff = qui;
        exhausted = λ e. absurd (never_max reason h e);
        has_reason = (reason, refl);
      }
    where
      never_max : (r : StopReason) → stop_now k ≡ some r → ¬ (some r ≡ some max_ticks)
      never_max r e e' = unfold stop_now in ground arith

  -- the budget is used up
  ends : (k : Kernel P) → k.stop_reason ≡ some max_ticks → stop_now k ≡ none → Stops 0 k.tick [] k
  ends k r h =
      let (fin, qui) = none-Rightly k r h in
      record {
        within_budget = omega arith;
        numbered = tt;
        counted = omega arith;
        finished_iff = fin;
        quiescent_iff = qui;
        exhausted = λ e. refl;
        has_reason = (max_ticks, r);
      }

  goes_on :
      (left : ℕ) (k k₁ k' : Kernel P) (report : TickReport) (reports : List TickReport)
      → report.tick ≡ k.tick + 1
      → k₁.tick ≡ k.tick + 1
      → Stops left k₁.tick reports k'
      → Stops (suc left) k.tick (report ∷ reports) k'
  goes_on left k k₁ k' report reports here next s = record {
    within_budget = omega (arith, s.within_budget);
    numbered = (here, subst (λ n. Numbered n reports) next s.numbered);
    counted = omega (arith, s.counted);
    finished_iff = s.finished_iff;
    quiescent_iff = s.quiescent_iff;
    exhausted = λ e. ap suc (s.exhausted e);
    has_reason = s.has_reason;
  }

  -- the last test, after the budget
  last_test :
      (k : Kernel P) (o : Option StopReason)
      → k.stop_reason ≡ some max_ticks
      → stop_now k ≡ o
      → Stops 0 k.tick [] (or_stay o k)
  last_test k none r e = ends k r e
  last_test k (some reason) r e = breaks 0 k reason e

  -- one round of the loop
  pub run_loop-goes :
      (left : ℕ) (schedules : List (List ℕ)) (k : Kernel P)
      → stop_now k ≡ none
      → run_loop (suc left) schedules k
        ≡ proceed (step (this_tick schedules) k) (λ report k'.
          proceed
            (run_loop left (later_ticks schedules) k')
            (λ reports k''. (ok (report ∷ reports), k'')))
  unfolding run_loop
  run_loop-goes left schedules k e = rw (e, run_loop)

  pub run_loop-leaves :
      (left : ℕ) (schedules : List (List ℕ)) (k : Kernel P) (reason : StopReason)
      → stop_now k ≡ some reason
      → run_loop (suc left) schedules k ≡ (ok [], stopped reason k)
  unfolding run_loop
  run_loop-leaves left schedules k reason e = rw (e, run_loop)

  out_of_budget :
      (schedules : List (List ℕ)) (k : Kernel P)
      → run_loop 0 schedules k ≡ (ok [], or_stay (stop_now k) k)
  unfolding run_loop
  out_of_budget schedules k = refl

  run_loop-Stops :
      (left : ℕ) (schedules : List (List ℕ)) (k k' : Kernel P) (reports : List TickReport)
      → k.stop_reason ≡ some max_ticks
      → run_loop left schedules k ≡ (ok reports, k')
      → Stops left k.tick reports k'
  run_loop-Stops zero schedules k k' reports r h =
      let (no_reports, same) = ok-path (sym (out_of_budget schedules k) ∙ h) in
      subst₂ (Stops 0 k.tick) no_reports same (last_test k (stop_now k) r refl)
  run_loop-Stops (suc left) schedules k k' reports r h = elim (Option-cases (stop_now k)) [
    | inr (reason, e) ↦
        let (no_reports, same) = ok-path (sym (run_loop-leaves left schedules k reason e) ∙ h) in
        subst₂ (Stops (suc left) k.tick) no_reports same (breaks (suc left) k reason e)
    | inl e ↦
        let (report, k₁, stepped, rest) =
          proceed-eq-ok (step (this_tick schedules) k) _
            (sym (run_loop-goes left schedules k e) ∙ h) in
        let (later, k₂, looped, last) =
          proceed-eq-ok (run_loop left (later_ticks schedules) k₁) _ rest in
        let (both, same) = ok-path last in
        let (_, here) = step-Accounts (this_tick schedules) k k₁ report stepped in
        let (next, kept) = step-Shows (this_tick schedules) k in
        subst₂ (Stops (suc left) k.tick) both same (
          goes_on left k k₁ k₂ report later here (subst (λ x. x.1.tick ≡ k.tick + 1) stepped next) (
            run_loop-Stops left (later_ticks schedules) k₁ k₂ later
              (subst (λ x. x.1.stop_reason ≡ some max_ticks) stepped (kept ∙ r)) looped))
  ]

  -- A run that returns made no more ticks than its budget, reports each of them, with consecutive
  -- numbers, and counts them. It says FINISHED exactly if nobody is alive, QUIESCENT exactly if the
  -- kernel is quiescent, and MAX_TICKS only if it used the whole budget.
  pub run-Stops :
      (ticks : ℕ) (schedules : List (List ℕ)) (k k' : Kernel P) (reports : List TickReport)
      → run ticks schedules k ≡ (ok reports, k')
      → Stops ticks k.tick reports k'
  run-Stops ticks schedules k k' reports h =
      run_loop-Stops ticks schedules (stopped max_ticks k) k' reports refl (unfold run in h)
