-- ===== src/Kernel/Report.antt =====
-- The report of a tick against the agents that were alive when it began.
use mathlib.Core.List.{Perm, perm_middle, Sublist, nil-sublist}
use mathlib.Core.List.Perm
use mathlib.Core.List.Sublist
use tito_os.Prelude.{
  ℕ, zero, suc, ◌+◌, String, Bool, true, false, List, [], ◌∷◌, ◌++◌, map, Option, none, some, ◌≡◌,
  refl, if◌then◌else◌, Bool-cases, inl, inr, arith, ◌&&◌, is_empty, length, not, ltb, ap, ◌∙◌,
  subst,
}
use tito_os.Errors.{Result, ok, err, Error, proceed-eq-ok, ok-path}
use tito_os.Message.{Message}
use tito_os.Bus
use tito_os.Agent.{Agent, Program, is_waiting}
use tito_os.Kernel.{Kernel, Backend, serial, thread, async, live_snapshot, agent_names, supervise}
use tito_os.Kernel.Tick.{
  Job, Worker, hire, plan, with_outcome, supervise_all, escalate_all, settle, step, drained,
  plan_of, run_tick, TickReport, job_names, collect, interleave, advance_at, reject_async, done_or,
}

length-receive_many :
    (names : List String) (bus : Bus.MessageBus)
    → length (Bus.receive_many names bus).0 ≡ length names
unfolding Bus.receive_many
length-receive_many [] bus = refl
length-receive_many (name ∷ names) bus = ap suc (length-receive_many names _)

module _ {M : Type 0} where
  plan-perm :
      (live : List (Agent M)) (inboxes : List (List Message))
      → length inboxes ≡ length live
      → Perm (job_names (plan live inboxes).0 ++ (plan live inboxes).1) (agent_names live)
  plan-perm [] inboxes h = unfold plan in Perm.refl []
  plan-perm (a ∷ live) [] h = absurd (omega arith)
  plan-perm (a ∷ live) (inbox ∷ inboxes) h = add (plan-perm live inboxes (omega arith))
    where
      add :
          Perm (job_names (plan live inboxes).0 ++ (plan live inboxes).1) (agent_names live)
          → Perm
              (job_names (plan (a ∷ live) (inbox ∷ inboxes)).0
                ++ (plan (a ∷ live) (inbox ∷ inboxes)).1)
              (agent_names (a ∷ live))
      add p =
          unfold plan in
          elim (Bool-cases (is_waiting a.state && is_empty inbox)) [
            | inl skips ↦ rw skips (Perm.trans (perm_middle _ _) (Perm.cons a.name p))
            | inr runs ↦ rw runs (Perm.cons a.name p)
          ]

module _ {P : Program} where
  length-collect :
      (tick : ℕ) (pool : List (Worker P.Memory)) (k : Kernel P)
      → length (collect tick pool k).0 ≡ length pool
  unfolding collect
  length-collect tick [] k = refl
  length-collect tick (w ∷ pool) k = ap suc (length-collect tick pool _)

  length-advance_at :
      (tick i : ℕ) (pool : List (Worker P.Memory)) (k : Kernel P)
      → length (advance_at tick i pool k).0 ≡ length pool
  unfolding advance_at
  length-advance_at tick i [] k = refl
  length-advance_at tick zero (w ∷ pool) k = refl
  length-advance_at tick (suc i) (w ∷ pool) k = ap suc (length-advance_at tick i pool k)

  length-interleave :
      (tick : ℕ) (schedule : List ℕ) (pool : List (Worker P.Memory)) (k : Kernel P)
      → length (interleave tick schedule pool k).0 ≡ length pool
  unfolding interleave
  length-interleave tick [] pool k = refl
  length-interleave tick (i ∷ schedule) pool k =
      length-interleave tick schedule (advance_at tick i pool k).0 _
      ∙ length-advance_at tick i pool k

length-hire : (M : Type 0) (jobs : List Job) → length (map (hire {M = M}) jobs) ≡ length jobs
length-hire M [] = refl
length-hire M (job ∷ jobs) = ap suc (length-hire M jobs)

-- a result, if there is one, has as many outcomes as there are jobs
abbrev Answers : List Job → Result (List Bool) → Type 0
Answers jobs (ok outcomes) = length outcomes ≡ length jobs
Answers jobs (err e) = Unit

module _ {P : Program} where
  done_or-Answers :
      (jobs : List Job) (e : Option Error) (r : List Bool × Kernel P) (k : Kernel P)
      → length r.0 ≡ length jobs
      → Answers jobs (done_or e r k).0
  done_or-Answers jobs none r k h = h
  done_or-Answers jobs (some e) r k h = tt

  length-pool :
      (tick : ℕ) (schedule : List ℕ) (jobs : List Job) (k : Kernel P)
      → let started : List (Worker P.Memory) × Kernel P =
          interleave tick schedule (map hire jobs) k in
        length (collect tick started.0 started.1).0 ≡ length jobs
  length-pool tick schedule jobs k =
      length-collect tick (interleave tick schedule (map hire jobs) k).0 _
      ∙ length-interleave tick schedule (map hire jobs) k
      ∙ length-hire P.Memory jobs

  run_tick-Answers :
      (backend : Backend) (schedule : List ℕ) (tick : ℕ) (jobs : List Job) (k : Kernel P)
      → Answers jobs (run_tick backend schedule tick jobs k).0
  unfolding run_tick
  run_tick-Answers serial schedule tick jobs k =
      done_or-Answers jobs (reject_async jobs k) (collect tick (map hire jobs) k) k
        (length-collect tick (map hire jobs) k ∙ length-hire P.Memory jobs)
  run_tick-Answers (thread n) schedule tick jobs k =
      done_or-Answers jobs (reject_async jobs k) _ k (elim (Bool-cases (ltb (length jobs) 2)) [
        | inl few ↦ rw few (length-collect tick (map hire jobs) k ∙ length-hire P.Memory jobs)
        | inr many ↦ rw many (length-pool tick schedule jobs k)
      ])
  run_tick-Answers async schedule tick jobs k = length-pool tick schedule jobs k

outcomes-perm :
    (jobs : List Job) (outcomes : List Bool)
    → length outcomes ≡ length jobs
    → Perm
        (job_names (with_outcome true jobs outcomes)
          ++ job_names (with_outcome false jobs outcomes))
        (job_names jobs)
unfolding with_outcome
outcomes-perm [] outcomes h = Perm.refl []
outcomes-perm (job ∷ jobs) [] h = absurd (omega arith)
outcomes-perm (job ∷ jobs) (true ∷ outcomes) h =
    Perm.cons job.agent (outcomes-perm jobs outcomes (omega arith))
outcomes-perm (job ∷ jobs) (false ∷ outcomes) h =
    Perm.trans (perm_middle _ _) (Perm.cons job.agent (outcomes-perm jobs outcomes (omega arith)))

outcomes-sublist :
    (wanted : Bool) (jobs : List Job) (outcomes : List Bool)
    → Sublist (job_names (with_outcome wanted jobs outcomes)) (job_names jobs)
unfolding with_outcome
outcomes-sublist wanted [] outcomes = nil-sublist []
outcomes-sublist wanted (job ∷ jobs) [] = nil-sublist _
outcomes-sublist wanted (job ∷ jobs) (outcome ∷ outcomes) =
    elim (Bool-cases (if wanted then outcome else not outcome)) [
      | inl fits ↦ rw fits (Sublist.cons-cons job.agent (outcomes-sublist wanted jobs outcomes))
      | inr other ↦ rw other (Sublist.cons job.agent (outcomes-sublist wanted jobs outcomes))
    ]

plan-sublist :
    {M : Type 0} (live : List (Agent M)) (inboxes : List (List Message))
    → Sublist (job_names (plan live inboxes).0) (agent_names live)
      × Sublist (plan live inboxes).1 (agent_names live)
unfolding plan
plan-sublist [] inboxes = (nil-sublist [], nil-sublist [])
plan-sublist (a ∷ live) [] = (nil-sublist _, nil-sublist _)
plan-sublist (a ∷ live) (inbox ∷ inboxes) =
    let (runs, idles) = plan-sublist live inboxes in
    elim (Bool-cases (is_waiting a.state && is_empty inbox)) [
      | inl skips ↦ rw skips (Sublist.cons a.name runs, Sublist.cons-cons a.name idles)
      | inr goes ↦ rw goes (Sublist.cons-cons a.name runs, Sublist.cons a.name idles)
    ]

-- What the report of a tick says of the agents that were alive, `names`.
pub record Accounts (names : List String) (report : TickReport) : Type 0 where
  pub all_once : Perm ((report.ran ++ report.failed) ++ report.waiting) names
  pub ran_in_order : Sublist report.ran names
  pub failed_in_order : Sublist report.failed names
  pub waiting_in_order : Sublist report.waiting names
  pub restarted_failed : Sublist report.restarted report.failed

length-names : {M : Type 0} (live : List (Agent M)) → length (agent_names live) ≡ length live
length-names [] = refl
length-names (a ∷ live) = ap suc (length-names live)

module _ {P : Program} where
  supervise_all-sublist :
      (jobs : List Job) (k k' : Kernel P) (names : List String)
      → supervise_all jobs k ≡ (ok names, k')
      → Sublist names (job_names jobs)
  unfolding supervise_all
  supervise_all-sublist [] k k' names h = rw (returned h) (nil-sublist [])
    where
      returned : ◌≡◌ {A = Result (List String) × Kernel P} (ok [], k) (ok names, k') → names ≡ []
      returned e = cc
  supervise_all-sublist (job ∷ jobs) k k' names h =
      let (again, k₁, first, rest) = proceed-eq-ok (supervise job.agent job.inbox k) _ h in
      let (names', k₂, later, last) = proceed-eq-ok (supervise_all jobs k₁) _ rest in
      add again names' (supervise_all-sublist jobs k₁ k₂ names' later) last
    where
      add :
          (again : Bool) (names' : List String) {k₂ : Kernel P}
          → Sublist names' (job_names jobs)
          → ◌≡◌ {A = Result (List String) × Kernel P}
              (ok (if again then job.agent ∷ names' else names'), k₂)
              (ok names, k')
          → Sublist names (job_names (job ∷ jobs))
      add true names' p e =
          subst (λ l. Sublist l (job_names (job ∷ jobs))) (ok-path e).0
            (Sublist.cons-cons job.agent p)
      add false names' p e =
          subst (λ l. Sublist l (job_names (job ∷ jobs))) (ok-path e).0 (Sublist.cons job.agent p)

  settle-Accounts :
      (tick : ℕ) (jobs : List Job) (idle names : List String) (outcomes : List Bool)
      (k k' : Kernel P) (report : TickReport)
      → Perm (job_names jobs ++ idle) names
      → Sublist (job_names jobs) names × Sublist idle names
      → length outcomes ≡ length jobs
      → settle tick jobs idle outcomes k ≡ (ok report, k')
      → Accounts names report × (report.tick ≡ tick)
  unfolding settle
  settle-Accounts tick jobs idle names outcomes k k' report p (runs, idles) counted h =
      let casualties = with_outcome false jobs outcomes in
      let (restarted, k₁, supervised, rest) = proceed-eq-ok (supervise_all casualties k) _ h in
      let (_, k₂, escalated, last) = proceed-eq-ok (escalate_all casualties k₁) _ rest in
      subst (λ r. Accounts names r × (r.tick ≡ tick)) (ok-path last).0
        (
          record {
            all_once = Perm.trans (Perm.append_right idle (outcomes-perm jobs outcomes counted)) p;
            ran_in_order = Sublist.trans (outcomes-sublist true jobs outcomes) runs;
            failed_in_order = Sublist.trans (outcomes-sublist false jobs outcomes) runs;
            waiting_in_order = idles;
            restarted_failed = supervise_all-sublist casualties k k₁ restarted supervised;
          },
          refl,
        )

  -- Where a tick returns, its report counts every agent that was alive at its start exactly once, as
  -- run, failed or waiting, each group in registration order; only failed agents are restarted, and
  -- the tick is the next one.
  pub step-Accounts :
      (schedule : List ℕ) (k k' : Kernel P) (report : TickReport)
      → step schedule k ≡ (ok report, k')
      → Accounts (agent_names (live_snapshot k)) report × (report.tick ≡ k.tick + 1)
  unfolding step
  step-Accounts schedule k k' report h =
      let start = drained k in
      let live = live_snapshot k in
      let inboxes = (Bus.receive_many (agent_names live) k.bus).0 in
      let (jobs, idle) = plan_of k in
      let counted : length inboxes ≡ length live =
        length-receive_many (agent_names live) k.bus ∙ length-names live in
      let (outcomes, k₁, ran, rest) =
        proceed-eq-ok (run_tick start.backend schedule start.tick jobs start) _ h in
      settle-Accounts start.tick jobs idle (agent_names live) outcomes k₁ k' report
        (plan-perm live inboxes counted) (plan-sublist live inboxes)
        (subst (Answers jobs) (ap (λ r. r.0) ran)
          (run_tick-Answers start.backend schedule start.tick jobs start))
        rest
