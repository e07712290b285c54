-- ===== src/Kernel/Settles.antt =====
-- A proof rule for the whole tick: what the requests of the steps keep, and what a restart, a notice
-- to a parent and the reclaiming of a mailbox keep.
use tito_os.Prelude.{
  ℕ, ◌+◌, String, Bool, true, false, List, [], ◌∷◌, Option, none, some, ◌≡◌, refl, All, Bool-cases,
  inl, inr,
}
use tito_os.Errors.{Result, ok, err, proceed, ◌>>=◌}
use tito_os.Dict
use tito_os.Message.{text, Message}
use tito_os.Bus
use tito_os.Bus.{MessageBus}
use tito_os.Agent.{Agent, Program, is_failed}
use tito_os.Kernel.{
  Kernel, restart_result, may_restart, posted, living_parent, failure_notice, child_failed,
  unregister_finished_mailbox, supervise, escalate,
}
use tito_os.Kernel.Stable.{Stable, run_tick-keeps}
use tito_os.Kernel.Planning.{All-with_outcome}
use tito_os.Kernel.Tick.{
  Job, with_outcome, supervise_all, escalate_all, escalate_failed, reclaim, settle, step, drained,
  plan_of, run_tick,
}

-- `I` holds up to the reclaiming of the mailboxes, `J` after it.
pub record Settles {P : Program} (I J : Kernel P → Type 0) (Q : String → Type 0) : Type 0 where
  pub restarts :
      (name : String) (inbox : List Message) (a : Agent P.Memory) (k : Kernel P)
      → Dict.get name k.agents ≡ some a
      → may_restart a ≡ true
      → Q name
      → I k
      → I (restart_result name inbox (P.on_restart (record a { restarts = a.restarts + 1 })) k).1
  pub posts :
      (m : Message) (k : Kernel P) (bus : MessageBus)
      → Bus.send m k.bus ≡ ok bus
      → I k
      → I (record k { bus = bus })
  pub weakens : (k : Kernel P) → I k → J k
  pub drops : (name : String) (k : Kernel P) → J k → J (unregister_finished_mailbox name k)

proceed-keeps :
    {P : Program} (I J : Kernel P → Type 0) {A B : Type 0} (r : Result A × Kernel P)
    (f : A → Kernel P → Result B × Kernel P)
    → ((k : Kernel P) → I k → J k)
    → I r.1
    → ((a : A) (k : Kernel P) → I k → J (f a k).1)
    → J (proceed r f).1
proceed-keeps I J (ok a, k) f weak h next = next a k h
proceed-keeps I J (err e, k) f weak h next = weak k h

module _ {P : Program} {I J : Kernel P → Type 0} {Q : String → Type 0} (rule : Settles I J Q) where
  supervise-keeps :
      (name : String) (inbox : List Message) (k : Kernel P)
      → Q name
      → I k
      → I (supervise name inbox k).1
  supervise-keeps name inbox k q h = split (Dict.get name k.agents) refl
    where
      split :
          (o : Option (Agent P.Memory)) → Dict.get name k.agents ≡ o → I (supervise name inbox k).1
      split none e = unfold supervise in rw (e, supervise) h
      split (some a) e = elim (Bool-cases (may_restart a)) [
        | inl may ↦
            unfold supervise in rw (e, supervise, may) (rule.restarts name inbox a k e may q h)
        | inr stays ↦ unfold supervise in rw (e, supervise, stays) h
      ]

  escalate-keeps : (a : Agent P.Memory) (k : Kernel P) → I k → I (escalate a k).1
  escalate-keeps a k h = find (living_parent a k) refl
    where
      notice : String → Message
      notice p = record {
        sender = a.name;
        to = p;
        payload = text child_failed;
        metadata = failure_notice a;
      }

      tell :
          (p : String) (r : Result MessageBus)
          → Bus.send (notice p) k.bus ≡ r
          → I (posted k (Bus.send (notice p) k.bus >>= λ b. ok (notice p, b))).1
      tell p (ok b) e = rw e (rule.posts (notice p) k b e h)
      tell p (err x) e = rw e h

      find : (o : Option String) → living_parent a k ≡ o → I (escalate a k).1
      find none e = unfold escalate in rw (e, escalate) h
      find (some p) e =
          unfold escalate Bus.post in rw (e, escalate) (tell p (Bus.send (notice p) k.bus) refl)

  escalate_failed-keeps : (name : String) (k : Kernel P) → I k → I (escalate_failed name k).1
  escalate_failed-keeps name k h = split (Dict.get name k.agents) refl
    where
      split :
          (o : Option (Agent P.Memory)) → Dict.get name k.agents ≡ o → I (escalate_failed name k).1
      split none e = unfold escalate_failed in rw (e, escalate_failed) h
      split (some a) e = elim (Bool-cases (is_failed a.state)) [
        | inl fails ↦
            unfold escalate_failed in rw (e, escalate_failed, fails) (escalate-keeps a k h)
        | inr fine ↦ unfold escalate_failed in rw (e, escalate_failed, fine) h
      ]

  supervise_all-keeps :
      (jobs : List Job) (k : Kernel P)
      → All (λ job. Q job.agent) jobs
      → I k
      → I (supervise_all jobs k).1
  unfolding supervise_all
  supervise_all-keeps [] k q h = h
  supervise_all-keeps (job ∷ jobs) k q h =
      proceed-keeps I I (supervise job.agent job.inbox k) _ (λ _ i. i)
        (supervise-keeps job.agent job.inbox k q.0 h)
        λ again k' h'.
          proceed-keeps I I (supervise_all jobs k') _ (λ _ i. i)
            (supervise_all-keeps jobs k' q.1 h') (λ names k'' h''. h'')

  escalate_all-keeps : (jobs : List Job) (k : Kernel P) → I k → I (escalate_all jobs k).1
  unfolding escalate_all
  escalate_all-keeps [] k h = h
  escalate_all-keeps (job ∷ jobs) k h =
      proceed-keeps I I (escalate_failed job.agent k) _ (λ _ i. i)
        (escalate_failed-keeps job.agent k h) (λ _ k' h'. escalate_all-keeps jobs k' h')

  reclaim-keeps : (jobs : List Job) (k : Kernel P) → J k → J (reclaim jobs k)
  unfolding reclaim
  reclaim-keeps [] k h = h
  reclaim-keeps (job ∷ jobs) k h =
      reclaim-keeps jobs (unregister_finished_mailbox job.agent k) (rule.drops job.agent k h)

  pub settle-keeps :
      (tick : ℕ) (jobs : List Job) (idle : List String) (outcomes : List Bool) (k : Kernel P)
      → All (λ job. Q job.agent) jobs
      → I k
      → J (settle tick jobs idle outcomes k).1
  unfolding settle
  settle-keeps tick jobs idle outcomes k q h =
      let casualties = with_outcome false jobs outcomes in
      proceed-keeps I J (supervise_all casualties k) _ rule.weakens
        (supervise_all-keeps casualties k
          (All-with_outcome (λ job. Q job.agent) false jobs outcomes q) h)
        λ restarted k' h'.
          proceed-keeps I J (escalate_all casualties k') _ rule.weakens
            (escalate_all-keeps casualties k' h')
            (λ _ k'' h''. reclaim-keeps jobs k'' (rule.weakens k'' h''))

  -- A tick keeps what its parts keep, whether it returns or raises.
  pub step-keeps :
      Stable I Q
      → (schedule : List ℕ) (k : Kernel P) → All (λ job. Q job.agent) (plan_of k).0
      → I (drained k)
      → J (step schedule k).1
  unfolding step
  step-keeps requests schedule k q h =
      let k' = drained k in
      let (jobs, idle) = plan_of k in
      proceed-keeps I J (run_tick k'.backend schedule k'.tick jobs k') _ rule.weakens
        (run_tick-keeps requests k'.backend schedule k'.tick jobs k' q h)
        (λ outcomes k'' h'. settle-keeps k'.tick jobs idle outcomes k'' q h')
