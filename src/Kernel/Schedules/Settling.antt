-- ===== src/Kernel/Schedules/Settling.antt =====
-- What the kernel does behind the barrier, where mailboxes hold the same messages in another order.
use tito_os.Prelude.{
  ℕ, String, Bool, false, List, [], ◌∷◌, Option, none, some, ◌≡◌, refl, sym, ◌∙◌, subst, arith,
  Option-cases, Bool-cases, inl, inr,
}
use tito_os.Errors.{Result, ok, err, Error, Exec, proceed, ◌>>=◌}
use tito_os.Dict
use tito_os.Message.{Message, text}
use tito_os.Bus
use tito_os.Bus.{MessageBus}
use tito_os.Agent.{Agent, Program, is_alive, is_failed, ready}
use tito_os.Kernel.{
  Kernel, update_agent, restart_result, restarted_once, with_state, may_restart, supervise,
  living_parent, posted, escalate, unregister_finished_mailbox, failure_notice, child_failed,
}
use tito_os.Kernel.Tick.{
  Job, supervise_all, escalate_failed, escalate_all, reclaim, settle, with_outcome,
}
use tito_os.Kernel.Schedules.{letter}
use tito_os.Kernel.Schedules.Pieces.{get-update}
use tito_os.Kernel.Schedules.Mail.{requeue-SameMail, unregister-SameMail, send-SameMail}
use tito_os.Kernel.Schedules.Alike.{Agrees, Both}

module _ {P : Program} where
  pub proceed-Both :
      {A B : Type 0} (r s : Result A × Kernel P) (g h : A → Exec (Kernel P) B)
      → Both r s
      → ((a : A) (k k' : Kernel P) → Agrees k k' → Both (g a k) (h a k'))
      → Both (proceed r g) (proceed s h)
  proceed-Both {A} r s g h (same, agree) then_both =
      subst (λ t. Both (proceed r g) (proceed (t, s.1) h)) same (by_result r.0)
    where
      by_result : (t : Result A) → Both (proceed (t, r.1) g) (proceed (t, s.1) h)
      by_result (ok a) = then_both a r.1 s.1 agree
      by_result (err e) = (refl, agree)

  update-Agrees :
      (name : String) (g : Agent P.Memory → Agent P.Memory) (k k' : Kernel P)
      → Agrees k k'
      → Agrees (update_agent name g k) (update_agent name g k')
  unfolding update_agent
  update-Agrees name g k k' h = record {
    agents = λ n. ground (arith, get-update name n g k, get-update name n g k', h.agents n);
    bus = h.bus;
  }

  restart-Both :
      (name : String) (inbox : List Message) (o : P.Memory × Option Error) (k k' : Kernel P)
      → Agrees k k'
      → Both (restart_result name inbox o k) (restart_result name inbox o k')
  restart-Both name inbox (m, some e) k k' h = (refl, update-Agrees name (restarted_once m) k k' h)
  restart-Both name inbox (m, none) k k' h =
      let u = update-Agrees name (λ a. with_state ready (restarted_once m a)) k k' h in
      (refl, record { agents = u.agents; bus = requeue-SameMail name _ _ u.bus inbox })

  supervise-Both :
      (name : String) (inbox : List Message) (k k' : Kernel P)
      → Agrees k k'
      → Both (supervise name inbox k) (supervise name inbox k')
  unfolding supervise
  supervise-Both name inbox k k' h = elim (Option-cases (Dict.get name k.agents)) [
    | inl nobody ↦ rw (supervise, nobody, sym (h.agents name) ∙ nobody) (refl, h)
    | inr (a, found) ↦
        rw (supervise, found, sym (h.agents name) ∙ found)
          (elim (Bool-cases (may_restart a)) [
            | inl may ↦ rw may (restart-Both name inbox _ k k' h)
            | inr stays ↦ rw stays (refl, h)
          ])
  ]

  supervise_all-Both :
      (casualties : List Job) (k k' : Kernel P)
      → Agrees k k'
      → Both (supervise_all casualties k) (supervise_all casualties k')
  unfolding supervise_all
  supervise_all-Both [] k k' h = (refl, h)
  supervise_all-Both (job ∷ casualties) k k' h =
      proceed-Both _ _ _ _ (supervise-Both job.agent job.inbox k k' h) (λ again l l' agree.
        proceed-Both _ _ _ _ (supervise_all-Both casualties l l' agree)
          (λ names m m' agree'. (refl, agree')))

  posted-Both :
      (m : Message) (k k' : Kernel P)
      → Agrees k k'
      → Both
          (posted k (Bus.send m k.bus >>= λ bus. ok (m, bus)))
          (posted k' (Bus.send m k'.bus >>= λ bus. ok (m, bus)))
  posted-Both m k k' h = elim (send-SameMail m k.bus k'.bus h.bus) [
    | inl (e, fails, fails') ↦ rw (fails, fails') (refl, h)
    | inr (c, c', goes, goes', same) ↦
        rw (goes, goes') (refl, record { agents = h.agents; bus = same })
  ]

  living_parent_same :
      (a : Agent P.Memory) (k k' : Kernel P) → Agrees k k' → living_parent a k ≡ living_parent a k'
  unfolding living_parent
  living_parent_same a k k' h = elim (Option-cases a.parent) [
    | inl orphan ↦ rw (living_parent, orphan)
    | inr (p, child) ↦ rw (living_parent, child, h.agents p)
  ]

  escalate-Both :
      (a : Agent P.Memory) (k k' : Kernel P) → Agrees k k' → Both (escalate a k) (escalate a k')
  unfolding escalate Bus.post
  escalate-Both a k k' h = elim (Option-cases (living_parent a k)) [
    | inl nobody ↦ rw (escalate, nobody, sym (living_parent_same a k k' h) ∙ nobody) (refl, h)
    | inr (p, told) ↦
        rw (escalate, told, sym (living_parent_same a k k' h) ∙ told)
          (posted-Both (letter a.name p (text child_failed) (failure_notice a)) k k' h)
  ]

  escalate_failed-Both :
      (name : String) (k k' : Kernel P)
      → Agrees k k'
      → Both (escalate_failed name k) (escalate_failed name k')
  unfolding escalate_failed
  escalate_failed-Both name k k' h = elim (Option-cases (Dict.get name k.agents)) [
    | inl nobody ↦ rw (escalate_failed, nobody, sym (h.agents name) ∙ nobody) (refl, h)
    | inr (a, found) ↦
        rw (escalate_failed, found, sym (h.agents name) ∙ found)
          (elim (Bool-cases (is_failed a.state)) [
            | inl fell ↦ rw fell (escalate-Both a k k' h)
            | inr stands ↦ rw stands (refl, h)
          ])
  ]

  escalate_all-Both :
      (casualties : List Job) (k k' : Kernel P)
      → Agrees k k'
      → Both (escalate_all casualties k) (escalate_all casualties k')
  unfolding escalate_all
  escalate_all-Both [] k k' h = (refl, h)
  escalate_all-Both (job ∷ casualties) k k' h =
      proceed-Both _ _ _ _ (escalate_failed-Both job.agent k k' h)
        (λ done l l' agree. escalate_all-Both casualties l l' agree)

  unregister-Agrees :
      (name : String) (k k' : Kernel P)
      → Agrees k k'
      → Agrees (unregister_finished_mailbox name k) (unregister_finished_mailbox name k')
  unfolding unregister_finished_mailbox
  unregister-Agrees name k k' h = elim (Option-cases (Dict.get name k.agents)) [
    | inl nobody ↦ rw (unregister_finished_mailbox, nobody, sym (h.agents name) ∙ nobody) h
    | inr (a, found) ↦
        rw (unregister_finished_mailbox, found, sym (h.agents name) ∙ found)
          (elim (Bool-cases (is_alive a)) [
            | inl lives ↦ rw lives h
            | inr over ↦
                rw over (record { agents = h.agents; bus = unregister-SameMail name _ _ h.bus })
          ])
  ]

  reclaim-Agrees :
      (jobs : List Job) (k k' : Kernel P) → Agrees k k' → Agrees (reclaim jobs k) (reclaim jobs k')
  unfolding reclaim
  reclaim-Agrees [] k k' h = h
  reclaim-Agrees (job ∷ jobs) k k' h = reclaim-Agrees jobs _ _ (unregister-Agrees job.agent k k' h)

  pub settle-Both :
      (tick : ℕ) (jobs : List Job) (idle : List String) (outcomes : List Bool) (k k' : Kernel P)
      → Agrees k k'
      → Both (settle tick jobs idle outcomes k) (settle tick jobs idle outcomes k')
  unfolding settle
  settle-Both tick jobs idle outcomes k k' h =
      proceed-Both _ _ _ _ (supervise_all-Both (with_outcome false jobs outcomes) k k' h)
        (λ restarted l l' agree.
          proceed-Both _ _ _ _ (escalate_all-Both (with_outcome false jobs outcomes) l l' agree)
            (λ done m m' agree'. (refl, reclaim-Agrees jobs m m' agree')))
