-- ===== src/Kernel/Supervision.antt =====
-- Supervision: when a failed agent is restarted, with which mail, and when its parent is told.
use tito_os.Prelude.{
  ◌+◌, ◌≤◌, ◌<◌, String, true, false, List, [], ◌∷◌, ◌++◌, Option, none, some, ◌≡◌, refl,
  if◌then◌else◌, inl, inr, arith, ◌==◌, ◌∙◌, eq_iff, ◌⊎◌, subst,
}
use tito_os.Errors.{Result, ok, err, Error, ◌>>=◌}
use tito_os.Dict
use tito_os.Dict.Laws.{map_some, get-modify}
use tito_os.Message.{text, int, Message, broadcast_name, is_broadcast}
use tito_os.Bus
use tito_os.Bus.{MessageBus, has_mailbox, mailbox}
use tito_os.Bus.Mailboxes.{at, append_to, at-send}
use tito_os.Bus.Delivery.{receive-requeue, send_lem, Delivered}
use tito_os.Agent.{Agent, ready, Program, on_failure, never, is_alive}
use tito_os.Kernel.{
  Kernel, update_agent, restart_result, may_restart, with_state, restarted_once, supervise,
  escalate, living_parent, posted, child_failed,
}
use tito_os.Kernel.Soundness.{IsSound}

module _ {M : Type 0} where
  may_restart_lem :
      (a : Agent M)
      → a.restart_policy ≡ on_failure
      → a.restarts < a.max_restarts
      → may_restart a ≡ true
  unfolding may_restart
  may_restart_lem a policy room = ground arith

  may_not_restart :
      (a : Agent M)
      → ((a.restart_policy ≡ never) ⊎ (a.max_restarts ≤ a.restarts))
      → may_restart a ≡ false
  unfolding may_restart
  may_not_restart a (inl policy) = ground arith
  may_not_restart a (inr used) = ground arith

  -- the notice of a child's failure
  abbrev pub notice : Agent M → String → Message
  notice a p = record {
    sender = a.name;
    to = p;
    payload = text child_failed;
    metadata = ("child", text a.name) ∷ ("restarts", int false a.restarts) ∷ [];
  }

module _ {P : Program} where
  -- What supervision leaves of an agent `a` that it restarts, registered as `name`, with `inbox` the
  -- messages of the failed step.
  pub record Restarted (name : String) (inbox : List Message) (a : Agent P.Memory) (k k' : Kernel P)
      : Type 0 where
    pub runs_again :
        Dict.get name k'.agents
        ≡ some (record a {
          state = ready;
          restarts = a.restarts + 1;
          memory = (P.on_restart (record a { restarts = a.restarts + 1 })).0;
        })
    pub mail_back : (Bus.receive name k'.bus).0 ≡ inbox ++ mailbox name k.bus
    pub others_agents :
        (j : String) → (name == j) ≡ false → Dict.get j k'.agents ≡ Dict.get j k.agents
    pub others_mail : (j : String) → (name == j) ≡ false → at j k'.bus ≡ at j k.bus

  supervised :
      (name : String) (inbox : List Message) (a : Agent P.Memory) (k : Kernel P)
      → Dict.get name k.agents ≡ some a
      → may_restart a ≡ true
      → supervise name inbox k
        ≡ restart_result name inbox (P.on_restart (record a { restarts = a.restarts + 1 })) k
  unfolding supervise
  supervised name inbox a k e may = rw (e, supervise, may)

  abbrev again : String → List Message → P.Memory → Kernel P → Kernel P
  again name inbox m k =
      let k' = update_agent name (λ a. with_state ready (restarted_once m a)) k in
      record k' { bus = Bus.requeue name inbox k'.bus }

  calm_restart :
      (name : String) (inbox : List Message) (o : P.Memory × Option Error) (k : Kernel P)
      → o.1 ≡ none
      → restart_result name inbox o k ≡ (ok true, again name inbox o.0 k)
  calm_restart name inbox (m, none) k calm = refl
  calm_restart name inbox (m, some e) k calm = absurd (cc)

  again-Restarted :
      (name : String) (inbox : List Message) (a : Agent P.Memory) (k : Kernel P)
      → Dict.get name k.agents ≡ some a
      → has_mailbox name k.bus ≡ true
      → Restarted name inbox a k
          (again name inbox (P.on_restart (record a { restarts = a.restarts + 1 })).0 k)
  unfolding update_agent
  again-Restarted name inbox a k e mail =
      let m = (P.on_restart (record a { restarts = a.restarts + 1 })).0 in
      let f = λ (b : Agent P.Memory). with_state ready (restarted_once m b) in
      let (first, others) = receive-requeue name inbox k.bus mail in
      record {
        runs_again = ground (arith, get-modify name name f k.agents, eq_iff name name);
        mail_back = first;
        others_agents = λ j other. ground (arith, get-modify name j f k.agents);
        others_mail = others;
      }

  -- An agent with the ON_FAILURE policy and fewer restarts than its maximum, whose `on_restart` does
  -- not raise, is restarted: it is READY, has one restart more and what `on_restart` made of its
  -- attributes; the next `receive` returns the messages of the failed step before all that was
  -- pending. No other agent and no other mailbox changes.
  pub supervise-Restarted :
      (name : String) (inbox : List Message) (a : Agent P.Memory) (k : Kernel P)
      → Dict.get name k.agents ≡ some a
      → a.restart_policy ≡ on_failure
      → a.restarts < a.max_restarts
      → (P.on_restart (record a { restarts = a.restarts + 1 })).1 ≡ none
      → has_mailbox name k.bus ≡ true
      → ((supervise name inbox k).0 ≡ ok true) × Restarted name inbox a k (supervise name inbox k).1
  supervise-Restarted name inbox a k e policy room calm mail =
      rw
        (supervised name inbox a k e (may_restart_lem a policy room)
          ∙ calm_restart name inbox (P.on_restart (record a { restarts = a.restarts + 1 })) k calm)
        (refl, again-Restarted name inbox a k e mail)

  -- An agent whose policy is NEVER, or whose restarts are used up, is left as it is, and so is the
  -- rest of the kernel.
  pub supervise-gives_up :
      (name : String) (inbox : List Message) (a : Agent P.Memory) (k : Kernel P)
      → Dict.get name k.agents ≡ some a
      → ((a.restart_policy ≡ never) ⊎ (a.max_restarts ≤ a.restarts))
      → supervise name inbox k ≡ (ok false, k)
  unfolding supervise
  supervise-gives_up name inbox a k e why = rw (e, supervise, may_not_restart a why)

  escalated :
      (a b : Agent P.Memory) (p : String) (k : Kernel P)
      → a.parent ≡ some p
      → Dict.get p k.agents ≡ some b
      → is_alive b ≡ true
      → escalate a k ≡ posted k (Bus.send (notice a p) k.bus >>= λ bus. ok (notice a p, bus))
  escalated a b p k parent found alive = unfold escalate Bus.post in rw (living, escalate)
    where
      living : living_parent a k ≡ some p
      living = unfold living_parent in rw (parent, living_parent, found, alive)

  -- What the escalation of a failure of `a` leaves, where `p` names a parent that is alive.
  pub record Notified (a : Agent P.Memory) (p : String) (k k' : Kernel P) : Type 0 where
    pub only_mail : k' ≡ record k { bus = k'.bus }
    pub parent_told :
        (j : String)
        → at j k'.bus
          ≡ (if p == j then map_some (append_to (notice a p)) (at j k.bus) else at j k.bus)

  -- In a sound kernel, the escalation to a parent that is registered and alive, under a name other
  -- than `*`, returns: the parent's mailbox gets one message more, which names the child and its
  -- restarts. No other mailbox changes, and nothing else of the kernel: agents, errors, report, tick,
  -- integrations and stop reason are as they were.
  pub escalate-Notified :
      (a b : Agent P.Memory) (p : String) (k : Kernel P)
      → IsSound k
      → a.parent ≡ some p
      → Dict.get p k.agents ≡ some b
      → is_alive b ≡ true
      → (p == broadcast_name) ≡ false
      → ((escalate a k).0 ≡ ok tt) × Notified a p k (escalate a k).1
  escalate-Notified a b p k s parent found alive plain =
      rw (escalated a b p k parent found alive) (split (Bus.send (notice a p) k.bus) refl)
    where
      direct : is_broadcast (notice a p) ≡ false
      direct = unfold is_broadcast in plain

      split :
          (r : Result MessageBus)
          → Bus.send (notice a p) k.bus ≡ r
          → ((posted k (Bus.send (notice a p) k.bus >>= λ bus. ok (notice a p, bus))).0 ≡ ok tt)
            × Notified a p k
                (posted k (Bus.send (notice a p) k.bus >>= λ bus. ok (notice a p, bus))).1
      split (ok bus) e = rw e (
        refl,
        record {
          only_mail = refl;
          parent_told = λ j. ground (arith, at-send (notice a p) j k.bus e, direct);
        },
      )
      split (err x) e =
          let (_, lost, _) = subst (Delivered (notice a p) k.bus) e (send_lem (notice a p) k.bus) in
          absurd (ground (arith, s.reachable p b found alive))

  -- Without a parent that is registered and alive, nothing happens.
  pub escalate-silent :
      (a : Agent P.Memory) (k : Kernel P)
      → ((p : String) (b : Agent P.Memory)
          → a.parent ≡ some p
          → Dict.get p k.agents ≡ some b
          → is_alive b ≡ false)
      → escalate a k ≡ (ok tt, k)
  escalate-silent a k nobody = unfold escalate in rw (orphan a.parent refl, escalate)
    where
      alone :
          (p : String) (o : Option (Agent P.Memory))
          → a.parent ≡ some p
          → Dict.get p k.agents ≡ o
          → living_parent a k ≡ none
      alone p none e f = unfold living_parent in rw (e, living_parent, f)
      alone p (some b) e f = unfold living_parent in rw (e, living_parent, f, nobody p b e f)

      orphan : (o : Option String) → a.parent ≡ o → living_parent a k ≡ none
      orphan none e = unfold living_parent in rw (e, living_parent)
      orphan (some p) e = alone p (Dict.get p k.agents) e refl
