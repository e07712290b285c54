-- ===== src/Kernel/Soundness.antt =====
-- The invariant of the kernel: every agent is registered under its own name, once, and an agent that
-- is alive has a mailbox. This file has the operations that change one agent or the bus.
use tito_os.Prelude.{
  String, true, false, List, Option, none, some, ◌≡◌, refl, Bool-cases, inl, inr, arith, eq_iff,
  ◌==◌, subst, ◌∙◌,
}
use tito_os.Errors.{ok}
use tito_os.Dict
use tito_os.Dict.{Dict, Distinct}
use tito_os.Dict.Laws.{keys-modify, Distinct-set, get-modify_inv, get-set_inv}
use tito_os.Message.{Message}
use tito_os.Bus
use tito_os.Bus.{MessageBus, has_mailbox}
use tito_os.Bus.Mailboxes.{at-register, at-unregister, at-send, at-requeue, at-receive_many}
use tito_os.Agent.{Agent, Program, is_alive}
use tito_os.Kernel.{Kernel, register, update_agent, with_parent, unregister_finished_mailbox}

pub record IsSound {P : Program} (k : Kernel P) : Type 0 where
  pub named : (n : String) (a : Agent P.Memory) → Dict.get n k.agents ≡ some a → a.name ≡ n
  pub reachable :
      (n : String) (a : Agent P.Memory)
      → Dict.get n k.agents ≡ some a
      → is_alive a ≡ true
      → has_mailbox n k.bus ≡ true
  pub distinct : Distinct (Dict.keys k.agents)

-- every mailbox of `bus` is one of `bus'`
abbrev pub Grows : MessageBus → MessageBus → Type 0
Grows bus bus' = (n : String) → has_mailbox n bus ≡ true → has_mailbox n bus' ≡ true

pub Grows-register : (name : String) (bus : MessageBus) → Grows bus (Bus.register name bus)
unfolding has_mailbox
Grows-register name bus n h = ground (arith, at-register name n bus)

pub Grows-send : (m : Message) (bus bus' : MessageBus) → Bus.send m bus ≡ ok bus' → Grows bus bus'
unfolding has_mailbox
Grows-send m bus bus' e n h = ground (arith, at-send m n bus e)

pub Grows-requeue :
    (name : String) (ms : List Message) (bus : MessageBus) → Grows bus (Bus.requeue name ms bus)
unfolding has_mailbox
Grows-requeue name ms bus n h = ground (arith, at-requeue name n ms bus)

pub Grows-receive_many :
    (names : List String) (bus : MessageBus) → Grows bus (Bus.receive_many names bus).1
unfolding has_mailbox
Grows-receive_many names bus n h = ground (arith, at-receive_many names n bus)

pub has_mailbox-register :
    (name : String) (bus : MessageBus) → has_mailbox name (Bus.register name bus) ≡ true
unfolding has_mailbox
has_mailbox-register name bus = ground (arith, at-register name name bus, eq_iff name name)

with_parent-name :
    {M : Type 0} (parent : Option String) (a : Agent M) → (with_parent parent a).name ≡ a.name
with_parent-name none a = refl
with_parent-name (some p) a = refl

module _ {P : Program} where
  -- the same agents, and at least the same mailboxes
  pub same_agents-IsSound :
      (k k' : Kernel P) → k'.agents ≡ k.agents → Grows k.bus k'.bus → IsSound k → IsSound k'
  same_agents-IsSound k k' same grows s = record {
    named = λ n a e. s.named n a (rw same at e);
    reachable = λ n a e alive. grows n (s.reachable n a (rw same at e) alive);
    distinct = rw same s.distinct;
  }

  -- a write to an agent that has a mailbox and keeps its name
  pub update_agent-IsSound :
      (me : String) (f : Agent P.Memory → Agent P.Memory) (k : Kernel P)
      → ((a : Agent P.Memory) → (f a).name ≡ a.name)
      → has_mailbox me k.bus ≡ true
      → IsSound k
      → IsSound (update_agent me f k)
  unfolding update_agent
  update_agent-IsSound me f k keeps mail s = record {
    named = λ n a e.
        let (b, was, how) = get-modify_inv me n f k.agents e in
        elim how [
          | inl (_, changed) ↦ rw changed (keeps b ∙ s.named n b was)
          | inr (_, same) ↦ rw same (s.named n b was)
        ];
    reachable = λ n a e alive.
        let (b, was, how) = get-modify_inv me n f k.agents e in
        elim how [
          | inl (same_name, _) ↦ subst (λ x. has_mailbox x k.bus ≡ true) same_name mail
          | inr (_, same) ↦ s.reachable n b was (rw same at alive)
        ];
    distinct = rw keys-modify s.distinct;
  }

  registered :
      (a : Agent P.Memory) (parent : Option String) (k k' : Kernel P)
      → register a parent k ≡ ok k'
      → k' ≡ record k {
        agents = Dict.set a.name (with_parent parent a) k.agents;
        bus = Bus.register a.name k.bus;
      }
  unfolding register
  registered a parent k k' e = ground arith

  -- Registering an agent under a new name keeps the invariant.
  pub register-IsSound :
      (a : Agent P.Memory) (parent : Option String) (k k' : Kernel P)
      → register a parent k ≡ ok k'
      → IsSound k
      → IsSound k'
  register-IsSound a parent k k' e s = rw (registered a parent k k' e) (record {
    named = λ n b found. elim (get-set_inv a.name n (with_parent parent a) k.agents found) [
      | inl (same_name, new) ↦ rw new (with_parent-name parent a ∙ same_name)
      | inr (_, old) ↦ s.named n b old
    ];
    reachable = λ n b found alive.
        elim (get-set_inv a.name n (with_parent parent a) k.agents found) [
          | inl (same_name, _) ↦
              subst (λ x. has_mailbox x (Bus.register a.name k.bus) ≡ true) same_name
                (has_mailbox-register a.name k.bus)
          | inr (_, old) ↦ Grows-register a.name k.bus n (s.reachable n b old alive)
        ];
    distinct = Distinct-set a.name (with_parent parent a) k.agents s.distinct;
  })

  -- Dropping the mailbox of an agent that has finished keeps the invariant.
  pub unregister_finished_mailbox-IsSound :
      (name : String) (k : Kernel P) → IsSound k → IsSound (unregister_finished_mailbox name k)
  unregister_finished_mailbox-IsSound name k s = split (Dict.get name k.agents) refl
    where
      dropped :
          (a : Agent P.Memory)
          → Dict.get name k.agents ≡ some a
          → is_alive a ≡ false
          → IsSound (record k { bus = Bus.unregister name k.bus })
      dropped a found over = record {
        named = s.named;
        reachable = λ n b e alive. elim (Bool-cases (name == n)) [
          | inl same ↦ absurd (unfold has_mailbox in ground (arith, eq_iff name n))
          | inr other ↦
              unfold has_mailbox in
              ground (arith, at-unregister name n k.bus, s.reachable n b e alive)
        ];
        distinct = s.distinct;
      }

      split :
          (o : Option (Agent P.Memory))
          → Dict.get name k.agents ≡ o
          → IsSound (unregister_finished_mailbox name k)
      split none e = unfold unregister_finished_mailbox in rw (e, unregister_finished_mailbox) s
      split (some a) e =
          unfold unregister_finished_mailbox in
          elim (Bool-cases (is_alive a)) [
            | inl lives ↦ rw (e, unregister_finished_mailbox, lives) s
            | inr over ↦ rw (e, unregister_finished_mailbox, over) (dropped a e over)
          ]

  pub register-Grows :
      (a : Agent P.Memory) (parent : Option String) (k k' : Kernel P)
      → register a parent k ≡ ok k'
      → Grows k.bus k'.bus
  register-Grows a parent k k' e = rw (registered a parent k k' e) (Grows-register a.name k.bus)
