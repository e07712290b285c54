-- ===== src/Kernel/Reloading.antt =====
-- The mailboxes that `Kernel.restore` loads, and what a snapshot of the restored kernel keeps of them.
use tito_os.Prelude.{
  String, true, false, List, [], ◌∷◌, ◌≡◌, refl, ◌∙◌, is_empty, elem, arith, eq_iff,
}
use tito_os.Dict
use tito_os.Dict.{Dict, Distinct}
use tito_os.Dict.Laws.{Distinct-set, Distinct-pop, pop_absent}
use tito_os.Message.{Message}
use tito_os.Bus
use tito_os.Bus.{MessageBus, mailbox}
use tito_os.Bus.Draining.{load_all-append}
use tito_os.Agent.{Agent}
use tito_os.Kernel.Saving.{nonempty, settle_mailbox, settle_mailboxes}

nonempty_absent :
    (j : String) (d : Dict (List Message))
    → elem j (Dict.keys d) ≡ false
    → elem j (Dict.keys (nonempty d)) ≡ false
unfolding nonempty
nonempty_absent j [] h = refl
nonempty_absent j ((name, box) ∷ d) h = ground (arith, nonempty_absent j d)

nonempty-Distinct :
    (d : Dict (List Message)) → Distinct (Dict.keys d) → Distinct (Dict.keys (nonempty d))
unfolding nonempty
nonempty-Distinct [] h = tt
nonempty-Distinct ((name, box) ∷ d) h =
    ground (arith, nonempty_absent name d h.0, nonempty-Distinct d h.1)

nonempty_idem : (d : Dict (List Message)) → nonempty (nonempty d) ≡ nonempty d
unfolding nonempty
nonempty_idem [] = refl
nonempty_idem ((name, box) ∷ d) = ground (arith, nonempty_idem d)

nonempty-set :
    (name : String) (d : Dict (List Message))
    → Dict.contains name d ≡ false
    → nonempty (Dict.set name [] d) ≡ nonempty d
unfolding nonempty Dict.set Dict.get
nonempty-set name [] h = refl
nonempty-set name ((k, box) ∷ d) h = ground (arith, nonempty-set name d)

nonempty-register :
    (name : String) (bus : MessageBus)
    → nonempty (Bus.register name bus).mailboxes ≡ nonempty bus.mailboxes
unfolding Bus.register
nonempty-register name bus = ground (arith, nonempty-set name bus.mailboxes)

nonempty-pop :
    (name : String) (d : Dict (List Message))
    → Distinct (Dict.keys d)
    → is_empty (mailbox name (record { mailboxes = d })) ≡ true
    → nonempty (Dict.pop name d) ≡ nonempty d
unfolding nonempty Dict.pop Dict.get mailbox
nonempty-pop name [] h e = refl
nonempty-pop name ((k, box) ∷ d) h e =
    ground (arith, eq_iff k name, nonempty-pop name d h.1, pop_absent name d)

-- the part of the loop over the agents that a snapshot sees
pub record IsKept (before after : MessageBus) : Type 0 where
  pub distinct : Distinct (Dict.keys after.mailboxes)
  pub same : nonempty after.mailboxes ≡ nonempty before.mailboxes

module _ {M : Type 0} where
  settle_mailbox-IsKept :
      (a : Agent M) (bus : MessageBus)
      → Distinct (Dict.keys bus.mailboxes)
      → IsKept bus (settle_mailbox a bus)
  settle_mailbox-IsKept a bus h = record {
    distinct =
        unfold settle_mailbox Bus.register Bus.unregister in
        ground (arith, Distinct-set a.name [] bus.mailboxes h, Distinct-pop a.name bus.mailboxes h);
    same =
        unfold settle_mailbox Bus.unregister in
        ground (arith, nonempty-register a.name bus, nonempty-pop a.name bus.mailboxes h);
  }

  settle_mailboxes-IsKept :
      (agents : List (Agent M)) (bus : MessageBus)
      → Distinct (Dict.keys bus.mailboxes)
      → IsKept bus (settle_mailboxes agents bus)
  unfolding settle_mailboxes
  settle_mailboxes-IsKept [] bus h = record { distinct = h; same = refl }
  settle_mailboxes-IsKept (a ∷ agents) bus h =
      let first = settle_mailbox-IsKept a bus h in
      let later = settle_mailboxes-IsKept agents (settle_mailbox a bus) first.distinct in
      record { distinct = later.distinct; same = later.same ∙ first.same }

  -- What a snapshot kept of the mailboxes, loaded and settled, is what the next snapshot keeps.
  pub nonempty-reload :
      (d : Dict (List Message)) (agents : List (Agent M)) (bus : MessageBus)
      → Distinct (Dict.keys d)
      → nonempty (settle_mailboxes agents (Bus.load (nonempty d) bus)).mailboxes ≡ nonempty d
  nonempty-reload d agents bus h =
      let kept = nonempty-Distinct d h in
      let loaded = load_all-append (nonempty d) [] kept in
      unfold Bus.load in
      rw loaded (
        (settle_mailboxes-IsKept agents (record { mailboxes = nonempty d }) kept).same
        ∙ nonempty_idem d)
