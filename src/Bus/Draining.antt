-- ===== src/Bus/Draining.antt =====
-- Draining: `receive_many` against `receive`, and the whole table against `dump` and `load`.
use tito_os.Prelude.{
  String, false, List, [], ◌∷◌, ◌++◌, map, ◌==◌, if◌then◌else◌, ◌≡◌, refl, sym, ◌∙◌, ap, arith,
  eq_iff, append_assoc, append-nil, elem,
}
use tito_os.Dict
use tito_os.Dict.{Dict, Distinct}
use tito_os.Dict.Laws.{map_some, set_absent, Distinct-before}
use tito_os.Message.{Message}
use tito_os.Bus.{MessageBus, mailbox, receive, receive_many, any_pending, dump, load, load_all}
use tito_os.Bus.Mailboxes.{at, receive_many-cons, at-receive, at-receive_many, receive-eq-mailbox}

-- A `receive` for each name, one after the other.
pub receive_each : List String → MessageBus → List (List Message) × MessageBus
receive_each [] bus = ([], bus)
receive_each (name ∷ names) bus =
    let (box, bus') = receive name bus in
    let (boxes, bus'') = receive_each names bus' in (box ∷ boxes, bus'')

-- Draining a batch of names is the same as a `receive` of each, in order, also where a name stands
-- twice.
pub receive_many-eq-receive_each :
    (names : List String) (bus : MessageBus) → receive_many names bus ≡ receive_each names bus
receive_many-eq-receive_each [] bus = unfold receive_many receive_each in refl
receive_many-eq-receive_each (name ∷ names) bus =
    receive_many-cons name names bus
    ∙ next (receive_many-eq-receive_each names (receive name bus).1)
  where
    next :
        {r : List (List Message) × MessageBus}
        → r ≡ receive_each names (receive name bus).1
        → ◌≡◌ {A = List (List Message) × MessageBus}
            ((receive name bus).0 ∷ r.0, r.1)
            (receive_each (name ∷ names) bus)
    next e = unfold receive_each in rw e

mailbox-receive_ne :
    (name j : String) (bus : MessageBus)
    → (name == j) ≡ false
    → mailbox j (receive name bus).1 ≡ mailbox j bus
unfolding mailbox
mailbox-receive_ne name j bus h = ground (arith, at-receive name j bus)

map-mailbox-receive :
    (name : String) (names : List String) (bus : MessageBus)
    → elem name names ≡ false
    → map (λ j. mailbox j (receive name bus).1) names ≡ map (λ j. mailbox j bus) names
map-mailbox-receive name [] bus h = refl
map-mailbox-receive name (j ∷ names) bus h = ground (
  arith,
  mailbox-receive_ne name j bus,
  eq_iff name j,
  eq_iff j name,
  map-mailbox-receive name names bus,
)

pub drained-receive_many :
    (names : List String) (bus : MessageBus)
    → Distinct names
    → (receive_many names bus).0 ≡ map (λ j. mailbox j bus) names
drained-receive_many [] bus h = unfold receive_many in refl
drained-receive_many (name ∷ names) bus h = rw (receive_many-cons name names bus) (
    ground (
      arith,
      receive-eq-mailbox name bus,
      map-mailbox-receive name names bus h.0,
      drained-receive_many names (receive name bus).1 h.1,
    ))

-- Draining distinct names returns what each mailbox held, in the order of the names; it leaves
-- those mailboxes empty and the others as they were, and creates none.
pub receive_many_lem :
    (names : List String) (bus : MessageBus)
    → Distinct names
    → ((receive_many names bus).0 ≡ map (λ j. mailbox j bus) names)
      × ((j : String)
          → at j (receive_many names bus).1
            ≡ (if elem j names then map_some (λ _. []) (at j bus) else at j bus))
receive_many_lem names bus h = (drained-receive_many names bus h, λ j. at-receive_many names j bus)

receive_idle :
    (name : String) (bus : MessageBus) → mailbox name bus ≡ [] → receive name bus ≡ ([], bus)
unfolding receive
receive_idle name bus e = rw e

any_pending-cons :
    (name : String) (names : List String) (bus : MessageBus)
    → any_pending (name ∷ names) bus ≡ false
    → (mailbox name bus ≡ []) × (any_pending names bus ≡ false)
any_pending-cons name names bus h = split (mailbox name bus) refl
  where
    split :
        (box : List Message)
        → mailbox name bus ≡ box
        → (mailbox name bus ≡ []) × (any_pending names bus ≡ false)
    split [] e = (e, unfold any_pending in ground arith)
    split (m ∷ ms) e = absurd (unfold any_pending in ground arith)

-- Where nothing is pending, draining returns empty lists and does not change the bus.
pub receive_many_idle :
    (names : List String) (bus : MessageBus)
    → any_pending names bus ≡ false
    → receive_many names bus ≡ (map (λ _. []) names, bus)
receive_many_idle [] bus h = unfold receive_many in refl
receive_many_idle (name ∷ names) bus h =
    let (none_here, none_later) = any_pending-cons name names bus h in
    rw (receive_many-cons name names bus)
      (ground (arith, receive_idle name bus none_here, receive_many_idle names bus none_later))

pub load_all-append :
    (d boxes : Dict (List Message))
    → Distinct (Dict.keys (boxes ++ d))
    → load_all d boxes ≡ boxes ++ d
load_all-append [] boxes h = unfold load_all in sym (append-nil boxes)
load_all-append ((name, box) ∷ d) boxes h =
    step (load_all-append d (boxes ++ (name, box) ∷ []) (rw append_assoc h))
  where
    step :
        load_all d (boxes ++ (name, box) ∷ []) ≡ (boxes ++ (name, box) ∷ []) ++ d
        → load_all ((name, box) ∷ d) boxes ≡ boxes ++ (name, box) ∷ d
    step e =
        unfold load_all in
        rw (set_absent name box boxes (Distinct-before boxes d name box h))
          (e ∙ append_assoc boxes ((name, box) ∷ []) d)

-- Loading what `dump` returned rebuilds the bus, whatever was in the bus that loads it.
pub load-dump :
    (bus other : MessageBus) → Distinct (Dict.keys bus.mailboxes) → load (dump bus) other ≡ bus
load-dump bus other h =
    unfold load dump in ap (λ d. record { mailboxes = d }) (load_all-append bus.mailboxes [] h)
