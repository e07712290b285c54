-- ===== src/Bus/Mailboxes.antt =====
-- What each operation of the bus does to every mailbox, as a read of the mailbox table.
use tito_os.Prelude.{
  String, Bool, List, [], ◌∷◌, ◌++◌, Option, none, some, not, ◌==◌, if◌then◌else◌, ◌≡◌, refl,
  fun_ext, ◌∙◌, arith, eq_iff, elem,
}
use tito_os.Errors.{ok}
use tito_os.Dict
use tito_os.Dict.{Dict}
use tito_os.Dict.Laws.{map_some, get-set, get-pop, get-modify}
use tito_os.Message.{Message, is_broadcast}
use tito_os.Bus.{
  MessageBus, mailbox, register, unregister, send, deliver_all, receive, receive_many, requeue,
  extend_left, reversed,
}

-- `m` is for the mailbox `name`: every one but the sender's for a broadcast, else the recipient's.
abbrev pub reaches : Message → String → Bool
reaches m name = if is_broadcast m then not (name == m.sender) else m.to == name

abbrev pub append_to : Message → List Message → List Message
append_to m box = box ++ m ∷ []

-- the content of the mailbox `name`, if there is one
abbrev pub at : String → MessageBus → Option (List Message)
at name bus = Dict.get name bus.mailboxes

pub at-register :
    (name j : String) (bus : MessageBus)
    → at j (register name bus) ≡ (if name == j then some (mailbox name bus) else at j bus)
unfolding register mailbox
at-register name j bus = ground (arith, get-set name j [] bus.mailboxes, eq_iff name j)

pub at-unregister :
    (name j : String) (bus : MessageBus)
    → at j (unregister name bus) ≡ (if name == j then none else at j bus)
unfolding unregister
at-unregister name j bus = get-pop name j bus.mailboxes

pub get-deliver_all :
    (m : Message) (j : String) (boxes : Dict (List Message))
    → Dict.get j (deliver_all m boxes) ≡ (
        if not (j == m.sender) then map_some (append_to m) (Dict.get j boxes) else Dict.get j boxes)
unfolding deliver_all Dict.get
get-deliver_all m j [] = ground arith
get-deliver_all m j ((name, box) ∷ boxes) =
    ground
      (arith, eq_iff name j, eq_iff j m.sender, eq_iff name m.sender, get-deliver_all m j boxes)

pub at-send :
    (m : Message) (j : String) (bus : MessageBus) {bus' : MessageBus}
    → send m bus ≡ ok bus'
    → at j bus' ≡ (if reaches m j then map_some (append_to m) (at j bus) else at j bus)
unfolding send
at-send m j bus h =
    ground (arith, get-deliver_all m j bus.mailboxes, get-modify m.to j (append_to m) bus.mailboxes)

pub at-receive :
    (name j : String) (bus : MessageBus)
    → at j (receive name bus).1 ≡ (if name == j then map_some (λ _. []) (at j bus) else at j bus)
unfolding receive mailbox
at-receive name j bus = ground (arith, eq_iff name j, get-modify name j (λ _. []) bus.mailboxes)

pub receive-eq-mailbox :
    (name : String) (bus : MessageBus) → (receive name bus).0 ≡ mailbox name bus
unfolding receive mailbox
receive-eq-mailbox name bus = ground arith

extend_left-append :
    (xs ys box : List Message) → extend_left (xs ++ ys) box ≡ extend_left ys (extend_left xs box)
unfolding extend_left
extend_left-append [] ys box = refl
extend_left-append (x ∷ xs) ys box = extend_left-append xs ys (x ∷ box)

pub extend_left-reversed : (ms box : List Message) → extend_left (reversed ms) box ≡ ms ++ box
unfolding reversed
extend_left-reversed [] box = unfold extend_left in refl
extend_left-reversed (m ∷ ms) box =
    extend_left-append (reversed ms) (m ∷ []) box ∙ front (extend_left-reversed ms box)
  where
    front :
        {rest : List Message}
        → extend_left (reversed ms) box ≡ rest
        → extend_left (m ∷ []) (extend_left (reversed ms) box) ≡ m ∷ rest
    front e = unfold extend_left in rw e

get-put_back :
    (name j : String) (ms : List Message) (boxes : Dict (List Message))
    → Dict.get j (Dict.modify name (extend_left (reversed ms)) boxes)
      ≡ (if name == j then map_some (λ box. ms ++ box) (Dict.get j boxes) else Dict.get j boxes)
get-put_back name j ms boxes =
    rw (fun_ext (extend_left-reversed ms)) (get-modify name j (λ box. ms ++ box) boxes)

pub at-requeue :
    (name j : String) (ms : List Message) (bus : MessageBus)
    → at j (requeue name ms bus)
      ≡ (if name == j then map_some (λ box. ms ++ box) (at j bus) else at j bus)
unfolding requeue
at-requeue name j [] bus = ground arith
at-requeue name j (m ∷ ms) bus = get-put_back name j (m ∷ ms) bus.mailboxes

-- One round of the loop of `receive_many` is a `receive`.
pub receive_many-cons :
    (name : String) (names : List String) (bus : MessageBus)
    → receive_many (name ∷ names) bus ≡ (
      (receive name bus).0 ∷ (receive_many names (receive name bus).1).0,
      (receive_many names (receive name bus).1).1,
    )
receive_many-cons name names bus = split (mailbox name bus) refl
  where
    split :
        (box : List Message)
        → mailbox name bus ≡ box
        → receive_many (name ∷ names) bus ≡ (
          (receive name bus).0 ∷ (receive_many names (receive name bus).1).0,
          (receive_many names (receive name bus).1).1,
        )
    split [] e = unfold receive_many receive in rw e
    split (m ∷ ms) e = unfold receive_many receive in rw e

-- The mailboxes of `names` are emptied, no other is touched.
pub at-receive_many :
    (names : List String) (j : String) (bus : MessageBus)
    → at j (receive_many names bus).1
      ≡ (if elem j names then map_some (λ _. []) (at j bus) else at j bus)
at-receive_many [] j bus = unfold receive_many in refl
at-receive_many (name ∷ names) j bus =
    rw (receive_many-cons name names bus)
      (ground (arith, at-receive_many names j (receive name bus).1, at-receive name j bus))
