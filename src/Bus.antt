-- ===== src/Bus.antt =====
-- titoos/bus.py: `MessageBus`. A mailbox is a list, its oldest message first; the lock makes each
-- operation one step, so an operation is a function on the bus.
pub mod Mailboxes
pub mod Delivery
pub mod Draining
mod Tests
use tito_os.Prelude.{
  ℕ, String, Bool, true, false, List, [], ◌∷◌, ◌++◌, map, Option, none, some, not, ◌||◌, ◌==◌,
  if◌then◌else◌, is_empty, length,
}
use tito_os.Errors.{Result, ok, err, Error, unknown_recipient, ◌>>=◌}
use tito_os.Dict
use tito_os.Dict.{Dict}
use tito_os.Message.{Value, Message, is_broadcast, broadcast_name}

pub record MessageBus : Type 0 where
  pub mailboxes : Dict (List Message)

abbrev pub empty : MessageBus
empty = record { mailboxes = [] }

-- `self._mailboxes.get(name, ())`
unfoldable pub mailbox : String → MessageBus → List Message
mailbox name bus = elim (Dict.get name bus.mailboxes) [ none ↦ [] | some box ↦ box ]

unfoldable pub has_mailbox : String → MessageBus → Bool
has_mailbox name bus = Dict.contains name bus.mailboxes

-- Reading a key of the `defaultdict` creates it.
unfoldable pub register : String → MessageBus → MessageBus
register name bus =
    if Dict.contains name bus.mailboxes
    then bus
    else record { mailboxes = Dict.set name [] bus.mailboxes }

unfoldable pub unregister : String → MessageBus → MessageBus
unregister name bus = record { mailboxes = Dict.pop name bus.mailboxes }

-- The loop of `send` over all mailboxes.
unfoldable pub deliver_all : Message → Dict (List Message) → Dict (List Message)
deliver_all m [] = []
deliver_all m ((name, box) ∷ boxes) =
    (name, if not (name == m.sender) then box ++ m ∷ [] else box) ∷ deliver_all m boxes

unfoldable pub send : Message → MessageBus → Result MessageBus
unfolding is_broadcast
send m bus =
    if is_broadcast m
    then ok (record { mailboxes = deliver_all m bus.mailboxes })
    else if not (Dict.contains m.to bus.mailboxes)
    then err (unknown_recipient m.to)
    else ok (record { mailboxes = Dict.modify m.to (λ box. box ++ m ∷ []) bus.mailboxes })

unfoldable pub post :
    String → String → Value → Dict Value → MessageBus → Result (Message × MessageBus)
post sender to payload metadata bus =
    let m : Message = record { sender = sender; to = to; payload = payload; metadata = metadata } in
    send m bus >>= λ bus'. ok (m, bus')

unfoldable pub broadcast : String → Value → Dict Value → MessageBus → Result (Message × MessageBus)
broadcast sender payload metadata bus = post sender broadcast_name payload metadata bus

-- The messages, and the bus with the mailbox cleared.
unfoldable pub receive : String → MessageBus → List Message × MessageBus
unfolding mailbox
receive name bus =
    if is_empty (mailbox name bus)
    then ([], bus)
    else (mailbox name bus, record { mailboxes = Dict.modify name (λ _. []) bus.mailboxes })

unfoldable pub pending : String → MessageBus → ℕ
unfolding mailbox
pending name bus = length (mailbox name bus)

-- The loop of `receive_many`, with `drained` built from the front.
unfoldable pub receive_many : List String → MessageBus → List (List Message) × MessageBus
unfolding mailbox
receive_many [] bus = ([], bus)
receive_many (name ∷ names) bus =
    let box = mailbox name bus in
    let cleared : MessageBus =
      if is_empty box
      then bus
      else record { mailboxes = Dict.modify name (λ _. []) bus.mailboxes } in
    let (drained, bus') = receive_many names cleared in (box ∷ drained, bus')

unfoldable pub any_pending : List String → MessageBus → Bool
unfolding mailbox
any_pending [] bus = false
any_pending (name ∷ names) bus = not (is_empty (mailbox name bus)) || any_pending names bus

-- `deque.extendleft`: each element in turn goes to the front.
unfoldable pub extend_left : List Message → List Message → List Message
extend_left [] box = box
extend_left (m ∷ ms) box = extend_left ms (m ∷ box)

unfoldable pub reversed : List Message → List Message
reversed [] = []
reversed (m ∷ ms) = reversed ms ++ m ∷ []

unfoldable pub requeue : String → List Message → MessageBus → MessageBus
requeue name messages bus =
    if is_empty messages
    then bus
    else record { mailboxes = Dict.modify name (extend_left (reversed messages)) bus.mailboxes }

unfoldable pub dump : MessageBus → Dict (List Message)
dump bus = bus.mailboxes

-- The loop of `load` over the new mailboxes.
unfoldable pub load_all : Dict (List Message) → Dict (List Message) → Dict (List Message)
load_all [] boxes = boxes
load_all ((name, messages) ∷ rest) boxes = load_all rest (Dict.set name messages boxes)

unfoldable pub load : Dict (List Message) → MessageBus → MessageBus
unfolding load_all
load mailboxes bus = record { mailboxes = load_all mailboxes [] }

unfoldable pub any_box : List (List Message) → Bool
any_box [] = false
any_box (box ∷ boxes) = not (is_empty box) || any_box boxes

unfoldable pub has_traffic : MessageBus → Bool
unfolding any_box
has_traffic bus = any_box (Dict.values bus.mailboxes)
