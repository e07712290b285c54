-- ===== src/Bus/Tests.antt =====
-- The bus on small inputs, and each theorem at a concrete one.
use tito_os.Prelude.{String, [], ◌∷◌, map, ◌≡◌, refl, if◌then◌else◌, elem}
use tito_os.Errors.{ok, err, unknown_recipient}
use tito_os.Dict
use tito_os.Dict.Laws.{map_some}
use tito_os.Message.{null, Message, is_broadcast}
use tito_os.Bus.{MessageBus, mailbox, send, deliver_all, receive_many}
use tito_os.Bus.Mailboxes.{at}
use tito_os.Bus.Delivery.{Delivered, send_lem}
use tito_os.Bus.Draining.{receive_each, receive_many-eq-receive_each, receive_many_lem}

abbrev note : String → String → Message
note sender to = record { sender = sender; to = to; payload = null; metadata = [] }

abbrev three : MessageBus
three = record { mailboxes = ("a", []) ∷ ("b", note "x" "b" ∷ []) ∷ ("c", []) ∷ [] }

send_broadcast :
    send (note "a" "*") three
    ≡ ok (record {
      mailboxes =
          ("a", []) ∷ ("b", note "x" "b" ∷ note "a" "*" ∷ []) ∷ ("c", note "a" "*" ∷ []) ∷ [];
    })
unfolding send is_broadcast deliver_all
send_broadcast = refl

send_unknown : send (note "a" "d") three ≡ err (unknown_recipient "d")
unfolding send is_broadcast Dict.get
send_unknown = refl

send_lem_example : Delivered (note "a" "b") three (send (note "a" "b") three)
send_lem_example = send_lem (note "a" "b") three

receive_many-eq-receive_each_example :
    receive_many ("b" ∷ "a" ∷ "b" ∷ []) three ≡ receive_each ("b" ∷ "a" ∷ "b" ∷ []) three
receive_many-eq-receive_each_example = receive_many-eq-receive_each ("b" ∷ "a" ∷ "b" ∷ []) three

receive_many_lem_example :
    ((receive_many ("b" ∷ "a" ∷ []) three).0 ≡ map (λ j. mailbox j three) ("b" ∷ "a" ∷ []))
    × ((j : String)
        → at j (receive_many ("b" ∷ "a" ∷ []) three).1
          ≡ (if elem j ("b" ∷ "a" ∷ []) then map_some (λ _. []) (at j three) else at j three))
receive_many_lem_example = receive_many_lem ("b" ∷ "a" ∷ []) three (refl, (refl, tt))
