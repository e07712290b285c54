-- ===== src/Bus/Delivery.antt =====
-- Sending: who gets a message, and what a mailbox holds when messages come back to it.
use tito_os.Prelude.{
  String, true, false, List, ◌++◌, ◌||◌, ◌==◌, if◌then◌else◌, ◌≡◌, refl, ◌∙◌, arith, eq_iff,
}
use tito_os.Errors.{Result, ok, err, unknown_recipient}
use tito_os.Dict.Laws.{map_some}
use tito_os.Message.{Message, is_broadcast}
use tito_os.Bus.{MessageBus, mailbox, has_mailbox, send, receive, requeue}
use tito_os.Bus.Mailboxes.{at, reaches, append_to, at-send, at-requeue, receive-eq-mailbox}

-- What `send` promises of its result.
abbrev pub Delivered : Message → MessageBus → Result MessageBus → Type 0
Delivered m bus (ok bus') =
    ((is_broadcast m || has_mailbox m.to bus) ≡ true)
    × ((j : String)
        → at j bus' ≡ (if reaches m j then map_some (append_to m) (at j bus) else at j bus))
Delivered m bus (err e) =
    (is_broadcast m ≡ false) × (has_mailbox m.to bus ≡ false) × (e ≡ unknown_recipient m.to)

send_result :
    (m : Message) (bus : MessageBus) (r : Result MessageBus) → send m bus ≡ r → Delivered m bus r
send_result m bus (ok bus') e = (unfold send has_mailbox in ground arith, λ j. at-send m j bus e)
send_result m bus (err x) e = (
  unfold send has_mailbox in ground arith,
  unfold send has_mailbox in ground arith,
  unfold send has_mailbox in ground arith,
)

-- A message that is a broadcast or has a known recipient is sent: it goes to the end of the mailbox
-- of its recipient, or of everyone but its sender, and no other mailbox changes or appears. Any
-- other message raises for its unknown recipient.
pub send_lem : (m : Message) (bus : MessageBus) → Delivered m bus (send m bus)
send_lem m bus = send_result m bus (send m bus) refl

-- Messages that are put back into a mailbox stand before all that is pending there, in their order:
-- the next `receive` returns them first. The other mailboxes do not change.
pub receive-requeue :
    (name : String) (ms : List Message) (bus : MessageBus)
    → has_mailbox name bus ≡ true
    → ((receive name (requeue name ms bus)).0 ≡ ms ++ mailbox name bus)
      × ((j : String) → (name == j) ≡ false → at j (requeue name ms bus) ≡ at j bus)
receive-requeue name ms bus h = (
  receive-eq-mailbox name (requeue name ms bus)
      ∙ (unfold mailbox has_mailbox in
          ground (arith, at-requeue name name ms bus, eq_iff name name)),
  λ j other. ground (arith, at-requeue name j ms bus),
)
