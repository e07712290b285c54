-- ===== src/Kernel/Schedules/Mail.antt =====
-- Two buses that hold the same messages, in any order, under the operations of the barrier.
use tito_os.Prelude.{
  ℕ, ◌+◌, String, Bool, true, false, List, ◌++◌, Option, none, some, ◌==◌, if◌then◌else◌, ◌≡◌, ◌⊎◌,
  refl, ap, sym, ◌∙◌, subst, arith, is_some, inl, inr, ◌&&◌,
}
use tito_os.Errors.{ok, err, Error, unknown_recipient}
use tito_os.Dict.Laws.{map_some}
use tito_os.Message.{Message}
use tito_os.Bus
use tito_os.Bus.{MessageBus, mailbox, has_mailbox}
use tito_os.Bus.Mailboxes.{at, at-requeue, at-unregister}
use tito_os.Bus.Delivery.{Delivered, send_lem}
use tito_os.Kernel.Schedules.{weight, is_sent}
use tito_os.Kernel.Schedules.Requests.{box_of, mailbox-at, weight-append, send-Sent, Has, Sent}

-- two buses with the same mailboxes, and the same messages in each
pub record SameMail (b b' : MessageBus) : Type 0 where
  pub boxes : (n : String) → has_mailbox n b ≡ has_mailbox n b'
  pub mail : (f : Message → ℕ) (n : String) → weight f (mailbox n b) ≡ weight f (mailbox n b')

requeued_weight :
    (f : Message → ℕ) (here : Bool) (ms : List Message) (o : Option (List Message))
    → weight f (box_of (if here then map_some (λ box. ms ++ box) o else o))
      ≡ (if here && is_some o then weight f ms else 0) + weight f (box_of o)
requeued_weight f true ms none = omega arith
requeued_weight f true ms (some box) = weight-append f ms box
requeued_weight f false ms o = omega arith

requeued_box :
    (here : Bool) (ms : List Message) (o : Option (List Message))
    → is_some (if here then map_some (λ box. ms ++ box) o else o) ≡ is_some o
requeued_box true ms none = refl
requeued_box true ms (some box) = refl
requeued_box false ms o = refl

weight-requeue :
    (f : Message → ℕ) (name n : String) (ms : List Message) (bus : MessageBus)
    → weight f (mailbox n (Bus.requeue name ms bus))
      ≡ (if (name == n) && has_mailbox n bus then weight f ms else 0) + weight f (mailbox n bus)
unfolding has_mailbox
weight-requeue f name n ms bus =
    rw (mailbox-at n (Bus.requeue name ms bus), mailbox-at n bus, at-requeue name n ms bus)
      (requeued_weight f (name == n) ms (at n bus))

has-requeue :
    (name n : String) (ms : List Message) (bus : MessageBus)
    → has_mailbox n (Bus.requeue name ms bus) ≡ has_mailbox n bus
unfolding has_mailbox
has-requeue name n ms bus =
    ap is_some (at-requeue name n ms bus) ∙ requeued_box (name == n) ms (at n bus)

weight-unregister :
    (f : Message → ℕ) (name n : String) (bus : MessageBus)
    → weight f (mailbox n (Bus.unregister name bus))
      ≡ (if name == n then 0 else weight f (mailbox n bus))
weight-unregister f name n bus =
    rw (mailbox-at n (Bus.unregister name bus), mailbox-at n bus, at-unregister name n bus)
      (ground arith)

has-unregister :
    (name n : String) (bus : MessageBus)
    → has_mailbox n (Bus.unregister name bus) ≡ (if name == n then false else has_mailbox n bus)
unfolding has_mailbox
has-unregister name n bus = rw (at-unregister name n bus) (ground arith)

module _ (name : String) (b b' : MessageBus) (h : SameMail b b') where
  pub requeue-SameMail :
      (ms : List Message) → SameMail (Bus.requeue name ms b) (Bus.requeue name ms b')
  requeue-SameMail ms = record {
    boxes = λ n. has-requeue name n ms b ∙ (h.boxes n ∙ sym (has-requeue name n ms b'));
    mail = λ f n.
        ground (
          arith,
          weight-requeue f name n ms b,
          weight-requeue f name n ms b',
          h.boxes n,
          h.mail f n,
        );
  }

  pub unregister-SameMail : SameMail (Bus.unregister name b) (Bus.unregister name b')
  unregister-SameMail = record {
    boxes = λ n. ground (arith, has-unregister name n b, has-unregister name n b', h.boxes n);
    mail = λ f n.
        ground (arith, weight-unregister f name n b, weight-unregister f name n b', h.mail f n);
  }

Sent-send :
    (has : String → Bool) (f : Message → ℕ) (x : String) (m : Message) (b c : MessageBus)
    → Has has b
    → Bus.send m b ≡ ok c
    → Sent has f x m b c
Sent-send has f x m b c here e =
    elim (send-Sent has f x m b here (ok c) (subst (Delivered m b) e (send_lem m b))) [
      | inl (fails, _) ↦ absurd (cc)
      | inr (bus, same, _, s) ↦ subst (Sent has f x m b) (cc) s
    ]

-- Both sends raise, or both reach the same mailboxes.
pub send-SameMail :
    (m : Message) (b b' : MessageBus)
    → SameMail b b'
    → ((e : Error) × (Bus.send m b ≡ err e) × (Bus.send m b' ≡ err e))
      ⊎ ((c c' : MessageBus) × (Bus.send m b ≡ ok c) × (Bus.send m b' ≡ ok c') × SameMail c c')
send-SameMail m b b' h = elim (sending b (λ n. refl)) [
  | inl (fails, unsent) ↦ elim (sending b' (λ n. sym (h.boxes n))) [
    | inl (fails', _) ↦ inl (_, fails, fails')
    | inr (_, _, sends, _) ↦ absurd (cc)
  ]
  | inr (c, goes, sends, _) ↦ elim (sending b' (λ n. sym (h.boxes n))) [
    | inl (_, unsent) ↦ absurd (cc)
    | inr (c', goes', _, _) ↦ inr (c, c', goes, goes', both c c' goes goes')
  ]
]
  where
    sending :
        (bus : MessageBus)
        → Has (λ n. has_mailbox n b) bus
        → ((Bus.send m bus ≡ err (unknown_recipient m.to))
            × (is_sent (λ n. has_mailbox n b) m ≡ false))
          ⊎ ((bus' : MessageBus) × (Bus.send m bus ≡ ok bus')
              × (is_sent (λ n. has_mailbox n b) m ≡ true)
              × Sent (λ n. has_mailbox n b) (λ m. 0) "" m bus bus')
    sending bus here =
        send-Sent (λ n. has_mailbox n b) (λ m. 0) "" m bus here (Bus.send m bus) (send_lem m bus)

    both : (c c' : MessageBus) → Bus.send m b ≡ ok c → Bus.send m b' ≡ ok c' → SameMail c c'
    both c c' goes goes' =
        let s = λ (f : Message → ℕ) (x : String).
          Sent-send (λ n. has_mailbox n b) f x m b c (λ n. refl) goes in
        let s' = λ (f : Message → ℕ) (x : String).
          Sent-send (λ n. has_mailbox n b) f x m b' c' (λ n. sym (h.boxes n)) goes' in
        record {
          boxes = λ n. (s (λ m. 0) "").boxes n ∙ sym ((s' (λ m. 0) "").boxes n);
          mail = λ f n. omega (arith, (s f n).grown, (s' f n).grown, h.mail f n);
        }
