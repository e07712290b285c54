-- ===== src/Kernel/Schedules/Requests.antt =====
-- A message that a step sends: the answer that it gets, and the weight of each mailbox after it.
use tito_os.Prelude.{
  ℕ, ◌+◌, String, Bool, true, false, List, [], ◌∷◌, ◌++◌, Option, none, some, if◌then◌else◌, ◌≡◌,
  ◌⊎◌, refl, ap, sym, ◌∙◌, arith, is_some, inl, inr,
}
use tito_os.Errors.{Result, ok, err, unknown_recipient, ◌>>=◌}
use tito_os.Dict.Laws.{map_some}
use tito_os.Message.{Message}
use tito_os.Bus
use tito_os.Bus.{MessageBus, mailbox, has_mailbox}
use tito_os.Bus.Mailboxes.{at, reaches, append_to}
use tito_os.Bus.Delivery.{Delivered, send_lem}
use tito_os.Agent.{Program}
use tito_os.Kernel.{Kernel}
use tito_os.Kernel.Context.{sent}
use tito_os.Kernel.Schedules.{weight, is_sent, answer, amount}

pub weight-append :
    (f : Message → ℕ) (ms ns : List Message) → weight f (ms ++ ns) ≡ weight f ms + weight f ns
weight-append f [] ns = omega arith
weight-append f (m ∷ ms) ns = omega (arith, weight-append f ms ns)

abbrev pub box_of : Option (List Message) → List Message
box_of none = []
box_of (some box) = box

pub mailbox-at : (x : String) (bus : MessageBus) → mailbox x bus ≡ box_of (at x bus)
unfolding mailbox
mailbox-at x bus = by_case (at x bus)
  where
    by_case : (o : Option (List Message)) → (elim o [ none ↦ [] | some box ↦ box ]) ≡ box_of o
    by_case none = refl
    by_case (some box) = refl

module _ (has : String → Bool) where
  -- the bus has the mailboxes that `has` says
  abbrev pub Has : MessageBus → Type 0
  Has bus = (n : String) → has_mailbox n bus ≡ has n

  -- what a request that sends `m` leaves
  pub record Sent (f : Message → ℕ) (x : String) (m : Message) (bus bus' : MessageBus)
      : Type 0 where
    pub boxes : Has bus'
    pub grown : weight f (mailbox x bus') ≡ weight f (mailbox x bus) + amount has f x m

  grown_by :
      (f : Message → ℕ) (x : String) (m : Message) (o o' : Option (List Message))
      → is_some o ≡ has x
      → is_sent has m ≡ true
      → o' ≡ (if reaches m x then map_some (append_to m) o else o)
      → weight f (box_of o') ≡ weight f (box_of o) + amount has f x m
  grown_by f x m none o' here sends e = ground (arith, e, here, sends)
  grown_by f x m (some box) o' here sends e =
      ground (arith, e, here, sends, weight-append f box (m ∷ []))

  kept_boxes :
      (reached : Bool) (m : Message) (o : Option (List Message))
      → is_some (if reached then map_some (append_to m) o else o) ≡ is_some o
  kept_boxes true m none = refl
  kept_boxes true m (some box) = refl
  kept_boxes false m o = refl

  pub send-Sent :
      (f : Message → ℕ) (x : String) (m : Message) (bus : MessageBus)
      → Has bus
      → (r : Result MessageBus) → Delivered m bus r
      → ((r ≡ err (unknown_recipient m.to)) × (is_sent has m ≡ false))
        ⊎ ((bus' : MessageBus) × (r ≡ ok bus') × (is_sent has m ≡ true) × Sent f x m bus bus')
  send-Sent f x m bus here (err e) (b, h, same) = inl (ap err same, ground (arith, here m.to))
  send-Sent f x m bus here (ok bus') (known, put) =
      let sends : is_sent has m ≡ true = ground (arith, here m.to) in
      inr (
        bus',
        refl,
        sends,
        record {
          boxes = λ n.
              unfold has_mailbox in
              ap is_some (put n) ∙ kept_boxes (reaches m n) m (at n bus) ∙ here n;
          grown =
              ap (weight f) (mailbox-at x bus')
              ∙ (grown_by f x m (at x bus) (at x bus') (unfold has_mailbox in here x) sends (put x)
                  ∙ ap (λ w. weight f w + amount has f x m) (sym (mailbox-at x bus)));
        },
      )

  -- `ctx_send` and `ctx_broadcast` answer what `answer` says, and leave the agents as they were.
  module _ {P : Program} (f : Message → ℕ) (x : String) where
    pub record Kept (m : Message) (k : Kernel P) (r : Result Message × Kernel P) : Type 0 where
      pub answered : r.0 ≡ answer has m
      pub agents : r.1.agents ≡ k.agents
      pub boxes : Has r.1.bus
      pub grown : weight f (mailbox x r.1.bus) ≡ weight f (mailbox x k.bus) + amount has f x m

    pub send-Kept :
        (m : Message) (k : Kernel P)
        → Has k.bus
        → Kept m k (sent k (Bus.send m k.bus >>= λ bus. ok (m, bus)))
    send-Kept m k here = elim (send-Sent f x m k.bus here (Bus.send m k.bus) (send_lem m k.bus)) [
      | inl (fails, unsent) ↦
          rw fails
            (record { answered = rw unsent; agents = refl; boxes = here; grown = ground arith })
      | inr (bus', goes, sends, s) ↦
          rw goes (record { answered = rw sends; agents = refl; boxes = s.boxes; grown = s.grown })
    ]
