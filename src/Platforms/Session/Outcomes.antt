-- ===== src/Platforms/Session/Outcomes.antt =====
-- How a step of a platform agent may end: what it asked of the adapter and of the context, the turn
-- that it counted, and what it raised.
use tito_os.Prelude.{
  ℕ, ◌+◌, String, Bool, true, false, List, [], ◌∷◌, ◌++◌, Option, none, some, ◌≡◌, ◌⊎◌,
  if◌then◌else◌, is_empty, ◌&&◌,
}
use tito_os.Errors.{Result, ok, err, Error, platform_failed}
use tito_os.Message.{Value, Message}
use tito_os.Agent.{Agent}
use tito_os.Agent.Traces.{Action, sent, broadcasted, waited, exited, Ending, returned, raised}
use tito_os.Platforms.{
  PlatformTurn, Outbound, Answer, one, many, awaitable, plain, Adapter, normalized,
}
use tito_os.Platforms.Session.{
  Session, Address, everyone, nowhere, agent_named, address, is_spent, turn_of,
}

-- How a class of agents runs a platform: the hook that it calls, and the answers that it takes.
pub record Way (S : Type 0) : Type 0 where
  pub run : S → Value → PlatformTurn → Result Answer × S
  pub takes : Answer → Bool

abbrev pub is_settled : Answer → Bool
is_settled (awaitable n) = false
is_settled (one o) = true
is_settled (many o os) = true
is_settled (plain v) = true

-- what a step asked of the context, and what was refused
abbrev pub Requests : Type 0 → Type 0
Requests S = List (Action (Session S) × Option Error)

module _ {S : Type 0} where
  -- `PlatformAgent` calls `invoke`, and refuses an awaitable.
  abbrev pub by_invoke : Adapter S → Way S
  by_invoke adapter = record { run = adapter.invoke; takes = is_settled }

  abbrev pub action_for : Address → Outbound → Option (Action (Session S))
  action_for everyone reply = some (broadcasted reply.payload reply.metadata)
  action_for nowhere reply = none
  action_for (agent_named name) reply = some (sent name reply.payload reply.metadata)

  -- One request for each reply, in their order, to where the reply goes, and none refused.
  abbrev pub Dispatched : Session S → PlatformTurn → List Outbound → Requests S → Type 0
  Dispatched m turn [] [] = Unit
  Dispatched m turn [] (_ ∷ _) = ⊥
  Dispatched m turn (_ ∷ _) [] = ⊥
  Dispatched m turn (reply ∷ replies) ((act, refused) ∷ acts) =
      (action_for (address m reply turn) reply ≡ some act)
      × (refused ≡ none)
      × Dispatched m turn replies acts

  -- The requests up to a reply that raises: it has nowhere to go, or the context refuses its request.
  abbrev pub Interrupted :
      String → Session S → PlatformTurn → List Outbound → Requests S → Error → Type 0
  Interrupted platform m turn [] acts e = ⊥
  Interrupted platform m turn (reply ∷ replies) [] e =
      (address m reply turn ≡ nowhere) × (e ≡ platform_failed platform "dispatch")
  Interrupted platform m turn (reply ∷ replies) ((act, none) ∷ acts) e =
      (action_for (address m reply turn) reply ≡ some act)
      × Interrupted platform m turn replies acts e
  Interrupted platform m turn (reply ∷ replies) ((act, some x) ∷ acts) e =
      (action_for (address m reply turn) reply ≡ some act) × (acts ≡ []) × (e ≡ x)

  module _ (adapter : Adapter S) (way : Way S) (turn : PlatformTurn) (m : Session S) where
    -- the platform was asked, by what the adapter makes of the turn
    abbrev pub Asked : Value → S → Type 0
    Asked request device = adapter.to_platform m.device turn ≡ (ok request, device)

    -- the platform ran, and answered
    abbrev pub Answers : Answer → S → Type 0
    Answers answer device =
        (request : Value) × (before : S) × Asked request before
        × (way.run before request turn ≡ (ok answer, device))

    -- its answer was taken, and translated
    abbrev pub Replies : List Outbound → S → Type 0
    Replies replies device =
        (answer : Answer) × (before : S) × Answers answer before
        × (way.takes answer ≡ true)
        × (adapter.from_platform before answer turn ≡ (ok replies, device))

    -- a step that returns after a turn
    abbrev pub Finished : Requests S → Session S → Type 0
    Finished acts m' =
        (replies : List Outbound) × (device : S) × (requests : Requests S) × Replies replies device
        × Dispatched m turn replies requests
        × (m' ≡ record m { device = device; seeded = true; turns = m.turns + 1 })
        × (acts ≡ requests ++ ((if is_spent m' then exited else waited), none) ∷ [])

    -- Why a step raises, and what it asked the context before: one of the three hooks raised, or the
    -- answer was not taken, or a reply was not delivered.
    pub data Fault (acts : Requests S) (e : Error) (device : S) : Type 0 where
      no_request :
          (x : Error)
          → adapter.to_platform m.device turn ≡ (err x, device)
          → e ≡ normalized adapter.name "to_platform" x
          → acts ≡ []
          → Fault acts e device
      no_answer :
          (request : Value) (before : S) (x : Error)
          → Asked request before
          → way.run before request turn ≡ (err x, device)
          → e ≡ normalized adapter.name "invoke" x
          → acts ≡ []
          → Fault acts e device
      not_taken :
          (answer : Answer)
          → Answers answer device
          → way.takes answer ≡ false
          → e ≡ platform_failed adapter.name "invoke"
          → acts ≡ []
          → Fault acts e device
      no_replies :
          (answer : Answer) (before : S) (x : Error)
          → Answers answer before
          → way.takes answer ≡ true
          → adapter.from_platform before answer turn ≡ (err x, device)
          → e ≡ normalized adapter.name "from_platform" x
          → acts ≡ []
          → Fault acts e device
      not_delivered :
          (replies : List Outbound)
          → Replies replies device
          → Interrupted adapter.name m turn replies acts e
          → Fault acts e device

  -- a step without a turn
  abbrev pub Idle : Session S → List Message → Requests S → Session S → Type 0
  Idle m inbox acts m' =
      (is_empty inbox ≡ true) × (m.seeded ≡ true) × (acts ≡ (waited, none) ∷ []) × (m' ≡ m)

  abbrev pub IsBusy : Session S → List Message → Type 0
  IsBusy m inbox = (is_empty inbox && m.seeded) ≡ false

  abbrev pub TurnLaw :
      Adapter S
      → Way S
      → Agent (Session S)
      → ℕ
      → List Message
      → Requests S
      → Ending (Session S)
      → Type 0
  TurnLaw adapter way a tick inbox acts (returned m') =
      Idle a.memory inbox acts m'
      ⊎ (IsBusy a.memory inbox × Finished adapter way (turn_of a tick inbox) a.memory acts m')
  TurnLaw adapter way a tick inbox acts (raised e m') =
      IsBusy a.memory inbox
      × (device : S) × (m' ≡ record a.memory { device = device })
      × Fault adapter way (turn_of a tick inbox) a.memory acts e device
