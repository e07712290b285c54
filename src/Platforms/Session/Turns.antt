-- ===== src/Platforms/Session/Turns.antt =====
-- One step of a platform agent: what it asks of the adapter and of the context, the turn that it
-- counts, and what it raises.
use tito_os.Prelude.{
  ℕ, String, Bool, true, false, List, [], ◌∷◌, ◌++◌, none, some, ◌≡◌, refl, inl, inr, if◌then◌else◌,
  is_empty, ◌&&◌, Bool-cases, arith,
}
use tito_os.Errors.{Result, ok, err, Error, platform_failed}
use tito_os.Message.{Value, Message}
use tito_os.Agent.{Agent, Script}
use tito_os.Agent.Traces.{
  Action, sent, broadcasted, waited, exited, Ending, returned, raised, refusal, Traced,
}
use tito_os.Platforms.{PlatformTurn, Outbound, Answer, one, many, awaitable, plain, Adapter}
use tito_os.Platforms.Session.{
  Session, Address, everyone, nowhere, agent_named, address, dispatch_to, dispatch_all, is_spent,
  continue, counted, close_turn, finish, finished, answered, requested, turn_of, platform_step,
}
use tito_os.Platforms.Session.Outcomes.{
  Way, by_invoke, Requests, action_for, Dispatched, Interrupted, Asked, Answers, no_request,
  no_answer, not_taken, no_replies, not_delivered, IsBusy, TurnLaw,
}

module _ {S : Type 0} where
  -- where a reply goes does not depend on the state of the adapter
  Dispatched-device :
      (device : S) (m : Session S) (turn : PlatformTurn) (replies : List Outbound)
      → (acts : Requests S) → Dispatched (record m { device = device }) turn replies acts
      → Dispatched m turn replies acts
  unfolding address
  Dispatched-device device m turn [] [] h = tt
  Dispatched-device device m turn [] (_ ∷ _) h = h
  Dispatched-device device m turn (_ ∷ _) [] h = h
  Dispatched-device device m turn (reply ∷ replies) ((act, refused) ∷ acts) (h, k, l) =
      (h, k, Dispatched-device device m turn replies acts l)

  Interrupted-device :
      (platform : String) (device : S) (m : Session S) (turn : PlatformTurn)
      → (replies : List Outbound) (acts : Requests S) (e : Error)
      → Interrupted platform (record m { device = device }) turn replies acts e
      → Interrupted platform m turn replies acts e
  unfolding address
  Interrupted-device platform device m turn [] acts e h = h
  Interrupted-device platform device m turn (reply ∷ replies) [] e h = h
  Interrupted-device platform device m turn (reply ∷ replies) ((act, none) ∷ acts) e (h, l) =
      (h, Interrupted-device platform device m turn replies acts e l)
  Interrupted-device platform device m turn (reply ∷ replies) ((act, some x) ∷ acts) e h = h

  continue-Traced :
      (m : Session S) (rest : Script (Session S)) (r : Result Message) (act : Action (Session S))
      → (Q : Requests S → Ending (Session S) → Type 0)
      → ((e : Error) → Q ((act, some e) ∷ []) (raised e m))
      → Traced (λ acts end. Q ((act, none) ∷ acts) end) rest
      → Traced (λ acts end. Q ((act, refusal r) ∷ acts) end) (continue m rest r)
  continue-Traced m rest (ok _) act Q fails h = h
  continue-Traced m rest (err e) act Q fails h = fails e

  dispatch_to-Traced :
      (platform : String) (to : Address) (reply : Outbound) (m : Session S)
      → (rest : Script (Session S)) (Q : Requests S → Ending (Session S) → Type 0)
      → (to ≡ nowhere → Q [] (raised (platform_failed platform "dispatch") m))
      → ((act : Action (Session S)) (e : Error)
          → action_for to reply ≡ some act
          → Q ((act, some e) ∷ []) (raised e m))
      → ((act : Action (Session S))
          → action_for to reply ≡ some act
          → Traced (λ acts end. Q ((act, none) ∷ acts) end) rest)
      → Traced Q (dispatch_to platform to reply m rest)
  dispatch_to-Traced platform everyone reply m rest Q lost fails later = λ r.
      let act : Action (Session S) = broadcasted reply.payload reply.metadata in
      continue-Traced m rest r act Q (λ e. fails act e refl) (later act refl)
  dispatch_to-Traced platform nowhere reply m rest Q lost fails later = lost refl
  dispatch_to-Traced platform (agent_named name) reply m rest Q lost fails later = λ r.
      let act : Action (Session S) = sent name reply.payload reply.metadata in
      continue-Traced m rest r act Q (λ e. fails act e refl) (later act refl)

  dispatch_all-Traced :
      (platform : String) (replies : List Outbound) (turn : PlatformTurn) (m : Session S)
      → (rest : Script (Session S)) (Q : Requests S → Ending (Session S) → Type 0)
      → ((acts : Requests S) (e : Error)
          → Interrupted platform m turn replies acts e
          → Q acts (raised e m))
      → ((acts : Requests S)
          → Dispatched m turn replies acts
          → Traced (λ more end. Q (acts ++ more) end) rest)
      → Traced Q (dispatch_all platform replies turn m rest)
  unfolding dispatch_all
  dispatch_all-Traced platform [] turn m rest Q fails h = h [] tt
  dispatch_all-Traced platform (reply ∷ replies) turn m rest Q fails h =
      dispatch_to-Traced platform (address m reply turn) reply m
        (dispatch_all platform replies turn m rest) Q
        (λ lost. fails [] (platform_failed platform "dispatch") (lost, refl))
        (λ act e to. fails ((act, some e) ∷ []) e (to, refl, refl))
        (λ act to.
          dispatch_all-Traced platform replies turn m rest (λ acts end. Q ((act, none) ∷ acts) end)
            (λ acts e i. fails ((act, none) ∷ acts) e (to, i))
            (λ acts d. h ((act, none) ∷ acts) (to, refl, d)))

  close_turn-Traced :
      (m : Session S) (Q : Requests S → Ending (Session S) → Type 0)
      → Q (((if is_spent (counted m) then exited else waited), none) ∷ []) (returned (counted m))
      → Traced Q (close_turn m)
  unfolding close_turn
  close_turn-Traced m Q h = by_budget (is_spent (counted m)) h
    where
      by_budget :
          (spent : Bool)
          → Q (((if spent then exited else waited), none) ∷ []) (returned (counted m))
          → Traced Q (
              if spent
              then Script.exit (Script.return (counted m))
              else Script.wait (Script.return (counted m)))
      by_budget true q = q
      by_budget false q = q

  -- An answer that is taken, of a platform that ran as `way` says.
  pub finish-Traced :
      (adapter : Adapter S) (way : Way S) (a : Agent (Session S)) (tick : ℕ) (inbox : List Message)
      → (answer : Answer) (device : S) → IsBusy a.memory inbox
      → Answers adapter way (turn_of a tick inbox) a.memory answer device
      → way.takes answer ≡ true
      → Traced
          (TurnLaw adapter way a tick inbox)
          (finish adapter answer (turn_of a tick inbox) (record a.memory { device = device }))
  unfolding finish
  finish-Traced adapter way a tick inbox answer device busy ran taken =
      by_replies (adapter.from_platform device answer (turn_of a tick inbox)) refl
    where
      by_replies :
          (r : Result (List Outbound) × S)
          → adapter.from_platform device answer (turn_of a tick inbox) ≡ r
          → Traced
              (TurnLaw adapter way a tick inbox)
              (finished adapter.name (turn_of a tick inbox) (record a.memory { device = device }) r)
      by_replies (err e, after) from =
          (busy, after, refl, no_replies answer device e ran taken from refl refl)
      by_replies (ok replies, after) from =
          dispatch_all-Traced adapter.name replies (turn_of a tick inbox)
            (record a.memory { device = after }) _ _
            (λ acts e i. (
              busy,
              after,
              refl,
              not_delivered replies (answer, device, ran, taken, from)
                  (Interrupted-device adapter.name after a.memory (turn_of a tick inbox) replies
                    acts e i),
            ))
            (λ acts d.
              close_turn-Traced (record a.memory { device = after }) _
                (inr (
                  busy,
                  (
                    replies,
                    after,
                    acts,
                    (answer, device, ran, taken, from),
                    Dispatched-device after a.memory (turn_of a tick inbox) replies acts d,
                    refl,
                    refl,
                  ),
                )))

  -- A step of a platform agent, whatever the context answers it. It waits at once, and asks nothing
  -- of the adapter, when it has no mail and its seed is used. Otherwise the adapter makes a request of
  -- the turn, `invoke` is called with it, and its answer, which may not be an awaitable, is translated
  -- to replies. When the step returns, it has asked for one message for each of these replies, in
  -- their order and to where the reply goes, and then to exit if its turns are used up and to wait if
  -- not; it has counted one turn more and used the seed, and keeps nothing else but the state that the
  -- adapter's last call left. It raises only when one of the three hooks did, the answer was an
  -- awaitable, a reply had nowhere to go or the context refused a message, with that exception, having
  -- asked for the messages of the replies before; then it keeps nothing but the state of the adapter.
  pub platform_step-Traced :
      (adapter : Adapter S) (a : Agent (Session S)) (tick : ℕ) (inbox : List Message)
      → Traced
          (TurnLaw adapter (by_invoke adapter) a tick inbox)
          (platform_step adapter a tick inbox)
  platform_step-Traced adapter a tick inbox =
      elim (Bool-cases (is_empty inbox && a.memory.seeded)) [
        | inl idle ↦ unfold platform_step in rw idle (inl (ground arith, ground arith, refl, refl))
        | inr busy ↦
            unfold platform_step in
            rw busy
              (by_request busy (adapter.to_platform a.memory.device (turn_of a tick inbox)) refl)
      ]
    where
      by_answer :
          IsBusy a.memory inbox
          → (request : Value) (before : S)
          → Asked adapter (by_invoke adapter) (turn_of a tick inbox) a.memory request before
          → (r : Result Answer × S) → adapter.invoke before request (turn_of a tick inbox) ≡ r
          → Traced
              (TurnLaw adapter (by_invoke adapter) a tick inbox)
              (answered adapter (turn_of a tick inbox) (record a.memory { device = before }) r)
      by_answer busy request before asked (err e, after) h =
          (busy, after, refl, no_answer request before e asked h refl refl)
      by_answer busy request before asked (ok (awaitable n), after) h =
          (busy, after, refl, not_taken (awaitable n) (request, before, asked, h) refl refl refl)
      by_answer busy request before asked (ok (one o), after) h =
          finish-Traced adapter (by_invoke adapter) a tick inbox (one o) after busy
            (request, before, asked, h) refl
      by_answer busy request before asked (ok (many o os), after) h =
          finish-Traced adapter (by_invoke adapter) a tick inbox (many o os) after busy
            (request, before, asked, h) refl
      by_answer busy request before asked (ok (plain v), after) h =
          finish-Traced adapter (by_invoke adapter) a tick inbox (plain v) after busy
            (request, before, asked, h) refl

      by_request :
          IsBusy a.memory inbox
          → (r : Result Value × S) → adapter.to_platform a.memory.device (turn_of a tick inbox) ≡ r
          → Traced
              (TurnLaw adapter (by_invoke adapter) a tick inbox)
              (requested adapter (turn_of a tick inbox) a.memory r)
      by_request busy (err e, after) h = (busy, after, refl, no_request e h refl refl)
      by_request busy (ok v, after) h =
          by_answer busy v after h (adapter.invoke after v (turn_of a tick inbox)) refl
