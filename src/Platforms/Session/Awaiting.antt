-- ===== src/Platforms/Session/Awaiting.antt =====
-- titoos/platforms/base.py: `AsyncPlatformAgent`, which awaits what the adapter's `ainvoke` gives.
-- `await` is the event loop's: what awaiting an object gives, at the adapter's state. Nothing
-- between two requests to the context is seen by another agent, so an await is no request.
use tito_os.Prelude.{
  ℕ, String, Bool, true, false, List, [], some, ◌≡◌, ap, ◌∙◌, ◌≢◌, refl, if◌then◌else◌, is_empty,
  ◌&&◌, Bool-cases, inl, inr, arith,
}
use tito_os.Errors.{Result, ok, err, ◌>>=◌}
use tito_os.Message.{Value, Message}
use tito_os.Agent.{Agent, Script}
use tito_os.Agent.Traces.{Traced}
use tito_os.Platforms.{
  PlatformTurn, Answer, one, many, awaitable, plain, Await, awaited, Adapter, normalized,
  adapter_name, default_to_platform, default_from_platform, default_ainvoke,
}
use tito_os.Platforms.Session.{Session, finish, answered, requested, turn_of, platform_step}
use tito_os.Platforms.Session.Outcomes.{Way, Asked, no_request, no_answer, IsBusy, TurnLaw}
use tito_os.Platforms.Session.Turns.{finish-Traced}

module _ {S : Type 0} where
  abbrev pub async_answered :
      Adapter S → PlatformTurn → Session S → Result Answer × S → Script (Session S)
  async_answered adapter turn m (err e, device) =
      Script.raise (normalized adapter.name "invoke" e) (record m { device = device })
  async_answered adapter turn m (ok answer, device) =
      finish adapter answer turn (record m { device = device })

  abbrev pub async_requested :
      Adapter S → Await S → PlatformTurn → Session S → Result Value × S → Script (Session S)
  async_requested adapter await turn m (err e, device) =
      Script.raise (normalized adapter.name "to_platform" e) (record m { device = device })
  async_requested adapter await turn m (ok request, device) =
      async_answered adapter turn (record m { device = device })
        (adapter.ainvoke await device request turn)

  -- `AsyncPlatformAgent.step`
  unfoldable pub async_platform_step :
      Adapter S → Await S → Agent (Session S) → ℕ → List Message → Script (Session S)
  unfolding finish turn_of
  async_platform_step adapter await a tick inbox =
      if is_empty inbox && a.memory.seeded
      then Script.wait (Script.return a.memory)
      else async_requested adapter await (turn_of a tick inbox) a.memory
          (adapter.to_platform a.memory.device (turn_of a tick inbox))

  -- The step of the class that `PlatformAdapter.agent` builds.
  unfoldable pub agent_step :
      Adapter S → Await S → Agent (Session S) → ℕ → List Message → Script (Session S)
  unfolding platform_step async_platform_step
  agent_step adapter await a tick inbox =
      if adapter.is_async
      then async_platform_step adapter await a tick inbox
      else platform_step adapter a tick inbox

  -- `CallableAdapter`: the other hooks are those of `PlatformAdapter`, which keep no state. `fn` is the
  -- callable, with the state that it closes over.
  unfoldable pub callable_adapter :
      String → (S → Value → PlatformTurn → Result Answer × S) → Bool → Result (Adapter S)
  unfolding default_to_platform default_from_platform default_ainvoke
  callable_adapter name fn is_async = adapter_name "" (some name) >>= λ chosen. ok (record {
    name = chosen;
    is_async = is_async;
    to_platform = λ device turn. (ok (default_to_platform turn), device);
    invoke = fn;
    ainvoke = default_ainvoke fn;
    from_platform = λ device answer turn. (ok (default_from_platform answer), device);
    save_state = λ device. [];
    load_state = λ device state. device;
  })

  -- the class of the adapter has the `ainvoke` of `PlatformAdapter`, which defers to `invoke`
  abbrev pub IsInherited : Adapter S → Type 0
  IsInherited adapter =
      (await : Await S) (device : S) (request : Value) (turn : PlatformTurn)
      → adapter.ainvoke await device request turn
        ≡ default_ainvoke adapter.invoke await device request turn

  -- no run of the adapter gives an awaitable object
  abbrev pub IsSettled : Adapter S → Type 0
  IsSettled adapter =
      (device : S) (request : Value) (turn : PlatformTurn) (n : ℕ)
      → (adapter.invoke device request turn).0 ≢ ok (awaitable n)

  same_answer :
      (adapter : Adapter S) (await : Await S) (turn : PlatformTurn) (m : Session S)
      → (r : Result Answer × S) → ((n : ℕ) → r.0 ≢ ok (awaitable n))
      → async_answered adapter turn m (awaited await r) ≡ answered adapter turn m r
  same_answer adapter await turn m (err e, device) settled = refl
  same_answer adapter await turn m (ok (awaitable n), device) settled = absurd (settled n refl)
  same_answer adapter await turn m (ok (one o), device) settled = refl
  same_answer adapter await turn m (ok (many o os), device) settled = refl
  same_answer adapter await turn m (ok (plain v), device) settled = refl

  same_request :
      (adapter : Adapter S) (await : Await S) (turn : PlatformTurn) (m : Session S)
      → IsInherited adapter
      → IsSettled adapter
      → (r : Result Value × S) → async_requested adapter await turn m r ≡ requested adapter turn m r
  unfolding default_ainvoke
  same_request adapter await turn m inherited settled (err e, device) = refl
  same_request adapter await turn m inherited settled (ok request, device) =
      ap (async_answered adapter turn (record m { device = device }))
        (inherited await device request turn)
      ∙ same_answer adapter await turn (record m { device = device })
          (adapter.invoke device request turn) (settled device request turn)

  -- An adapter that inherits `ainvoke` and whose `invoke` gives no awaitable does the same for an agent
  -- that can await as for one that cannot, so which of the two `PlatformAdapter.agent` builds for it
  -- makes no difference. Of an adapter that overrides `ainvoke`, nothing is said.
  pub agent_step-settled :
      (adapter : Adapter S) (await : Await S) (a : Agent (Session S)) (tick : ℕ)
      → (inbox : List Message) → IsInherited adapter
      → IsSettled adapter
      → (async_platform_step adapter await a tick inbox ≡ platform_step adapter a tick inbox)
        × (agent_step adapter await a tick inbox ≡ platform_step adapter a tick inbox)
  unfolding agent_step
  agent_step-settled adapter await a tick inbox inherited settled = (same, either adapter.is_async)
    where
      same : async_platform_step adapter await a tick inbox ≡ platform_step adapter a tick inbox
      same =
          ap
            (λ t.
              if is_empty inbox && a.memory.seeded then Script.wait (Script.return a.memory) else t)
            (same_request adapter await (turn_of a tick inbox) a.memory inherited settled
              (adapter.to_platform a.memory.device (turn_of a tick inbox)))

      either :
          (b : Bool)
          → (if b
              then async_platform_step adapter await a tick inbox
              else platform_step adapter a tick inbox)
            ≡ platform_step adapter a tick inbox
      either true = same
      either false = refl

  -- `AsyncPlatformAgent` awaits `ainvoke`, and takes whatever it gives.
  abbrev pub by_ainvoke : Adapter S → Await S → Way S
  by_ainvoke adapter await = record { run = adapter.ainvoke await; takes = λ answer. true }

  -- One step of an agent that awaits, whatever the context answers: `TurnLaw`, as for an agent that
  -- cannot await, with the adapter's `ainvoke`.
  pub async_platform_step-Traced :
      (adapter : Adapter S) (await : Await S) (a : Agent (Session S)) (tick : ℕ)
      → (inbox : List Message)
      → Traced
          (TurnLaw adapter (by_ainvoke adapter await) a tick inbox)
          (async_platform_step adapter await a tick inbox)
  async_platform_step-Traced adapter await a tick inbox =
      elim (Bool-cases (is_empty inbox && a.memory.seeded)) [
        | inl idle ↦
            unfold async_platform_step in rw idle (inl (ground arith, ground arith, refl, refl))
        | inr busy ↦
            unfold async_platform_step in
            rw busy
              (by_request busy (adapter.to_platform a.memory.device (turn_of a tick inbox)) refl)
      ]
    where
      by_answer :
          IsBusy a.memory inbox
          → (request : Value) (before : S)
          → Asked adapter (by_ainvoke adapter await) (turn_of a tick inbox) a.memory request before
          → (r : Result Answer × S)
          → adapter.ainvoke await before request (turn_of a tick inbox) ≡ r
          → Traced (TurnLaw adapter (by_ainvoke adapter await) a tick inbox) (
              async_answered adapter (turn_of a tick inbox) (record a.memory { device = before }) r)
      by_answer busy request before asked (err e, after) h =
          (busy, after, refl, no_answer request before e asked h refl refl)
      by_answer busy request before asked (ok answer, after) h =
          finish-Traced adapter (by_ainvoke adapter await) a tick inbox answer after busy
            (request, before, asked, h) refl

      by_request :
          IsBusy a.memory inbox
          → (r : Result Value × S) → adapter.to_platform a.memory.device (turn_of a tick inbox) ≡ r
          → Traced
              (TurnLaw adapter (by_ainvoke adapter await) a tick inbox)
              (async_requested adapter await (turn_of a tick inbox) a.memory r)
      by_request busy (err e, after) h = (busy, after, refl, no_request e h refl refl)
      by_request busy (ok v, after) h =
          by_answer busy v after h (adapter.ainvoke await after v (turn_of a tick inbox)) refl
