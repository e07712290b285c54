-- ===== src/Platforms.antt =====
-- titoos/platforms/base.py: turns, outbound messages, and the translation that `PlatformAdapter` does
-- by default. The SDK behind an adapter is not this code's: an adapter has a state and its hooks.
pub mod Session
pub mod Registry
mod Tests
use tito_os.Prelude.{
  ℕ, String, Bool, true, false, List, [], ◌∷◌, map, Option, none, some, ◌==◌, if◌then◌else◌, ◌&&◌,
  is_some,
}
use tito_os.Errors.{
  Result, ok, err, Error, empty_name, both_destinations, platform_failed, missing_dependency,
}
use tito_os.Dict.{Dict}
use tito_os.Message.{Value, null, arr, Items, nil, item, opaque, Message}

-- `PlatformTurn`
pub record PlatformTurn : Type 0 where
  pub agent : String
  pub tick : ℕ
  pub messages : List Message
  pub seed : Value

-- `PlatformTurn.payloads`
unfoldable pub payloads : PlatformTurn → List Value
payloads turn = map (λ m. m.payload) turn.messages

-- `PlatformTurn.sender`
unfoldable pub turn_sender : PlatformTurn → Option String
turn_sender turn = elim turn.messages [ [] ↦ none | m ∷ _ ↦ some m.sender ]

-- `Outbound`
pub record Outbound : Type 0 where
  pub payload : Value
  pub to : Option String
  pub metadata : Dict Value
  pub broadcast : Bool

-- `Outbound.__post_init__`
unfoldable pub make_outbound : Value → Option String → Dict Value → Bool → Result Outbound
make_outbound payload to metadata broadcast =
    if broadcast && is_some to
    then err both_destinations
    else ok (record { payload = payload; to = to; metadata = metadata; broadcast = broadcast })

-- What `invoke` returns: an `Outbound`, a list or tuple of them that is not empty, an awaitable
-- object, or any other value.
pub data Answer : Type 0 where
  one : Outbound → Answer
  many : Outbound → List Outbound → Answer
  awaitable : ℕ → Answer
  plain : Value → Answer

-- `PlatformAdapter.to_platform`
abbrev items_of : List Value → Items
items_of [] = nil
items_of (v ∷ vs) = item v (items_of vs)

abbrev request_of : Value → List Value → Value
request_of seed [] = seed
request_of seed (v ∷ []) = v
request_of seed (v ∷ w ∷ vs) = arr (items_of (v ∷ w ∷ vs))

unfoldable pub default_to_platform : PlatformTurn → Value
unfolding payloads
default_to_platform turn = request_of turn.seed (payloads turn)

abbrev reply_with : Value → Outbound
reply_with v = record { payload = v; to = none; metadata = []; broadcast = false }

-- `PlatformAdapter.from_platform`: of the empty list, every element is an `Outbound`.
unfoldable pub default_from_platform : Answer → List Outbound
default_from_platform (one o) = o ∷ []
default_from_platform (many o os) = o ∷ os
default_from_platform (awaitable n) = reply_with (opaque n) ∷ []
default_from_platform (plain null) = []
default_from_platform (plain (arr nil)) = []
default_from_platform (plain v) = reply_with v ∷ []

-- The event loop: what awaiting an object gives, at the adapter's state.
abbrev pub Await : Type 0 → Type 0
Await S = S → ℕ → Result Answer × S

-- A `PlatformAdapter` object's class: its name, and its hooks on the adapter's state.
pub record Adapter (S : Type 0) : Type 0 where
  pub name : String
  pub is_async : Bool
  pub to_platform : S → PlatformTurn → Result Value × S
  pub invoke : S → Value → PlatformTurn → Result Answer × S
  pub ainvoke : Await S → S → Value → PlatformTurn → Result Answer × S
  pub from_platform : S → Answer → PlatformTurn → Result (List Outbound) × S
  pub save_state : S → Dict Value
  pub load_state : S → Dict Value → S

abbrev pub awaited : {S : Type 0} → Await S → Result Answer × S → Result Answer × S
awaited await (err e, device) = (err e, device)
awaited await (ok (awaitable n), device) = await device n
awaited await (ok (one o), device) = (ok (one o), device)
awaited await (ok (many o os), device) = (ok (many o os), device)
awaited await (ok (plain v), device) = (ok (plain v), device)

-- `PlatformAdapter.ainvoke`, of a class with this `invoke`
unfoldable pub default_ainvoke :
    {S : Type 0}
    → (S → Value → PlatformTurn → Result Answer × S)
    → Await S
    → S
    → Value
    → PlatformTurn
    → Result Answer × S
default_ainvoke invoke await device request turn = awaited await (invoke device request turn)

-- `PlatformAdapter.__init__`
unfoldable pub adapter_name : String → Option String → Result String
adapter_name class_name name =
    let chosen : String = elim name [ none ↦ class_name | some n ↦ n ] in
    if chosen == "" then err empty_name else ok chosen

unfoldable pub is_platform_error : Error → Bool
is_platform_error (platform_failed platform operation) = true
is_platform_error (missing_dependency platform) = true
is_platform_error _ = false

-- `PlatformAgent._error`, after the clause that lets a `PlatformError` through
unfoldable pub normalized : String → String → Error → Error
normalized platform operation e =
    if is_platform_error e then e else platform_failed platform operation
