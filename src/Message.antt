-- ===== src/Message.antt =====
-- titoos/message.py: messages, and the values that payloads and metadata hold.
pub mod Codec
mod Tests
use tito_os.Prelude.{ℕ, String, Bool, List, [], ◌∷◌, Option, none, some, ◌==◌}
use tito_os.Dict.{Dict}

-- A JSON value. `int` has its sign and its magnitude; `opaque` is any other Python object, by
-- identity.
mutual
  pub data Value : Type 0 where
    null : Value
    bool : Bool → Value
    int : Bool → ℕ → Value
    text : String → Value
    arr : Items → Value
    obj : Fields → Value
    opaque : ℕ → Value

  pub data Items : Type 0 where
    nil : Items
    item : Value → Items → Items

  pub data Fields : Type 0 where
    end : Fields
    field : String → Value → Fields → Fields

-- `BROADCAST`
abbrev pub broadcast_name : String
broadcast_name = "*"

-- The frozen dataclass. `__post_init__` copies `metadata` into a read-only mapping, which is the
-- value itself here.
pub record Message : Type 0 where
  pub sender : String
  pub to : String
  pub payload : Value
  pub metadata : Dict Value

unfoldable pub is_broadcast : Message → Bool
is_broadcast m = m.to == broadcast_name
