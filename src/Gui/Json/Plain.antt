-- ===== src/Gui/Json/Plain.antt =====
-- titoos/gui/server.py: values of JSON's own types, and what `_jsonable` makes of any value.
use mathlib.Core.Option
use tito_os.Prelude.{
  ℕ, String, Bool, true, false, List, [], ◌∷◌, map, Option, none, some, ◌≡◌, refl, ap, ◌&&◌, All,
  arith,
}
use tito_os.Errors.{ok}
use tito_os.Dict.{Dict}
use tito_os.Message.{
  Value, null, bool, int, text, arr, obj, opaque, Items, nil, item, Fields, end, field, Message,
}
use tito_os.Message.Codec.{to_fields, message_to_dict, message_from_dict, from_dict-to_dict}
use tito_os.Gui.Json.{both, encoded, encoded_items, encoded_fields, array, jsonable, message_json}

module _ (is_float : ℕ → Bool) where
  -- A value of JSON's own types, also in its parts. `is_float` says which objects are finite floats: JSON
  -- has numbers with a point, and the model's values do not.
  unfoldable mutual
    pub is_plain : Value → Bool
    is_plain null = true
    is_plain (bool b) = true
    is_plain (int negative n) = true
    is_plain (text s) = true
    is_plain (arr items) = are_plain items
    is_plain (obj fields) = plain_fields fields
    is_plain (opaque n) = is_float n

    pub are_plain : Items → Bool
    are_plain nil = true
    are_plain (item v items) = is_plain v && are_plain items

    pub plain_fields : Fields → Bool
    plain_fields end = true
    plain_fields (field k v fields) = is_plain v && plain_fields fields

  pub plain_array :
      {A : Type 0} (f : A → Value)
      → ((a : A) → is_plain (f a) ≡ true)
      → (xs : List A) → are_plain (array (map f xs)) ≡ true
  unfolding array are_plain
  plain_array f each [] = refl
  plain_array f each (a ∷ xs) = ground (arith, each a, plain_array f each xs)

  pub plain_dict :
      {A : Type 0} (f : A → Value)
      → ((a : A) → is_plain (f a) ≡ true)
      → (d : Dict A) → plain_fields (to_fields (map (λ e. (e.0, f e.1)) d)) ≡ true
  unfolding to_fields plain_fields
  plain_dict f each [] = refl
  plain_dict f each ((k, a) ∷ d) = ground (arith, each a, plain_dict f each d)

-- where there is a value, it has `p`
abbrev pub Holds : {A : Type 0} → (A → Bool) → Option A → Type 0
Holds p none = Unit
Holds p (some a) = p a ≡ true

Holds-map :
    {A B : Type 0} (p : A → Bool) (q : B → Bool) (f : A → B) (o : Option A)
    → ((a : A) → p a ≡ true → q (f a) ≡ true)
    → Holds p o
    → Holds q (Option.map f o)
Holds-map p q f none goes h = tt
Holds-map p q f (some a) goes h = goes a h

Holds-both :
    {A B C : Type 0} (p : A → Bool) (q : B → Bool) (r : C → Bool) (f : A → B → C)
    → (o : Option A) (o' : Option B)
    → ((a : A) (b : B) → p a ≡ true → q b ≡ true → r (f a b) ≡ true)
    → Holds p o
    → Holds q o'
    → Holds r (both f o o')
Holds-both p q r f none o' goes h h' = tt
Holds-both p q r f (some a) none goes h h' = tt
Holds-both p q r f (some a) (some b) goes h h' = goes a b h h'

module _ (is_float : ℕ → Bool) (encode : ℕ → Option Value) where
  -- What `encode` gives is JSON. A float is itself, as `json` reads it back.
  abbrev pub Faithful : Type 0
  Faithful = (n : ℕ) → Holds (is_plain is_float) (encode n)

  mutual
    unfolding encoded is_plain

    encoded-is_plain : Faithful → (v : Value) → Holds (is_plain is_float) (encoded encode v)
    encoded-is_plain faithful null = refl
    encoded-is_plain faithful (bool b) = refl
    encoded-is_plain faithful (int negative n) = refl
    encoded-is_plain faithful (text s) = refl
    encoded-is_plain faithful (arr items) =
        Holds-map (are_plain is_float) (is_plain is_float) arr _ (λ a h. h)
          (encoded_items-are_plain faithful items)
    encoded-is_plain faithful (obj fields) =
        Holds-map (plain_fields is_float) (is_plain is_float) obj _ (λ a h. h)
          (encoded_fields-plain_fields faithful fields)
    encoded-is_plain faithful (opaque n) = faithful n

    encoded_items-are_plain :
        Faithful → (items : Items) → Holds (are_plain is_float) (encoded_items encode items)
    encoded_items-are_plain faithful nil = refl
    encoded_items-are_plain faithful (item v items) =
        Holds-both (is_plain is_float) (are_plain is_float) (are_plain is_float) item _ _
          (λ a b h h'. ground arith) (encoded-is_plain faithful v)
          (encoded_items-are_plain faithful items)

    encoded_fields-plain_fields :
        Faithful → (fields : Fields) → Holds (plain_fields is_float) (encoded_fields encode fields)
    encoded_fields-plain_fields faithful end = refl
    encoded_fields-plain_fields faithful (field k v fields) =
        Holds-both (is_plain is_float) (plain_fields is_float) (plain_fields is_float) (field k) _ _
          (λ a b h h'. ground arith) (encoded-is_plain faithful v)
          (encoded_fields-plain_fields faithful fields)

module _ (encode : ℕ → Option Value) where
  mutual
    unfolding encoded is_plain

    encoded_same : (v : Value) → is_plain (λ n. false) v ≡ true → encoded encode v ≡ some v
    encoded_same null h = refl
    encoded_same (bool b) h = refl
    encoded_same (int negative n) h = refl
    encoded_same (text s) h = refl
    encoded_same (arr items) h = ap (Option.map arr) (encoded_items_same items h)
    encoded_same (obj fields) h = ap (Option.map obj) (encoded_fields_same fields h)
    encoded_same (opaque n) h = cc

    encoded_items_same :
        (items : Items)
        → are_plain (λ n. false) items ≡ true
        → encoded_items encode items ≡ some items
    encoded_items_same nil h = refl
    encoded_items_same (item v items) h =
        rw (encoded_same v (ground arith)) (rw (encoded_items_same items (ground arith)))

    encoded_fields_same :
        (fields : Fields)
        → plain_fields (λ n. false) fields ≡ true
        → encoded_fields encode fields ≡ some fields
    encoded_fields_same end h = refl
    encoded_fields_same (field k v fields) h =
        rw (encoded_same v (ground arith)) (rw (encoded_fields_same fields (ground arith)))

module _ (is_float : ℕ → Bool) (encode : ℕ → Option Value) (repr : Value → String)
    (faithful : Faithful is_float encode) where
  pub jsonable-is_plain : (v : Value) → (is_plain is_float) (jsonable encode repr v) ≡ true
  unfolding jsonable is_plain
  jsonable-is_plain v = by_case (encoded encode v) (encoded-is_plain is_float encode faithful v)
    where
      by_case :
          (o : Option Value)
          → Holds (is_plain is_float) o
          → (is_plain is_float) (elim o [ none ↦ text (repr v) | some w ↦ w ]) ≡ true
      by_case none h = refl
      by_case (some w) h = h

-- every payload and metadata value of the message is of JSON's own types, without floats
abbrev pub IsPlain : Message → Type 0
IsPlain m =
    (is_plain (λ n. false) m.payload ≡ true)
    × All (λ e. is_plain (λ n. false) e.1 ≡ true) m.metadata

module _ (encode : ℕ → Option Value) (repr : Value → String) where
  jsonable_same : (v : Value) → is_plain (λ n. false) v ≡ true → jsonable encode repr v ≡ v
  unfolding jsonable
  jsonable_same v h = rw (jsonable, encoded_same encode v h)

  metadata_same :
      (d : Dict Value)
      → All (λ e. is_plain (λ n. false) e.1 ≡ true) d
      → map (λ e. (e.0, jsonable encode repr e.1)) d ≡ d
  metadata_same [] h = refl
  metadata_same ((k, v) ∷ d) (h, hs) = rw (jsonable_same v h) (rw (metadata_same d hs))

  -- The GUI shows a message whose payload and metadata are JSON as `Message.to_dict` does, and
  -- `Message.from_dict` of what it shows gives the message back.
  pub message_json-to_dict :
      (m : Message)
      → IsPlain m
      → (fs : Fields) × (message_json encode repr m ≡ obj fs)
        × (fs ≡ message_to_dict m)
        × (message_from_dict fs ≡ ok m)
  unfolding message_json message_to_dict
  message_json-to_dict m (h, hs) = (
    message_to_dict m,
    rw (jsonable_same m.payload h) (rw (metadata_same m.metadata hs)),
    refl,
    from_dict-to_dict m,
  )
