-- ===== src/Integrations/Allowlist.antt =====
-- titoos/integrations/base.py: `normalize_allowlist` and `redact`. A set is the list of its elements.
use tito_os.Prelude.{
  String, List, [], ◌∷◌, map, Option, none, some, eq_iff, ◌==◌, ◌≡◌, refl, if◌then◌else◌, is_empty,
  elem, Bool-cases, inl, inr,
}
use tito_os.Strings.{lower, strip}
use tito_os.Errors.{Result, ok, err, empty_allowlist}
use tito_os.Dict
use tito_os.Dict.{Dict}
use tito_os.Message.{Value, text}

-- the entries that are not blank, without their blanks, in small letters
unfoldable pub normalized_entries : List String → List String
unfolding lower strip
normalized_entries [] = []
normalized_entries (v ∷ values) =
    let others = normalized_entries values in
    if strip v == "" then others else lower (strip v) ∷ others

-- `normalize_allowlist`
unfoldable pub normalize_allowlist : List String → String → Result (List String)
unfolding normalized_entries
normalize_allowlist values what =
    if is_empty (normalized_entries values)
    then err (empty_allowlist what)
    else ok (normalized_entries values)

-- `redact`
unfoldable pub redact : Dict Value → List String → Dict Value
unfolding lower
redact [] keys = []
redact ((k, v) ∷ d) keys =
    (k, if elem (lower k) (map lower keys) then text "***" else v) ∷ redact d keys

keys-redact : (d : Dict Value) (keys : List String) → Dict.keys (redact d keys) ≡ Dict.keys d
unfolding redact
keys-redact [] keys = refl
keys-redact ((k, v) ∷ d) keys = rw (keys-redact d keys)

abbrev pub shown : List String → String → Option Value → Option Value
shown keys k none = none
shown keys k (some v) = some (if elem (lower k) (map lower keys) then text "***" else v)

get-redact :
    (k : String) (d : Dict Value) (keys : List String)
    → Dict.get k (redact d keys) ≡ shown keys k (Dict.get k d)
unfolding redact Dict.get
get-redact k [] keys = refl
get-redact k ((j, v) ∷ d) keys = elim (Bool-cases (j == k)) [
  | inl same ↦ rw (same, (eq_iff j k).0 same)
  | inr other ↦ rw (other, get-redact k d keys)
]

-- A redacted mapping has the keys of the mapping, in their order; a key that is secret in any case
-- of its letters reads as the placeholder, and any other as it was.
pub redact_lem :
    (d : Dict Value) (keys : List String)
    → (Dict.keys (redact d keys) ≡ Dict.keys d)
      × ((k : String) → Dict.get k (redact d keys) ≡ shown keys k (Dict.get k d))
redact_lem d keys = (keys-redact d keys, λ k. get-redact k d keys)
