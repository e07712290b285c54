-- ===== src/Dict.antt =====
-- Python's `dict` with string keys, as the code uses it: an association list in insertion order. A
-- write to a key that is present keeps its place, a write to a new key goes to the end.
pub mod Laws
use tito_os.Prelude.{
  String, Bool, true, false, List, [], ◌∷◌, map, Option, none, some, ◌==◌, if◌then◌else◌, is_some,
  elem, not, ◌&&◌, ◌≡◌,
}

abbrev pub Dict {ℓ} : Type ℓ → Type ℓ
Dict V = List (String × V)

module _ {ℓ} {V : Type ℓ} where
  -- `d.get(key)`
  unfoldable pub get : String → Dict V → Option V
  get key [] = none
  get key ((k, v) ∷ d) = if k == key then some v else get key d

  -- `key in d`
  abbrev pub contains : String → Dict V → Bool
  contains key d = is_some (get key d)

  -- `d[key] = value`
  unfoldable pub set : String → V → Dict V → Dict V
  set key value [] = (key, value) ∷ []
  set key value ((k, v) ∷ d) = if k == key then (k, value) ∷ d else (k, v) ∷ set key value d

  -- `d.pop(key, None)`, without the value
  unfoldable pub pop : String → Dict V → Dict V
  pop key [] = []
  pop key ((k, v) ∷ d) = let rest = pop key d in if k == key then rest else (k, v) ∷ rest

  -- changes in place the object that `key` refers to
  unfoldable pub modify : String → (V → V) → Dict V → Dict V
  modify key f [] = []
  modify key f ((k, v) ∷ d) = (k, if k == key then f v else v) ∷ modify key f d

  -- `tuple(d)`
  abbrev pub keys : Dict V → List String
  keys = map (λ e. e.0)

  -- `d.values()`
  abbrev pub values : Dict V → List V
  values = map (λ e. e.1)

-- No key stands twice.
abbrev pub Distinct : List String → Type 0
Distinct [] = Unit
Distinct (k ∷ ks) = (elem k ks ≡ false) × Distinct ks
