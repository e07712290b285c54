-- ===== src/Dict/Laws.antt =====
-- What a read sees after each write.
use tito_os.Prelude.{
  true, String, false, [], ◌∷◌, ◌++◌, Option, none, some, ◌==◌, if◌then◌else◌, elem, ◌≡◌, refl,
  arith, eq_iff, ◌||◌, ◌⊎◌, inl, inr, Bool-cases, All,
}
use tito_os.Dict.{Dict, get, contains, set, pop, modify, keys, Distinct}

abbrev pub map_some {ℓ} : {V : Type ℓ} → (V → V) → Option V → Option V
map_some f none = none
map_some f (some v) = some (f v)

module _ {ℓ} {V : Type ℓ} where
  pub get-set :
      (key j : String) (value : V) (d : Dict V)
      → get j (set key value d) ≡ (if key == j then some value else get j d)
  unfolding get set
  get-set key j value [] = refl
  get-set key j value ((k, v) ∷ d) =
      ground (arith, eq_iff k key, eq_iff k j, eq_iff key j, get-set key j value d)

  pub get-pop :
      (key j : String) (d : Dict V) → get j (pop key d) ≡ (if key == j then none else get j d)
  unfolding get pop
  get-pop key j [] = ground arith
  get-pop key j ((k, v) ∷ d) =
      ground (arith, eq_iff k key, eq_iff k j, eq_iff key j, get-pop key j d)

  pub get-modify :
      (key j : String) (f : V → V) (d : Dict V)
      → get j (modify key f d) ≡ (if key == j then map_some f (get j d) else get j d)
  unfolding get modify
  get-modify key j f [] = ground arith
  get-modify key j f ((k, v) ∷ d) =
      ground (arith, eq_iff k key, eq_iff k j, eq_iff key j, get-modify key j f d)

  -- a key is listed exactly when a read finds it
  pub elem-keys : (j : String) (d : Dict V) → elem j (keys d) ≡ contains j d
  unfolding get
  elem-keys j [] = refl
  elem-keys j ((k, v) ∷ d) = ground (arith, elem-keys j d)

  pub keys-modify : (key : String) (f : V → V) (d : Dict V) → keys (modify key f d) ≡ keys d
  unfolding modify
  keys-modify key f [] = refl
  keys-modify key f ((k, v) ∷ d) = ground (arith, keys-modify key f d)

  elem-keys-set :
      (key j : String) (value : V) (d : Dict V)
      → elem j (keys (set key value d)) ≡ (key == j || elem j (keys d))
  unfolding set
  elem-keys-set key j value [] = refl
  elem-keys-set key j value ((k, v) ∷ d) =
      ground (arith, eq_iff k key, eq_iff k j, eq_iff key j, elem-keys-set key j value d)

  pub Distinct-set :
      (key : String) (value : V) (d : Dict V)
      → Distinct (keys d)
      → Distinct (keys (set key value d))
  unfolding set
  Distinct-set key value [] h = (refl, tt)
  Distinct-set key value ((k, v) ∷ d) h =
      ground (
        arith,
        eq_iff k key,
        eq_iff key k,
        elem-keys-set key k value d,
        Distinct-set key value d h.1,
      )

  pub set_absent :
      (key : String) (value : V) (d : Dict V)
      → elem key (keys d) ≡ false
      → set key value d ≡ d ++ (key, value) ∷ []
  unfolding set
  set_absent key value [] h = refl
  set_absent key value ((k, v) ∷ d) h = ground (arith, set_absent key value d)

  pub keys-set_present :
      (key : String) (value : V) (d : Dict V)
      → contains key d ≡ true
      → keys (set key value d) ≡ keys d
  unfolding get set
  keys-set_present key value [] h = absurd (ground arith)
  keys-set_present key value ((k, v) ∷ d) h =
      ground (arith, eq_iff k key, keys-set_present key value d)

  pub set_same :
      (key : String) (value : V) (d : Dict V) → get key d ≡ some value → set key value d ≡ d
  unfolding get set
  set_same key value [] h = absurd (ground arith)
  set_same key value ((k, v) ∷ d) h = ground (arith, eq_iff k key, set_same key value d)

  -- writing a new key, and then changing what it refers to
  pub modify-set_absent :
      (key : String) (f : V → V) (value : V) (d : Dict V)
      → elem key (keys d) ≡ false
      → modify key f (set key value d) ≡ d ++ (key, f value) ∷ []
  unfolding set modify
  modify-set_absent key f value [] h = ground (arith, eq_iff key key)
  modify-set_absent key f value ((k, v) ∷ d) h =
      ground (arith, eq_iff k key, modify-set_absent key f value d)

  elem-keys-pop :
      (key j : String) (d : Dict V) → elem j (keys d) ≡ false → elem j (keys (pop key d)) ≡ false
  unfolding pop
  elem-keys-pop key j [] h = refl
  elem-keys-pop key j ((k, v) ∷ d) h = ground (arith, elem-keys-pop key j d)

  pub Distinct-pop : (key : String) (d : Dict V) → Distinct (keys d) → Distinct (keys (pop key d))
  unfolding pop
  Distinct-pop key [] h = tt
  Distinct-pop key ((k, v) ∷ d) h = elim (Bool-cases (k == key)) [
    | inl same ↦ rw same (Distinct-pop key d h.1)
    | inr other ↦ rw other (elem-keys-pop key k d h.0, Distinct-pop key d h.1)
  ]

  pub pop_absent : (key : String) (d : Dict V) → elem key (keys d) ≡ false → pop key d ≡ d
  unfolding pop
  pop_absent key [] h = refl
  pop_absent key ((k, v) ∷ d) h = ground (arith, eq_iff k key, eq_iff key k, pop_absent key d)

  pub elem-keys-append :
      (j : String) (d e : Dict V) → elem j (keys (d ++ e)) ≡ (elem j (keys d) || elem j (keys e))
  elem-keys-append j [] e = refl
  elem-keys-append j ((k, v) ∷ d) e = ground (arith, elem-keys-append j d e)

  pub keys-append : (d e : Dict V) → keys (d ++ e) ≡ keys d ++ keys e
  keys-append [] e = refl
  keys-append ((k, v) ∷ d) e = rw (keys-append d e)

  -- the key of an entry does not stand before it
  pub Distinct-before :
      (d e : Dict V) (key : String) (value : V)
      → Distinct (keys (d ++ (key, value) ∷ e))
      → elem key (keys d) ≡ false
  Distinct-before [] e key value h = refl
  Distinct-before ((k, v) ∷ d) e key value h = ground (
    arith,
    eq_iff k key,
    eq_iff key k,
    elem-keys-append k d ((key, value) ∷ e),
    Distinct-before d e key value h.1,
  )

  -- Where a value that a changed dictionary holds comes from.
  pub get-modify_inv :
      (key j : String) (f : V → V) (d : Dict V) {v : V}
      → get j (modify key f d) ≡ some v
      → (w : V) × (get j d ≡ some w) × (((key ≡ j) × (v ≡ f w)) ⊎ (((key == j) ≡ false) × (v ≡ w)))
  get-modify_inv key j f d {v} h = split (get j d) refl
    where
      split :
          (o : Option V)
          → get j d ≡ o
          → (w : V) × (get j d ≡ some w)
            × (((key ≡ j) × (v ≡ f w)) ⊎ (((key == j) ≡ false) × (v ≡ w)))
      split none e = absurd (ground (arith, get-modify key j f d))
      split (some w) e = elim (Bool-cases (key == j)) [
        | inl same ↦ (w, e, inl ((eq_iff key j).0 same, ground (arith, get-modify key j f d)))
        | inr other ↦ (w, e, inr (other, ground (arith, get-modify key j f d)))
      ]

  pub get-set_inv :
      (key j : String) (value : V) (d : Dict V) {v : V}
      → get j (set key value d) ≡ some v
      → ((key ≡ j) × (v ≡ value)) ⊎ (((key == j) ≡ false) × (get j d ≡ some v))
  get-set_inv key j value d h = elim (Bool-cases (key == j)) [
    | inl same ↦ inl ((eq_iff key j).0 same, ground (arith, get-set key j value d))
    | inr other ↦ inr (other, ground (arith, get-set key j value d))
  ]

  get_later :
      (k : String) (v : V) (d e : Dict V)
      → elem k (keys e) ≡ false
      → All (λ x. get x.0 d ≡ some x.1) e
      → All (λ x. get x.0 ((k, v) ∷ d) ≡ some x.1) e
  unfolding get
  get_later k v d [] h all = tt
  get_later k v d ((j, w) ∷ e) h all =
      (ground (arith, eq_iff k j, eq_iff j k, all.0), get_later k v d e (ground arith) all.1)

  -- in a dictionary without double keys a read finds every entry
  pub All-entries : (d : Dict V) → Distinct (keys d) → All (λ x. get x.0 d ≡ some x.1) d
  All-entries [] h = tt
  All-entries ((k, v) ∷ d) h =
      (unfold get in ground (arith, eq_iff k k), get_later k v d d h.0 (All-entries d h.1))
