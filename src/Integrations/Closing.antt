-- ===== src/Integrations/Closing.antt =====
-- Closing all integrations of a registry, and calls through the registry.
use tito_os.Prelude.{
  String, false, List, [], ◌∷◌, map, Option, none, some, ◌≡◌, refl, ◌==◌, elem, arith, eq_refl,
}
use tito_os.Errors.{Result, Error}
use tito_os.Dict
use tito_os.Dict.Laws.{get-set, keys-set_present, set_same}
use tito_os.Message.{Value}
use tito_os.Integrations.{
  Integration, Registry, call, get, call_named, first_raised, close_each, close_all,
}

abbrev pub first_error : List (Option Error) → Option Error
first_error [] = none
first_error (none ∷ rest) = first_error rest
first_error (some e ∷ rest) = some e

raised :
    (o : Option Error) (errors : List Error) (all : List (Option Error))
    → first_raised errors ≡ first_error all
    → first_raised (elim o [ none ↦ errors | some x ↦ x ∷ errors ]) ≡ first_error (o ∷ all)
raised none errors all h = h
raised (some e) errors all h = refl

module _ {D : Type 0} where
  -- the registry after `close` has run on every driver
  abbrev pub all_closed : (D → Option Error × D) → Registry D → Registry D
  all_closed close = map (λ e. (e.0, record e.1 { device = (close e.1.device).1 }))

  devices-close_each :
      (close : D → Option Error × D) (r : Registry D) → (close_each close r).2 ≡ all_closed close r
  unfolding close_each
  devices-close_each close [] = refl
  devices-close_each close ((n, i) ∷ r) = rw (devices-close_each close r)

  names-close_each :
      (close : D → Option Error × D) (r : Registry D) → (close_each close r).1 ≡ Dict.keys r
  unfolding close_each
  names-close_each close [] = refl
  names-close_each close ((n, i) ∷ r) = rw (names-close_each close r)

  errors-close_each :
      (close : D → Option Error × D) (r : Registry D)
      → first_raised (close_each close r).0 ≡ first_error (map (λ e. (close e.1.device).0) r)
  unfolding close_each
  errors-close_each close [] = refl
  errors-close_each close ((n, i) ∷ r) =
      raised (close i.device).0 (close_each close r).0 (map (λ e. (close e.1.device).0) r)
        (errors-close_each close r)

  -- Closing the registry closes every integration in it, those after one whose `close` raised too,
  -- and raises the first error in the order of installation, or none when no `close` raised.
  pub close_all_lem :
      (close : D → Option Error × D) (r : Registry D)
      → close_all close r
        ≡ (first_error (map (λ e. (close e.1.device).0) r), Dict.keys r, all_closed close r)
  unfolding close_all
  close_all_lem close r =
      rw (errors-close_each close r, names-close_each close r, devices-close_each close r)

  call_named-missing :
      (perform : D → String → Value → Result Value × D)
      → (name operation : String) (arguments : Value) (r : Registry D) → Dict.get name r ≡ none
      → (call_named perform name operation arguments r).1 ≡ r
  unfolding call_named get
  call_named-missing perform name operation arguments r e = rw (e, call_named, get)

  call_named-found :
      (perform : D → String → Value → Result Value × D)
      → (name operation : String) (arguments : Value) (r : Registry D) (i : Integration D)
      → Dict.get name r ≡ some i
      → (call_named perform name operation arguments r).1
        ≡ Dict.set name (call perform i operation arguments).1 r
  unfolding call_named get
  call_named-found perform name operation arguments r i e = rw (e, call_named, get)

  call-denied :
      (perform : D → String → Value → Result Value × D)
      → (operation : String) (arguments : Value) (i : Integration D)
      → elem operation i.operations ≡ false
      → (call perform i operation arguments).1 ≡ i
  unfolding call
  call-denied perform operation arguments i h = rw h

  call-surface :
      (perform : D → String → Value → Result Value × D)
      → (operation : String) (arguments : Value) (i : Integration D)
      → ((call perform i operation arguments).1.name ≡ i.name)
        × ((call perform i operation arguments).1.operations ≡ i.operations)
  unfolding call
  call-surface perform operation arguments i = ground arith

  -- what a call through the registry can do to it
  pub record IsGuarded (name operation : String) (r r' : Registry D) : Type 0 where
    pub keys : Dict.keys r' ≡ Dict.keys r
    pub others : (j : String) → (name == j) ≡ false → Dict.get j r' ≡ Dict.get j r
    pub unadvertised :
        (i : Integration D)
        → Dict.get name r ≡ some i
        → elem operation i.operations ≡ false
        → r' ≡ r
    pub surface :
        (i i' : Integration D)
        → Dict.get name r ≡ some i
        → Dict.get name r' ≡ some i'
        → (i'.name ≡ i.name) × (i'.operations ≡ i.operations)

  -- A call by name keeps the integrations that are installed and what each one advertises, leaves
  -- every other driver alone, and reaches no driver when the operation is not advertised.
  pub call_named-IsGuarded :
      (perform : D → String → Value → Result Value × D)
      → (name operation : String) (arguments : Value) (r : Registry D)
      → IsGuarded name operation r (call_named perform name operation arguments r).1
  call_named-IsGuarded perform name operation arguments r = split (Dict.get name r) refl
    where
      split :
          (o : Option (Integration D))
          → Dict.get name r ≡ o
          → IsGuarded name operation r (call_named perform name operation arguments r).1
      split none e = rw (call_named-missing perform name operation arguments r e) (record {
        keys = refl;
        others = λ j other. refl;
        unadvertised = λ i found denied. refl;
        surface = λ i i' found found'. (cc, cc);
      })
      split (some i) e = rw (call_named-found perform name operation arguments r i e) (record {
        keys = keys-set_present name _ r (rw e);
        others = λ j other. rw (get-set name j, other);
        unadvertised = λ i' found denied.
            let same : i ≡ i' = cc in
            rw (call-denied perform operation arguments i (rw same denied)) (set_same name i r e);
        surface = λ i' j found found'.
            let written : Dict.get name (Dict.set name (call perform i operation arguments).1 r)
                ≡ some (call perform i operation arguments).1 =
              rw (get-set name name, eq_refl name) in
            let (same_name, same_operations) = call-surface perform operation arguments i in
            (cc, cc);
      })
