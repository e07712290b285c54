-- ===== src/Kernel/Closing.antt =====
-- What a shutdown closes.
use tito_os.Prelude.{
  ℕ, zero, suc, Bool, false, List, [], ◌∷◌, ◌++◌, map, Option, none, some, ◌≡◌, refl, ap, nat_eq,
  ◌||◌, ◌&&◌, not, arith,
}
use tito_os.Errors.{Error}
use tito_os.Dict
use tito_os.Integrations.Closing.{first_error, close_all_lem}
use tito_os.Kernel.Shutdown.{
  Closing, as_raised, pool, driver, adapter, Resources, nat_elem, shared_once, close_each_adapter,
  as_one, close_adapters, close_drivers, or_later, close_resources, after_pool, shutdown_blocking,
  Lifetime, shutdown_later,
}

-- no adapter stands twice
abbrev pub Once : List ℕ → Type 0
Once [] = Unit
Once (a ∷ rest) = (nat_elem a rest ≡ false) × Once rest

abbrev pub named_by : ℕ → List (Option ℕ) → Bool
named_by a [] = false
named_by a (none ∷ rest) = named_by a rest
named_by a (some b ∷ rest) = nat_eq b a || named_by a rest

nat_elem-shared_once :
    (a : ℕ) (l : List (Option ℕ)) (seen : List ℕ)
    → nat_elem a (shared_once l seen) ≡ (named_by a l && not (nat_elem a seen))
unfolding shared_once
nat_elem-shared_once a [] seen = refl
nat_elem-shared_once a (none ∷ l) seen = nat_elem-shared_once a l seen
nat_elem-shared_once a (some b ∷ l) seen =
    ground (arith, nat_elem-shared_once a l seen, nat_elem-shared_once a l (b ∷ seen))

shared_once-Once : (l : List (Option ℕ)) (seen : List ℕ) → Once (shared_once l seen)
unfolding shared_once
shared_once-Once [] seen = tt
shared_once-Once (none ∷ l) seen = shared_once-Once l seen
shared_once-Once (some a ∷ l) seen = ground (
  arith,
  shared_once-Once l seen,
  shared_once-Once l (a ∷ seen),
  nat_elem-shared_once a l (a ∷ seen),
)

-- the errors among the results of several closings
abbrev pub all_raised : List (Option Error) → List Error
all_raised [] = []
all_raised (none ∷ rest) = all_raised rest
all_raised (some e ∷ rest) = e ∷ all_raised rest

-- every adapter is closed, those after one that raised too
close_each_adapter_lem :
    (close : ℕ → Option Error) (l : List ℕ)
    → close_each_adapter close l ≡ (all_raised (map close l), l)
unfolding close_each_adapter
close_each_adapter_lem close [] = refl
close_each_adapter_lem close (a ∷ l) =
    by_result (close a) (close_each_adapter close l) (close_each_adapter_lem close l)
  where
    by_result :
        (o : Option Error) (rest : List Error × List ℕ)
        → rest ≡ (all_raised (map close l), l)
        → ◌≡◌ {A = List Error × List ℕ}
            (elim o [ none ↦ rest.0 | some e ↦ e ∷ rest.0 ], a ∷ rest.1)
            (all_raised (o ∷ map close l), a ∷ l)
    by_result none rest h = ap (λ x. (x.0, a ∷ x.1)) h
    by_result (some e) rest h = ap (λ x. (e ∷ x.0, a ∷ x.1)) h

abbrev pub repeat_later : ℕ → Lifetime → Lifetime
repeat_later zero life = life
repeat_later (suc n) life = repeat_later n (shutdown_later life)

module _ {D : Type 0} where
  -- everything that the kernel holds, each thing once, the pool first
  abbrev pub everything : Resources D → List Closing
  everything r = pool ∷ map driver (Dict.keys r.registry) ++ map adapter (shared_once r.adapters [])

  -- A blocking shutdown closes the pool, then every driver, then every adapter, whichever of them
  -- raise; it raises the error of the pool, or else the first of the drivers, or else one that
  -- carries those of the adapters.
  pub shutdown_blocking_lem :
      (r : Resources D)
      → shutdown_blocking r ≡ (
        or_later (as_raised r.pool_error) (
            or_later
              (as_raised (first_error (map (λ e. (r.close e.1.device).0) r.registry)))
              (as_one (all_raised (map r.close_adapter (shared_once r.adapters []))))),
        everything r,
      )
  unfolding shutdown_blocking close_resources close_drivers close_adapters
  shutdown_blocking_lem r = by_pool r.pool_error
    where
      by_pool :
          (o : Option Error)
          → after_pool o r ≡ (
            or_later (as_raised o) (
                or_later
                  (as_raised (first_error (map (λ e. (r.close e.1.device).0) r.registry)))
                  (as_one (all_raised (map r.close_adapter (shared_once r.adapters []))))),
            everything r,
          )
      by_pool none = rw (
        close_all_lem r.close r.registry,
        close_each_adapter_lem r.close_adapter (shared_once r.adapters []),
      )
      by_pool (some e) = rw (
        close_all_lem r.close r.registry,
        close_each_adapter_lem r.close_adapter (shared_once r.adapters []),
      )

  -- Each adapter of an agent is closed once, however many agents share it, and no other.
  pub shared_once_lem :
      (r : Resources D)
      → Once (shared_once r.adapters [])
        × ((a : ℕ) → nat_elem a (shared_once r.adapters []) ≡ named_by a r.adapters)
  shared_once_lem r =
      (shared_once-Once r.adapters [], λ a. ground (arith, nat_elem-shared_once a r.adapters []))
