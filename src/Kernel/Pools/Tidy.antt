-- ===== src/Kernel/Pools/Tidy.antt =====
-- That the backends of titoos/backends.py leave no pool behind.
use tito_os.Prelude.{
  ℕ, zero, suc, List, [], ◌∷◌, Option, none, some, leb, ◌≡◌, refl, ap, sym, ◌∙◌, subst, Bool-cases,
  inl, inr, All,
}
use tito_os.Kernel.Pools.{
  Pools, no_pools, chosen, released, executor, submit_all, run_in_threads, run_in_loop, release,
  Use, in_threads, in_loop, shutdown, use_pools, use_all,
}

-- `n - 1`, ..., 0
unfoldable pub below : ℕ → List ℕ
below zero = []
below (suc n) = n ∷ below n

-- Every pool that was made was shut, once and in its turn, but the last one if it is the current.
pub record IsTidy (p : Pools) : Type 0 where
  pub open_none : p.current ≡ none → p.shut ≡ below p.made
  pub open_one : (i : ℕ) → p.current ≡ some i → (p.made ≡ suc i) × (p.shut ≡ below i)

-- what was submitted went to the pool that is current now
abbrev pub IsOpen : List ℕ × Pools → Type 0
IsOpen x = All (λ i. x.1.current ≡ some i) x.0

executor-some : (p : Pools) (i : ℕ) → p.current ≡ some i → executor p ≡ (i, p)
unfolding executor
executor-some p i e = ap (λ o. chosen o p) e

executor-none :
    (p : Pools)
    → p.current ≡ none
    → executor p ≡ (p.made, record p { current = some p.made; made = suc p.made })
unfolding executor
executor-none p e = ap (λ o. chosen o p) e

abbrev Good : ℕ × Pools → Type 0
Good x = IsTidy x.1 × (x.1.current ≡ some x.0)

executor-Good : (p : Pools) → IsTidy p → Good (executor p)
executor-Good p t = by_current p.current refl
  where
    by_current : (o : Option ℕ) → p.current ≡ o → Good (executor p)
    by_current (some i) e = subst Good (sym (executor-some p i e)) (t, e)
    by_current none e = subst Good (sym (executor-none p e)) (
      record {
        open_none = λ h. absurd cc;
        open_one =
            λ i h. let same : p.made ≡ i = cc in (ap suc same, t.open_none e ∙ ap below same);
      },
      refl,
    )

submit_all-same :
    (n : ℕ) (p : Pools) (i : ℕ)
    → p.current ≡ some i
    → ((submit_all n p).1 ≡ p) × All (λ j. p.current ≡ some j) (submit_all n p).0
unfolding submit_all
submit_all-same zero p i e = (refl, tt)
submit_all-same (suc n) p i e =
    let (same, all) = submit_all-same n p i e in
    rw (submit_all, executor-some p i e) (same, (e, all))

-- the first agent makes the pool, the others find it
submit_all-IsOpen :
    (n : ℕ) (p : Pools) → IsTidy p → IsTidy (submit_all n p).1 × IsOpen (submit_all n p)
unfolding submit_all
submit_all-IsOpen zero p t = (t, tt)
submit_all-IsOpen (suc n) p t =
    let (tidy, now) = executor-Good p t in
    let (same, all) = submit_all-same n (executor p).1 (executor p).0 now in
    (
      subst IsTidy (sym same) tidy,
      (
        ap (λ x. x.current) same ∙ now,
        subst (λ x. All (λ j. x.current ≡ some j) (submit_all n (executor p).1).0) (sym same) all,
      ),
    )

release-IsTidy : (p : Pools) → IsTidy p → IsTidy (release p)
unfolding release below
release-IsTidy p t = by_current p.current refl
  where
    by_current : (o : Option ℕ) → p.current ≡ o → IsTidy (release p)
    by_current none e = subst IsTidy (sym (ap (λ o. released o p) e)) t
    by_current (some i) e =
        let (made, shut) = t.open_one i e in
        subst IsTidy (sym (ap (λ o. released o p) e)) (record {
          open_none = λ h. ap (λ xs. i ∷ xs) shut ∙ ap below (sym made);
          open_one = λ j h. absurd cc;
        })

use_pools-IsTidy :
    (u : Use) (p : Pools) → IsTidy p → IsTidy (use_pools u p).1 × IsOpen (use_pools u p)
unfolding use_pools run_in_threads run_in_loop
use_pools-IsTidy shutdown p t = (release-IsTidy p t, tt)
use_pools-IsTidy (in_loop zero) p t = (t, tt)
use_pools-IsTidy (in_loop (suc n)) p t = let (tidy, now) = executor-Good p t in (tidy, (now, tt))
use_pools-IsTidy (in_threads n) p t = elim (Bool-cases (leb 2 n)) [
  | inl many ↦ rw (use_pools, run_in_threads, many) (submit_all-IsOpen n p t)
  | inr few ↦ rw (use_pools, run_in_threads, few) (t, tt)
]

use_all-IsTidy : (uses : List Use) (p : Pools) → IsTidy p → IsTidy (use_all uses p)
unfolding use_all
use_all-IsTidy [] p t = t
use_all-IsTidy (u ∷ uses) p t = use_all-IsTidy uses (use_pools u p).1 (use_pools-IsTidy u p t).0

-- Whatever ticks and shutdowns a backend has seen: every pool or loop that it made was shut down
-- once and in its turn, but the last one where it is the current one; the agents of the next tick go
-- to the current one and to no other; and a shutdown leaves none open.
pub use_all-IsOpen :
    (uses : List Use) (u : Use)
    → IsTidy (use_all uses no_pools)
      × IsOpen (use_pools u (use_all uses no_pools))
      × ((release (use_all uses no_pools)).shut ≡ below (release (use_all uses no_pools)).made)
unfolding release below
use_all-IsOpen uses u =
    let tidy = use_all-IsTidy uses no_pools empty in
    (
      tidy,
      (use_pools-IsTidy u (use_all uses no_pools) tidy).1,
      (release-IsTidy (use_all uses no_pools) tidy).open_none (none_left (use_all uses no_pools)),
    )
  where
    empty : IsTidy no_pools
    empty = record { open_none = λ h. refl; open_one = λ i h. absurd cc }

    none_left : (p : Pools) → (release p).current ≡ none
    none_left p = by_current p.current refl
      where
        by_current : (o : Option ℕ) → p.current ≡ o → (release p).current ≡ none
        by_current none e = ap (λ o. (released o p).current) e ∙ e
        by_current (some i) e = ap (λ o. (released o p).current) e
