-- ===== src/Gui/Lifecycle/Served.antt =====
-- Every interleaving of `start`, `serve_forever` and `stop` of titoos/gui/server.py.
use tito_os.Prelude.{
  Bool, true, false, ◌||◌, ◌&&◌, not, none, some, ◌≡◌, refl, arith, Bool-cases, inl, inr, subst,
  sym, ap,
}
use tito_os.Gui.Lifecycle.{
  Who, background, caller, Phase, away, entering, looping, is_looping, is_away, Life, phase_of,
  set_phase, start, enter, leave, serve_forever, thread_ends,
}
use tito_os.Gui.Lifecycle.Quiet.{
  Quiet, IsQuiet, Quiet-enter_background, Quiet-enter_caller, Quiet-leave,
}

-- the state of the fields, whichever threads are in the loop
abbrev With : Life → Bool → Bool → Type 0
With l b c = Quiet b c l.serving l.serve_thread l.stopped l.stop l.is_closed

With-path : (l : Life) {b c b' c' : Bool} → b ≡ b' → c ≡ c' → With l b c → With l b' c'
With-path l {c = c} {b' = b'} h k q = subst (With l b') k (subst (λ x. With l x c) h q)

pub start-IsQuiet : (l : Life) → IsQuiet l → IsQuiet (start l)
unfolding start
start-IsQuiet l (q, unmade) = elim (Bool-cases (l.has_thread || l.stopped)) [
  | inl refused ↦ rw (start, refused) (q, unmade)
  | inr fine ↦
      let still : l.started_thread ≡ away = unmade (ground arith) (ground arith) in
      rw (start, fine) (With-path l (ap is_looping still) refl q, λ h. absurd cc)
]

is_away-path : (p : Phase) → is_away p ≡ true → p ≡ away
is_away-path away h = refl
is_away-path entering h = absurd cc
is_away-path looping h = absurd cc

pub serve_forever-IsQuiet : (l : Life) → IsQuiet l → IsQuiet (serve_forever l)
unfolding serve_forever
serve_forever-IsQuiet l (q, unmade) =
    elim (Bool-cases (is_away l.calling_thread && not l.caller_over)) [
      | inr inside ↦ rw (serve_forever, inside) (q, unmade)
      | inl free ↦
          let still : l.calling_thread ≡ away = is_away-path l.calling_thread (ground arith) in
          rw (serve_forever, free) (With-path l refl (ap is_looping still) q, unmade)
    ]

pub thread_ends-IsQuiet : (l : Life) → IsQuiet l → IsQuiet (thread_ends l)
unfolding thread_ends
thread_ends-IsQuiet l (q, unmade) = elim (Bool-cases (is_away l.calling_thread)) [
  | inl out ↦ rw (thread_ends, out) (q, unmade)
  | inr inside ↦ rw (thread_ends, inside) (q, unmade)
]

-- a thread that does not serve gives up
give_up-IsQuiet :
    (who : Who) (l : Life)
    → is_looping (phase_of who l) ≡ false
    → IsQuiet l
    → IsQuiet (set_phase who away l)
give_up-IsQuiet background l out (q, unmade) = (With-path l out refl q, λ h k. refl)
give_up-IsQuiet caller l out (q, unmade) = (With-path l refl out q, unmade)

-- a thread that finds that nobody serves
take_over-IsQuiet :
    (who : Who) (l : Life)
    → phase_of who l ≡ entering
    → l.stopped ≡ false
    → l.serving ≡ false
    → IsQuiet l
    → IsQuiet (set_phase who looping (record l { serving = true; serve_thread = some who }))
take_over-IsQuiet background l e open_to free (q, unmade) = (
  Quiet-enter_background (is_looping l.started_thread) (is_looping l.calling_thread) l.serving free
      open_to q,
  λ h k. absurd (let still = unmade h k in cc),
)
take_over-IsQuiet caller l e open_to free (q, unmade) = (
  Quiet-enter_caller (is_looping l.started_thread) (is_looping l.calling_thread) l.serving free
      open_to q,
  unmade,
)

pub enter-refused :
    (who : Who) (l : Life)
    → phase_of who l ≡ entering
    → (l.stopped || l.serving) ≡ true
    → enter who l ≡ set_phase who away l
unfolding enter
enter-refused who l e h = rw (enter, e, h) refl

enter-served :
    (who : Who) (l : Life)
    → phase_of who l ≡ entering
    → (l.stopped || l.serving) ≡ false
    → enter who l ≡ set_phase who looping (record l { serving = true; serve_thread = some who })
unfolding enter
enter-served who l e h = rw (enter, e, h) refl

pub enter-other :
    (who : Who) (l : Life) (p : Phase) → phase_of who l ≡ p → (p ≡ entering → ⊥) → enter who l ≡ l
unfolding enter
enter-other who l away e h = rw (enter, e) refl
enter-other who l looping e h = rw (enter, e) refl
enter-other who l entering e h = absurd (h refl)

pub enter-IsQuiet : (who : Who) (l : Life) → IsQuiet l → IsQuiet (enter who l)
enter-IsQuiet who l q = by_phase (phase_of who l) refl
  where
    by_phase : (p : Phase) → phase_of who l ≡ p → IsQuiet (enter who l)
    by_phase away e = subst IsQuiet (sym (enter-other who l away e (λ h. absurd cc))) q
    by_phase looping e = subst IsQuiet (sym (enter-other who l looping e (λ h. absurd cc))) q
    by_phase entering e = elim (Bool-cases (l.stopped || l.serving)) [
      | inl refused ↦
          subst IsQuiet (sym (enter-refused who l e refused))
            (give_up-IsQuiet who l (ap is_looping e) q)
      | inr fine ↦
          subst IsQuiet (sym (enter-served who l e fine))
            (take_over-IsQuiet who l e (ground arith) (ground arith) q)
    ]

pub leave-served :
    (who : Who) (l : Life)
    → phase_of who l ≡ looping
    → leave who l ≡ set_phase who away (record l { serving = false; serve_thread = none })
unfolding leave
leave-served who l e = rw (leave, e) refl

pub leave-other :
    (who : Who) (l : Life) (p : Phase) → phase_of who l ≡ p → (p ≡ looping → ⊥) → leave who l ≡ l
unfolding leave
leave-other who l away e h = rw (leave, e) refl
leave-other who l entering e h = rw (leave, e) refl
leave-other who l looping e h = absurd (h refl)

left-IsQuiet :
    (who : Who) (l : Life)
    → phase_of who l ≡ looping
    → IsQuiet l
    → IsQuiet (set_phase who away (record l { serving = false; serve_thread = none }))
left-IsQuiet background l e (q, unmade) =
    let alone : is_looping l.calling_thread ≡ false = ground (arith, q.apart, ap is_looping e) in
    (
      Quiet-leave (is_looping l.started_thread) (is_looping l.calling_thread) false
          (is_looping l.calling_thread) refl alone q,
      λ h k. refl,
    )
left-IsQuiet caller l e (q, unmade) =
    let alone : is_looping l.started_thread ≡ false = ground (arith, q.apart, ap is_looping e) in
    (
      Quiet-leave (is_looping l.started_thread) (is_looping l.calling_thread)
          (is_looping l.started_thread) false alone refl q,
      unmade,
    )

pub leave-IsQuiet : (who : Who) (l : Life) → IsQuiet l → IsQuiet (leave who l)
leave-IsQuiet who l q = by_phase (phase_of who l) refl
  where
    by_phase : (p : Phase) → phase_of who l ≡ p → IsQuiet (leave who l)
    by_phase away e = subst IsQuiet (sym (leave-other who l away e (λ h. absurd cc))) q
    by_phase entering e = subst IsQuiet (sym (leave-other who l entering e (λ h. absurd cc))) q
    by_phase looping e = subst IsQuiet (sym (leave-served who l e)) (left-IsQuiet who l e q)
