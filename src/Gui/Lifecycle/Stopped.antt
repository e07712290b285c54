-- ===== src/Gui/Lifecycle/Stopped.antt =====
-- `stop` of titoos/gui/server.py among the threads that serve: what it keeps.
use tito_os.Prelude.{
  Bool, true, false, ◌||◌, Option, none, some, List, [], ◌∷◌, ◌≡◌, refl, arith, Bool-cases, inl,
  inr, subst, sym,
}
use tito_os.Gui.Lifecycle.{
  Who, background, caller, Phase, away, entering, looping, is_looping, is_away, Stop, idle, read,
  closing, Life, fresh_life, stop_reads, is_joined, stop_closes, stop_ends, Event, starts, calls,
  dies, enters, leaves, reads, closes, ends, happen, happen_all,
}
use tito_os.Gui.Lifecycle.Quiet.{Quiet, IsQuiet, Knows, Quiet-reads, Quiet-closes, Quiet-ends}
use tito_os.Gui.Lifecycle.Served.{
  start-IsQuiet, serve_forever-IsQuiet, thread_ends-IsQuiet, enter-IsQuiet, leave-IsQuiet,
}

stop_reads-idle :
    (l : Life)
    → l.stop ≡ idle
    → stop_reads l ≡ record l { stopped = true; stop = read l.serve_thread l.has_thread }
unfolding stop_reads
stop_reads-idle l e = rw (stop_reads, e) refl

pub stop_closes-joined :
    (l : Life) (who : Option Who) (made : Bool)
    → l.stop ≡ read who made
    → is_joined who made l ≡ true
    → stop_closes l ≡ record l { stop = closing; is_closed = true }
unfolding stop_closes
stop_closes-joined l who made e h = rw (stop_closes, e, h) refl

pub stop_ends-closing :
    (l : Life) → l.stop ≡ closing → stop_ends l ≡ record l { has_thread = false; stop = idle }
unfolding stop_ends
stop_ends-closing l e = rw (stop_ends, e) refl

-- the state of the fields at a place of `stop`
abbrev pub At : Life → Stop → Type 0
At l s =
    Quiet (is_looping l.started_thread) (is_looping l.calling_thread) l.serving l.serve_thread
      l.stopped s l.is_closed

stop_reads-IsQuiet : (l : Life) → IsQuiet l → IsQuiet (stop_reads l)
unfolding stop_reads
stop_reads-IsQuiet l (q, unmade) = by_stop l.stop refl
  where
    by_stop : (s : Stop) → l.stop ≡ s → IsQuiet (stop_reads l)
    by_stop idle e =
        subst IsQuiet (sym (stop_reads-idle l e))
          (Quiet-reads l.has_thread (subst (At l) e q), λ h k. absurd cc)
    by_stop (read who made) e = rw (stop_reads, e) (q, unmade)
    by_stop closing e = rw (stop_reads, e) (q, unmade)

is_away-not_looping : (p : Phase) → is_away p ≡ true → is_looping p ≡ false
is_away-not_looping away h = refl
is_away-not_looping entering h = refl
is_away-not_looping looping h = absurd cc

never : {b : Bool} → (b ≡ true → ⊥) → b ≡ false
never {b = true} h = absurd (h refl)
never {b = false} h = refl

neither : {b c : Bool} → b ≡ false → c ≡ false → (b || c) ≡ false
neither h k = ground arith

-- the threads that `stop` waited for were the ones in the loop
joined-gone :
    (who : Option Who) (made : Bool) (l : Life)
    → Knows (is_looping l.started_thread) (is_looping l.calling_thread) l.stopped (read who made)
    → is_joined who made l ≡ true
    → (is_looping l.started_thread || is_looping l.calling_thread) ≡ false
joined-gone none made l k h =
    neither (never (λ t. absurd (let e = k.1 t in cc))) (never (λ t. absurd (let e = k.2 t in cc)))
joined-gone (some background) made l k h =
    neither (is_away-not_looping l.started_thread h) (never (λ t. absurd (let e = k.2 t in cc)))
joined-gone (some caller) made l k h =
    neither (never (λ t. absurd (let e = k.1 t in cc)))
      (is_away-not_looping l.calling_thread (ground arith))

stop_closes-IsQuiet : (l : Life) → IsQuiet l → IsQuiet (stop_closes l)
unfolding stop_closes
stop_closes-IsQuiet l (q, unmade) = by_stop l.stop refl
  where
    by_stop : (s : Stop) → l.stop ≡ s → IsQuiet (stop_closes l)
    by_stop idle e = rw (stop_closes, e) (q, unmade)
    by_stop closing e = rw (stop_closes, e) (q, unmade)
    by_stop (read who made) e = elim (Bool-cases (is_joined who made l)) [
      | inr waits ↦ rw (stop_closes, e, waits) (q, unmade)
      | inl gone ↦
          let now = subst (At l) e q in
          subst IsQuiet (sym (stop_closes-joined l who made e gone))
            (Quiet-closes now (joined-gone who made l now.stopping gone), unmade)
    ]

stop_ends-IsQuiet : (l : Life) → IsQuiet l → IsQuiet (stop_ends l)
unfolding stop_ends
stop_ends-IsQuiet l (q, unmade) = by_stop l.stop refl
  where
    by_stop : (s : Stop) → l.stop ≡ s → IsQuiet (stop_ends l)
    by_stop idle e = rw (stop_ends, e) (q, unmade)
    by_stop (read who made) e = rw (stop_ends, e) (q, unmade)
    by_stop closing e =
        let now = subst (At l) e q in
        subst IsQuiet (sym (stop_ends-closing l e))
          (Quiet-ends now, λ h k. absurd (ground (arith, now.stopping.0)))

happen-IsQuiet : (e : Event) (l : Life) → IsQuiet l → IsQuiet (happen e l)
unfolding happen
happen-IsQuiet starts l q = start-IsQuiet l q
happen-IsQuiet calls l q = serve_forever-IsQuiet l q
happen-IsQuiet dies l q = thread_ends-IsQuiet l q
happen-IsQuiet (enters who) l q = enter-IsQuiet who l q
happen-IsQuiet (leaves who) l q = leave-IsQuiet who l q
happen-IsQuiet reads l q = stop_reads-IsQuiet l q
happen-IsQuiet closes l q = stop_closes-IsQuiet l q
happen-IsQuiet ends l q = stop_ends-IsQuiet l q

from-IsQuiet : (events : List Event) (l : Life) → IsQuiet l → IsQuiet (happen_all events l)
unfolding happen_all
from-IsQuiet [] l q = q
from-IsQuiet (e ∷ events) l q = from-IsQuiet events (happen e l) (happen-IsQuiet e l q)

-- However the threads of a GUI interleave, one of them serves at most, `_serving` says whether one
-- does and `_serve_thread` which one, and nobody serves once `stop` has released the port.
pub happen_all-IsQuiet : (events : List Event) → IsQuiet (happen_all events fresh_life)
happen_all-IsQuiet events = from-IsQuiet events fresh_life (fresh, λ h k. refl)
  where
    fresh : Quiet false false false none false idle false
    fresh = record {
      apart = refl;
      flag = refl;
      named = refl;
      stopping = tt;
      released = λ h. absurd cc;
    }
