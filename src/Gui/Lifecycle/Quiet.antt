-- ===== src/Gui/Lifecycle/Quiet.antt =====
-- What every interleaving of the threads of titoos/gui/server.py keeps.
use tito_os.Prelude.{
  Bool, true, false, ◌&&◌, ◌||◌, Option, none, some, ◌≡◌, refl, arith, subst, subst₂, sym, ap,
}
use tito_os.Gui.Lifecycle.{
  Who, background, caller, away, is_looping, Stop, idle, read, closing, Life,
}

-- the thread in the loop, of the one that `start` made and the caller's
abbrev owner : Bool → Bool → Option Who
owner true _ = some background
owner false true = some caller
owner false false = none

-- what `stop` knows of the threads in the loop
abbrev pub Knows : Bool → Bool → Bool → Stop → Type 0
Knows b c stopped idle = Unit
Knows b c stopped (read who made) =
    (stopped ≡ true) × (b ≡ true → who ≡ some background) × (c ≡ true → who ≡ some caller)
Knows b c stopped closing = (stopped ≡ true) × ((b || c) ≡ false)

-- One thread serves at most, the fields name it, and nobody serves on a released port.
pub record Quiet (b c serving : Bool) (who : Option Who) (stopped : Bool) (stop : Stop)
    (closed : Bool) : Type 0 where
  pub apart : (b && c) ≡ false
  pub flag : serving ≡ (b || c)
  pub named : who ≡ owner b c
  pub stopping : Knows b c stopped stop
  pub released : closed ≡ true → (stopped ≡ true) × ((b || c) ≡ false)

abbrev pub IsQuiet : Life → Type 0
IsQuiet l =
    Quiet (is_looping l.started_thread) (is_looping l.calling_thread) l.serving l.serve_thread
      l.stopped l.stop l.is_closed
    × (l.has_thread ≡ false → l.stopped ≡ false → l.started_thread ≡ away)

-- before a stop nothing is known
open_stop : (b c : Bool) (s : Stop) → Knows b c false s → s ≡ idle
open_stop b c idle k = refl
open_stop b c (read who made) k = absurd (ground (arith, k.0))
open_stop b c closing k = absurd (ground (arith, k.0))

Knows-open : (b c b' c' : Bool) (s : Stop) → Knows b c false s → Knows b' c' false s
Knows-open b c b' c' s k = subst (Knows b' c' false) (sym (open_stop b c s k)) tt

Knows-entered :
    (b c b' c' stopped : Bool) (s : Stop)
    → stopped ≡ false
    → Knows b c stopped s
    → Knows b' c' stopped s
Knows-entered b c b' c' stopped s h k =
    subst (λ x. Knows b' c' x s) (sym h) (Knows-open b c b' c' s (subst (λ x. Knows b c x s) h k))

pub Quiet-enter_background :
    (b c serving : Bool) {who : Option Who} {stopped : Bool} {s : Stop} {closed : Bool}
    → serving ≡ false
    → stopped ≡ false
    → Quiet b c serving who stopped s closed
    → Quiet true c true (some background) stopped s closed
Quiet-enter_background b c serving {stopped = stopped} {s = s} free open_to q = record {
  apart = ground (arith, q.flag);
  flag = refl;
  named = refl;
  stopping = Knows-entered b c true c stopped s open_to q.stopping;
  released = λ h. absurd (ground (arith, q.released h));
}

pub Quiet-enter_caller :
    (b c serving : Bool) {who : Option Who} {stopped : Bool} {s : Stop} {closed : Bool}
    → serving ≡ false
    → stopped ≡ false
    → Quiet b c serving who stopped s closed
    → Quiet b true true (some caller) stopped s closed
Quiet-enter_caller b c serving {stopped = stopped} {s = s} free open_to q =
    let nobody : b ≡ false = ground (arith, q.flag) in
    record {
      apart = ground arith;
      flag = ground arith;
      named = ap (λ x. owner x true) (sym nobody);
      stopping = Knows-entered b c b true stopped s open_to q.stopping;
      released = λ h. absurd (ground (arith, q.released h));
    }

Knows-left : (b c stopped : Bool) (s : Stop) → Knows b c stopped s → Knows false false stopped s
Knows-left b c stopped idle k = tt
Knows-left b c stopped (read who made) k = (k.0, λ h. absurd cc, λ h. absurd cc)
Knows-left b c stopped closing k = (k.0, refl)

-- the thread in the loop has left it
pub Quiet-leave :
    (b c b' c' : Bool) {serving : Bool} {who : Option Who} {stopped : Bool} {s : Stop}
    {closed : Bool}
    → b' ≡ false
    → c' ≡ false
    → Quiet b c serving who stopped s closed
    → Quiet b' c' false none stopped s closed
Quiet-leave b c b' c' {stopped = stopped} {s = s} {closed = closed} h k q =
    subst₂ (λ x y. Quiet x y false none stopped s closed) (sym h) (sym k)
      (record {
        apart = refl;
        flag = refl;
        named = refl;
        stopping = Knows-left b c stopped s q.stopping;
        released = λ h. ((q.released h).0, refl);
      })

pub Quiet-reads :
    {b c serving : Bool} {who : Option Who} {stopped : Bool} {closed : Bool} (made : Bool)
    → Quiet b c serving who stopped idle closed
    → Quiet b c serving who true (read who made) closed
Quiet-reads {b = b} {c = c} {who = who} made q = record {
  apart = q.apart;
  flag = q.flag;
  named = q.named;
  stopping = (refl, by_b b c q.apart q.named, by_c b c q.apart q.named);
  released = λ h. (refl, (q.released h).1);
}
  where
    by_b : (b c : Bool) → (b && c) ≡ false → who ≡ owner b c → b ≡ true → who ≡ some background
    by_b true c a n h = n
    by_b false c a n h = absurd cc

    by_c : (b c : Bool) → (b && c) ≡ false → who ≡ owner b c → c ≡ true → who ≡ some caller
    by_c true true a n h = absurd cc
    by_c false true a n h = n
    by_c b false a n h = absurd cc

pub Quiet-closes :
    {b c serving : Bool} {who : Option Who} {stopped : Bool} {w : Option Who} {made closed : Bool}
    → Quiet b c serving who stopped (read w made) closed
    → (b || c) ≡ false
    → Quiet b c serving who stopped closing true
Quiet-closes q gone = record {
  apart = q.apart;
  flag = q.flag;
  named = q.named;
  stopping = (q.stopping.0, gone);
  released = λ h. (q.stopping.0, gone);
}

pub Quiet-ends :
    {b c serving : Bool} {who : Option Who} {stopped closed : Bool}
    → Quiet b c serving who stopped closing closed
    → Quiet b c serving who stopped idle closed
Quiet-ends q = record {
  apart = q.apart;
  flag = q.flag;
  named = q.named;
  stopping = tt;
  released = q.released;
}
