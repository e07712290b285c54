-- ===== src/Integrations/Clock.antt =====
-- titoos/integrations/clock.py: `ClockIntegration`. Durations and instants are whole numbers of some
-- unit; the host's clock is a part of the state, and `time.sleep` moves it on.
use tito_os.Prelude.{
  ℕ, ◌+◌, ◌≤◌, String, List, [], ◌∷◌, Option, none, some, ◌≡◌, ◌∙◌, ap, if◌then◌else◌, leb, All,
  arith, subst,
}
use tito_os.Errors.{Result, ok, err, Exec, out_of_range, call_failed}

-- a number of the unit; `minus n` is -(n + 1)
pub data Number : Type 0 where
  plus minus : ℕ → Number

-- a `datetime`: without a zone, or with one and at this instant in UTC
pub data Moment : Type 0 where
  naive : Moment
  aware : ℕ → Moment

pub record Clock : Type 0 where
  pub name : String
  pub max_sleep : ℕ
  pub fixed : Option ℕ
  pub elapsed : ℕ
  pub host_time : ℕ

abbrev pub made : String → ℕ → ℕ → Option Moment → Result Clock
made name most host_time (some naive) = err out_of_range
made name most host_time none =
    ok (record { name = name; max_sleep = most; fixed = none; elapsed = 0; host_time = host_time })
made name most host_time (some (aware t)) =
    ok
      (record { name = name; max_sleep = most; fixed = some t; elapsed = 0; host_time = host_time })

-- `ClockIntegration.__init__`, on a host whose clock stands at `host_time`
unfoldable pub make_clock : String → Number → Option Moment → ℕ → Result Clock
make_clock name (minus n) fixed host_time = err out_of_range
make_clock name (plus n) fixed host_time = made name n host_time fixed

-- `now`
unfoldable pub now : Clock → ℕ
now c = elim c.fixed [ none ↦ c.host_time | some t ↦ t ]

-- `monotonic`; the host's clock stands for both of its readings
unfoldable pub monotonic : Clock → ℕ
monotonic c = elim c.fixed [ none ↦ c.host_time | some t ↦ c.elapsed ]

abbrev pub slept : ℕ → Clock → Clock
slept delay c = elim c.fixed [
  | none ↦ record c { host_time = c.host_time + delay }
  | some t ↦ record c { elapsed = c.elapsed + delay }
]

-- `sleep`
unfoldable pub sleep : Number → Exec Clock ℕ
sleep (minus n) c = (err (call_failed c.name "sleep"), c)
sleep (plus n) c =
    let delay : ℕ = if leb n c.max_sleep then n else c.max_sleep in (ok delay, slept delay c)

-- `sleep` for each duration in turn: what each returned, and the clock after them.
unfoldable pub sleep_each : List Number → Clock → List (Result ℕ) × Clock
unfolding sleep
sleep_each [] c = ([], c)
sleep_each (n ∷ ns) c = let (r, c') = sleep n c in let (rs, c'') = sleep_each ns c' in (r ∷ rs, c'')

-- the sum of what was slept
abbrev pub total : List (Result ℕ) → ℕ
total [] = 0
total (ok n ∷ rs) = n + total rs
total (err e ∷ rs) = total rs

abbrev pub IsBounded : ℕ → Result ℕ → Type 0
IsBounded most (ok n) = n ≤ most
IsBounded most (err e) = Unit

-- the frozen clock with its elapsed time moved on
abbrev pub moved : ℕ → Clock → Clock
moved n c = record c { elapsed = c.elapsed + n }

moved-zero : (c : Clock) → c ≡ moved 0 c
moved-zero c = ap (λ x. record c { elapsed = x }) (omega arith)

total-cons : (r : Result ℕ) (rs : List (Result ℕ)) → total (r ∷ []) + total rs ≡ total (r ∷ rs)
total-cons (ok n) rs = omega arith
total-cons (err e) rs = omega arith

add_assoc : (a b c : ℕ) → (a + b) + c ≡ a + (b + c)
add_assoc a b c = omega arith

moved-moved :
    (c c' c'' : Clock) (r : Result ℕ) (rs : List (Result ℕ))
    → c' ≡ moved (total (r ∷ [])) c
    → c'' ≡ moved (total rs) c'
    → c'' ≡ moved (total (r ∷ rs)) c
moved-moved c c' c'' r rs first later =
    rw (later, first)
      (ap (λ x. record c { elapsed = x })
        (add_assoc c.elapsed (total (r ∷ [])) (total rs)
          ∙ ap (λ x. c.elapsed + x) (total-cons r rs)))

at_most : (n most : ℕ) → (if leb n most then n else most) ≤ most
at_most n most = ground arith

slept-frozen : (d : ℕ) (c : Clock) (t : ℕ) → c.fixed ≡ some t → slept d c ≡ moved d c
slept-frozen d c t e = ground arith

sleep-frozen :
    (n : Number) (c : Clock) (t : ℕ)
    → c.fixed ≡ some t
    → ((sleep n c).1 ≡ moved (total ((sleep n c).0 ∷ [])) c) × IsBounded c.max_sleep (sleep n c).0
unfolding sleep
sleep-frozen (minus n) c t e = (moved-zero c, tt)
sleep-frozen (plus n) c t e =
    let delay : ℕ = if leb n c.max_sleep then n else c.max_sleep in
    (
      slept-frozen delay c t e ∙ ap (λ x. record c { elapsed = c.elapsed + x }) (delay_once delay),
      at_most n c.max_sleep,
    )
  where
    delay_once : (d : ℕ) → d ≡ d + 0
    delay_once d = omega arith

-- A frozen clock: whatever durations it is asked to sleep, one after the other, no sleep is longer
-- than its maximum, the host's clock does not move, the time stays the instant that it is frozen at,
-- and the monotonic reading moves on by the sum of what the sleeps returned.
pub sleep_each-frozen :
    (ns : List Number) (c : Clock) (t : ℕ)
    → c.fixed ≡ some t
    → ((sleep_each ns c).1 ≡ moved (total (sleep_each ns c).0) c)
      × All (IsBounded c.max_sleep) (sleep_each ns c).0
unfolding sleep_each
sleep_each-frozen [] c t e = (moved-zero c, tt)
sleep_each-frozen (n ∷ ns) c t e =
    let (first, bounded) = sleep-frozen n c t e in
    let (later, all) = sleep_each-frozen ns (sleep n c).1 t (ap (λ x. x.fixed) first ∙ e) in
    (
      moved-moved c (sleep n c).1 _ (sleep n c).0 _ first later,
      (
        bounded,
        subst (λ m. All (IsBounded m) (sleep_each ns (sleep n c).1).0) (ap (λ x. x.max_sleep) first)
            all,
      ),
    )
