-- ===== src/Gui/Demo/Handing.antt =====
-- titoos/gui/__main__.py: what a step of the dispatcher asks of its context, for every answer.
use Prim.Native.Nat.{◌%◌}
use tito_os.Prelude.{
  ℕ, zero, suc, ◌+◌, ◌≤◌, String, List, [], ◌∷◌, ◌++◌, map, some, ◌≡◌, refl, ap, subst, inl, inr,
  arith, Option-cases, length, take, get_elem?, nat_eq, if◌then◌else◌,
}
use tito_os.Errors.{Result, ok, err, Error, division_by_zero}
use tito_os.Message.{text, Message}
use tito_os.Agent.{Script}
use tito_os.Agent.Traces.{Action, sent, waited, Ending, returned, raised, Every}
use tito_os.Gui.Demo.{
  Attributes, dispatching, after_send, hand_out, start_jobs, jobs, dispatcher_step,
}

abbrev pub Requests : Type 0
Requests = List (Action Attributes)

abbrev pub Law : Type 1
Law = Requests → Ending Attributes → Type 0

-- Each message goes to the worker whose turn it is, in the order of the inbox.
abbrev pub Handed : List String → ℕ → List Message → Requests → Type 0
Handed workers next [] [] = Unit
Handed workers next [] (_ ∷ _) = ⊥
Handed workers next (_ ∷ _) [] = ⊥
Handed workers next (m ∷ inbox) (act ∷ acts) =
    (worker : String) × (get_elem? workers (next % length workers) ≡ some worker)
    × (act ≡ sent worker m.payload [])
    × Handed workers (suc next) inbox acts

pub after_send-Every :
    (m : Attributes) (rest : Script Attributes) (r : Result Message) (Q : Law)
    → ((e : Error) → Q [] (raised e m))
    → Every Q rest
    → Every Q (after_send m rest r)
after_send-Every m rest (ok _) Q fails h = h
after_send-Every m rest (err e) Q fails h = fails e

-- what holds of the loop where it holds of its end
pub hand_out-Every :
    (workers : List String) (next : ℕ) (inbox : List Message) (Q : Law)
    → ((acts : Requests)
        → Handed workers next inbox acts
        → Q (acts ++ waited ∷ []) (returned (dispatching workers (next + length inbox))))
    → ((n : ℕ) (acts rest : Requests) (e : Error)
        → n ≤ length inbox
        → Handed workers next (take n inbox) acts
        → Q (acts ++ rest) (raised e (dispatching workers (next + n))))
    → Every Q (hand_out workers next inbox)
unfolding hand_out
hand_out-Every workers next [] Q done fails =
    subst (λ n. Q (waited ∷ []) (returned (dispatching workers n))) (omega arith) (done [] tt)
hand_out-Every workers next (m ∷ inbox) Q done fails =
    elim (Option-cases (get_elem? workers (next % length workers))) [
      | inl nobody ↦ rw (Every, hand_out, nobody) (stays [] division_by_zero)
      | inr (worker, found) ↦
          rw (Every, hand_out, found)
            λ r.
              let act : Action Attributes = sent worker m.payload [] in
              after_send-Every (dispatching workers next) (hand_out workers (suc next) inbox) r
                (λ acts end. Q (act ∷ acts) end) (stays (act ∷ []))
                (hand_out-Every workers (suc next) inbox (λ acts end. Q (act ∷ acts) end)
                  (λ acts handed.
                    subst (λ n. Q (act ∷ acts ++ waited ∷ []) (returned (dispatching workers n)))
                      (omega arith) (done (act ∷ acts) (worker, found, refl, handed)))
                  (λ n acts rest e most handed.
                    subst (λ k. Q (act ∷ acts ++ rest) (raised e (dispatching workers k)))
                      (omega arith)
                      (fails (suc n) (act ∷ acts) rest e (omega arith)
                        (worker, found, refl, handed))))
    ]
  where
    stays : (rest : Requests) (e : Error) → Q rest (raised e (dispatching workers next))
    stays rest e =
        subst (λ n. Q rest (raised e (dispatching workers n))) (omega arith)
          (fails zero [] rest e (omega arith) tt)

abbrev started : String → List String → Requests
started me = map (λ job. sent me (text job) [])

start_jobs-Every :
    (me : String) (m : Attributes) (names : List String) (rest : Script Attributes) (Q : Law)
    → ((acts : Requests) (e : Error) → Q acts (raised e m))
    → Every (λ acts end. Q (started me names ++ acts) end) rest
    → Every Q (start_jobs me m names rest)
start_jobs-Every me m [] rest Q fails h = h
start_jobs-Every me m (job ∷ names) rest Q fails h = λ r.
    let act : Action Attributes = sent me (text job) [] in
    after_send-Every m (start_jobs me m names rest) r (λ acts end. Q (act ∷ acts) end)
      (fails (act ∷ []))
      (start_jobs-Every me m names rest (λ acts end. Q (act ∷ acts) end)
        (λ acts e. fails (act ∷ acts) e) h)

-- what a step of the dispatcher has asked for, and the counter that it leaves
abbrev pub DispatchLaw : String → List String → ℕ → ℕ → List Message → Law
DispatchLaw me workers next tick inbox acts (returned m) =
    (handed : Requests) × Handed workers next inbox handed
    × (acts ≡ started me (if nat_eq tick 1 then jobs else []) ++ (handed ++ waited ∷ []))
    × (m ≡ dispatching workers (next + length inbox))
DispatchLaw me workers next tick inbox acts (raised e m) =
    (n : ℕ) × (n ≤ length inbox)
    × (m ≡ dispatching workers (next + n))
    × (before handed rest : Requests) × (acts ≡ before ++ (handed ++ rest))
    × Handed workers next (take n inbox) handed

-- A step of the dispatcher, whatever its context answers. When it returns it has sent the three jobs
-- to itself if the tick is the first, then each message of its inbox, in order, to the worker
-- whose turn it is, and has then waited; its counter is ahead by the length of the inbox. When it
-- raises, its counter is ahead by the messages that it has handed out before.
pub dispatcher_step-Every :
    (me : String) (workers : List String) (next tick : ℕ) (inbox : List Message)
    → Every (DispatchLaw me workers next tick inbox) (dispatcher_step me workers next tick inbox)
unfolding dispatcher_step
dispatcher_step-Every me workers next tick inbox =
    start_jobs-Every me (dispatching workers next) (if nat_eq tick 1 then jobs else [])
      (hand_out workers next inbox) _
      (λ acts e.
        (zero, omega arith, ap (dispatching workers) (omega arith), [], [], acts, refl, tt))
      (hand_out-Every workers next inbox _ (λ acts handed. (acts, handed, refl, refl))
        (λ n acts rest e most handed. (n, most, refl, _, acts, rest, refl, handed)))
