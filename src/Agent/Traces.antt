-- ===== src/Agent/Traces.antt =====
-- titoos/agent.py: what one run of `Agent.step` does through its `Context`, for every answer that the
-- context gives.
use tito_os.Prelude.{String, List, [], ◌∷◌, Bool, true, false, if◌then◌else◌, Option, none, some}
use tito_os.Errors.{Result, ok, err, Error}
use tito_os.Dict.{Dict}
use tito_os.Message.{Value, Message}
use tito_os.Agent.{Agent, Spec, Script}

-- a request to the context
pub data Action (M : Type 0) : Type 0 where
  sent : String → Value → Dict Value → Action M
  broadcasted : Value → Dict Value → Action M
  spawned : Spec M → Action M
  listed : Action M
  called : String → String → Value → Action M
  waited exited : Action M

-- how the step ended, with the attributes that it left
pub data Ending (M : Type 0) : Type 0 where
  returned : M → Ending M
  raised : Error → M → Ending M

-- `Q` holds of the requests and the ending of the step, whatever it is answered.
abbrev pub Every : {M : Type 0} → (List (Action M) → Ending M → Type 0) → Script M → Type 0
Every Q (Script.return m) = Q [] (returned m)
Every Q (Script.raise e m) = Q [] (raised e m)
Every Q (Script.send to v metadata k) =
    (r : Result Message) → Every (λ acts end. Q (sent to v metadata ∷ acts) end) (k r)
Every Q (Script.broadcast v metadata k) =
    (r : Result Message) → Every (λ acts end. Q (broadcasted v metadata ∷ acts) end) (k r)
Every {M} Q (Script.spawn s k) =
    (r : Result (Agent M)) → Every (λ acts end. Q (spawned s ∷ acts) end) (k r)
Every {M} Q (Script.children k) =
    (r : List (Agent M)) → Every (λ acts end. Q (listed ∷ acts) end) (k r)
Every Q (Script.call name operation v k) =
    (r : Result Value) → Every (λ acts end. Q (called name operation v ∷ acts) end) (k r)
Every Q (Script.wait k) = Every (λ acts end. Q (waited ∷ acts) end) k
Every Q (Script.exit k) = Every (λ acts end. Q (exited ∷ acts) end) k

pub either-Every :
    {M : Type 0} (Q : List (Action M) → Ending M → Type 0) (b : Bool) (s t : Script M)
    → Every Q s
    → Every Q t
    → Every Q (if b then s else t)
either-Every Q true s t h h' = h
either-Every Q false s t h h' = h'

-- the exception that a request raised, if it did
abbrev pub refusal : {A : Type 0} → Result A → Option Error
refusal (ok _) = none
refusal (err e) = some e

-- `Every`, where each request stands with the exception that the context answered it with.
abbrev pub Traced :
    {M : Type 0} → (List (Action M × Option Error) → Ending M → Type 0) → Script M → Type 0
Traced Q (Script.return m) = Q [] (returned m)
Traced Q (Script.raise e m) = Q [] (raised e m)
Traced Q (Script.send to v metadata k) =
    (r : Result Message) → Traced (λ acts end. Q ((sent to v metadata, refusal r) ∷ acts) end) (k r)
Traced Q (Script.broadcast v metadata k) =
    (r : Result Message)
    → Traced (λ acts end. Q ((broadcasted v metadata, refusal r) ∷ acts) end) (k r)
Traced {M} Q (Script.spawn s k) =
    (r : Result (Agent M)) → Traced (λ acts end. Q ((spawned s, refusal r) ∷ acts) end) (k r)
Traced {M} Q (Script.children k) =
    (r : List (Agent M)) → Traced (λ acts end. Q ((listed, none) ∷ acts) end) (k r)
Traced Q (Script.call name operation v k) =
    (r : Result Value)
    → Traced (λ acts end. Q ((called name operation v, refusal r) ∷ acts) end) (k r)
Traced Q (Script.wait k) = Traced (λ acts end. Q ((waited, none) ∷ acts) end) k
Traced Q (Script.exit k) = Traced (λ acts end. Q ((exited, none) ∷ acts) end) k
