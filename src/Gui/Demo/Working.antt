-- ===== src/Gui/Demo/Working.antt =====
-- titoos/gui/__main__.py: the steps of a worker, and what the kernel does with one that fails.
use tito_os.Prelude.{
  ℕ, zero, suc, ◌<◌, String, Bool, true, false, List, [], ◌∷◌, ◌++◌, map, none, ◌≡◌, ◌⊎◌, inl, inr,
  refl, arith, length, take,
}
use tito_os.Errors.{Error, transient_failure}
use tito_os.Dict
use tito_os.Message.{Value, Message}
use tito_os.Bus
use tito_os.Agent.{Agent}
use tito_os.Agent.Traces.{Action, sent, waited, returned, raised, Every}
use tito_os.Kernel.{Kernel}
use tito_os.Gui.Demo.{Attributes, working, worker_step, result_of}
use tito_os.Gui.Demo.Handing.{Requests, Law, after_send-Every}

module _ (str : Value → String) where
  -- the result of each job, in the order of the inbox
  abbrev pub results : String → List Message → Requests
  results me = map (λ m. sent "collector" (result_of str me m) [])

  -- what a step of a worker has asked for, and whether it is flaky afterwards
  abbrev pub WorkLaw : String → Bool → List Message → Law
  WorkLaw me flaky inbox acts (returned m) =
      ((flaky ≡ false) ⊎ (inbox ≡ []))
      × (m ≡ working flaky)
      × (acts ≡ results me inbox ++ waited ∷ [])
  WorkLaw me flaky inbox acts (raised e m) =
      (m ≡ working false)
      × (((flaky ≡ true) × (e ≡ transient_failure) × (acts ≡ []))
          ⊎ ((flaky ≡ false)
              × ((n : ℕ) × (n < length inbox) × (acts ≡ results me (take (suc n) inbox)))))

  steady :
      (me : String) (inbox : List Message) (Q : Law)
      → Q (results me inbox ++ waited ∷ []) (returned (working false))
      → ((n : ℕ) (e : Error)
          → n < length inbox
          → Q (results me (take (suc n) inbox)) (raised e (working false)))
      → Every Q (worker_step str me false inbox)
  unfolding worker_step
  steady me [] Q done fails = done
  steady me (m ∷ inbox) Q done fails = λ r.
      let act : Action Attributes = sent "collector" (result_of str me m) [] in
      after_send-Every (working false) (worker_step str me false inbox) r
        (λ acts end. Q (act ∷ acts) end) (λ e. fails zero e (omega arith))
        (steady me inbox (λ acts end. Q (act ∷ acts) end) done
          (λ n e less. fails (suc n) e (omega arith)))

  -- A step of a worker, whatever its context answers. A flaky one that has mail raises at once, has
  -- asked for nothing, and is flaky no more. Any other sends the collector one result for each
  -- job, in order, and waits; it raises only at a result that it could not send.
  pub worker_step-Every :
      (me : String) (flaky : Bool) (inbox : List Message)
      → Every (WorkLaw me flaky inbox) (worker_step str me flaky inbox)
  unfolding worker_step
  worker_step-Every me true [] = (inr refl, refl, refl)
  worker_step-Every me true (m ∷ inbox) = (refl, inl (refl, refl, refl))
  worker_step-Every me false inbox =
      steady me inbox (WorkLaw me false inbox) (inl refl, refl, refl)
        (λ n e less. (refl, inr (refl, (n, less, refl))))

  -- a worker, flaky or not, with all else as in `a`
  abbrev pub worker : Agent Attributes → Bool → Agent Attributes
  worker a flaky = record a { memory = working flaky; saved = none }
