-- ===== src/Kernel/Schedules/Advancing.antt =====
-- One atomic piece of a worker's run, from its beginning on.
use tito_os.Prelude.{
  ℕ, String, Bool, true, List, Option, none, some, ◌≡◌, refl, ◌∙◌, arith, eq_refl,
}
use tito_os.Errors.{cannot_run_again}
use tito_os.Dict
use tito_os.Dict.Laws.{map_some}
use tito_os.Message.{Value, Message}
use tito_os.Agent.{Agent, Script, Program, step_of, running}
use tito_os.Kernel.{Kernel, with_state}
use tito_os.Kernel.Context.{Progress, queued, active, finished, begin_step, script_of}
use tito_os.Kernel.Tick.{advance, started}
use tito_os.Kernel.Schedules.{Quiet, script_in}
use tito_os.Kernel.Schedules.Requests.{Has}
use tito_os.Kernel.Schedules.Pieces.{
  IsQuiet, QuietProgress, get-update, Advanced, own-Advanced, one_request-Advanced,
}

Quiet-step_of :
    (P : Program)
    → IsQuiet P
    → (a : Agent P.Memory) (tick : ℕ) (inbox : List Message) → Quiet (step_of P a tick inbox)
unfolding step_of
Quiet-step_of P quiet a tick inbox = by_class a.saved
  where
    by_class :
        (o : Option (Dict.Dict Value))
        → Quiet (elim o as (λ _. Script P.Memory) [
          | none ↦ P.step a tick inbox
          | some _ ↦ Script.raise (cannot_run_again a.name) a.memory
        ])
    by_class none = quiet a tick inbox
    by_class (some _) = tt

abbrev script_from :
    (P : Program) → ℕ → List Message → Option (Agent P.Memory) → Option (Script P.Memory)
script_from P tick inbox none = none
script_from P tick inbox (some a) = some (script_in P tick inbox a)

module _ {P : Program} where
  module _ (has : String → Bool) (tick : ℕ) (f : Message → ℕ) (x : String) where
    running_at :
        (me : String) (k : Kernel P) (o : Option (Agent P.Memory))
        → Dict.get me k.agents ≡ o
        → Dict.get me (begin_step me k).agents ≡ map_some (with_state running) o
    unfolding begin_step
    running_at me k o e = ground (arith, get-update me me (with_state running) k, eq_refl me)

    scripted :
        (me : String) (inbox : List Message) (k : Kernel P) (o : Option (Agent P.Memory))
        → Dict.get me k.agents ≡ o
        → script_of me tick inbox (begin_step me k) ≡ script_from P tick inbox o
    unfolding script_of
    scripted me inbox k none e = rw (script_of, running_at me k none e)
    scripted me inbox k (some a) e = rw (script_of, running_at me k (some a) e)

    -- what two pieces keep, one after the other
    pub then-Advanced :
        (me : String) (p : Progress P.Memory) (k : Kernel P) (r s : Progress P.Memory × Kernel P)
        → Advanced has tick f x me p k r
        → Advanced has tick f x me r.0 r.1 s
        → Advanced has tick f x me p k s
    then-Advanced me p k r s h h' = record {
      boxes = h'.boxes;
      others = λ n other. h'.others n other ∙ h.others n other;
      agent = h'.agent ∙ h.agent;
      outcome = h'.outcome ∙ h.outcome;
      mail = h'.mail ∙ h.mail;
      quiet = h'.quiet;
    }

    module _ (all_quiet : IsQuiet P) where
      pub advance-Advanced :
          (me : String) (p : Progress P.Memory) (k : Kernel P)
          → Has has k.bus
          → QuietProgress p
          → Advanced has tick f x me p k (advance tick me p k)
      unfolding advance
      advance-Advanced me (queued inbox) k here quiet = by_agent (Dict.get me k.agents) refl
        where
          by_agent :
              (o : Option (Agent P.Memory))
              → Dict.get me k.agents ≡ o
              → Advanced has tick f x me
                  (queued inbox)
                  k
                  (started (script_of me tick inbox (begin_step me k)), begin_step me k)
          by_agent none e = rw (scripted me inbox k none e) (
              unfold begin_step in
              own-Advanced has tick f x me (with_state running) (queued inbox) (finished true) k
                here none e (refl, refl, refl) tt)
          by_agent (some a) e = rw (scripted me inbox k (some a) e) (
              unfold begin_step in
              own-Advanced has tick f x me (with_state running) (queued inbox)
                (active (script_in P tick inbox a)) k here (some a) e (refl, refl, refl)
                (Quiet-step_of P all_quiet (with_state running a) tick inbox))
      advance-Advanced me (active script) k here quiet =
          one_request-Advanced has tick f x me script k here quiet
      advance-Advanced me (finished outcome) k here quiet = record {
        boxes = here;
        others = λ n other. refl;
        agent = refl;
        outcome = refl;
        mail = refl;
        quiet = tt;
      }
