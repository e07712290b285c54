-- ===== src/Kernel/Schedules/Ticks.antt =====
-- titoos/kernel.py: `Kernel.step` on different backends and schedules.
use tito_os.Prelude.{
  ℕ, ◌+◌, String, false, List, [], ◌∷◌, none, some, ◌&&◌, elem, ◌≡◌, refl, ap, ◌∙◌, arith, All,
  is_empty, Bool-cases, inl, inr,
}
use tito_os.Dict
use tito_os.Dict.{Dict, Distinct}
use tito_os.Dict.Laws.{All-entries}
use tito_os.Message.{Message}
use tito_os.Agent.{Agent, Program, is_alive, is_waiting}
use tito_os.Kernel.{Kernel, Backend, filter_alive, live_snapshot, agent_names}
use tito_os.Kernel.Tick.{job_names, plan, plan_of, drained, reject_async, step}
use tito_os.Kernel.Soundness.{IsSound}
use tito_os.Kernel.Schedules.Pieces.{IsQuiet}
use tito_os.Kernel.Schedules.Alike.{Both, on_backend, run_tick-Both}
use tito_os.Kernel.Schedules.Settling.{proceed-Both, settle-Both}

module _ {M : Type 0} where
  -- the jobs are some of the live agents, and those some of the registered ones
  planned_absent :
      (n : String) (live : List (Agent M)) (inboxes : List (List Message))
      → elem n (agent_names live) ≡ false
      → elem n (job_names (plan live inboxes).0) ≡ false
  unfolding plan
  planned_absent n [] inboxes out = refl
  planned_absent n (a ∷ live) [] out = refl
  planned_absent n (a ∷ live) (inbox ∷ inboxes) out = ground (arith, planned_absent n live inboxes)

  planned-Distinct :
      (live : List (Agent M)) (inboxes : List (List Message))
      → Distinct (agent_names live)
      → Distinct (job_names (plan live inboxes).0)
  unfolding plan
  planned-Distinct [] inboxes d = tt
  planned-Distinct (a ∷ live) [] d = tt
  planned-Distinct (a ∷ live) (inbox ∷ inboxes) (out, d) =
      elim (Bool-cases (is_waiting a.state && is_empty inbox)) [
        | inl skips ↦ rw skips (planned-Distinct live inboxes d)
        | inr runs ↦
            rw runs (planned_absent a.name live inboxes out, planned-Distinct live inboxes d)
      ]

  living_absent :
      (n : String) (d : Dict (Agent M))
      → All (λ e. e.1.name ≡ e.0) d
      → elem n (Dict.keys d) ≡ false
      → elem n (agent_names (filter_alive (Dict.values d))) ≡ false
  unfolding filter_alive
  living_absent n [] named out = refl
  living_absent n ((key, a) ∷ d) (same, named) out = ground (arith, living_absent n d named)

  living-Distinct :
      (d : Dict (Agent M))
      → All (λ e. e.1.name ≡ e.0) d
      → Distinct (Dict.keys d)
      → Distinct (agent_names (filter_alive (Dict.values d)))
  unfolding filter_alive
  living-Distinct [] named distinct = tt
  living-Distinct ((key, a) ∷ d) (same, named) (out, distinct) = elim (Bool-cases (is_alive a)) [
    | inl lives ↦ rw lives (
      living_absent a.name d named (ap (λ n. elem n (Dict.keys d)) same ∙ out),
      living-Distinct d named distinct,
    )
    | inr over ↦ rw over (living-Distinct d named distinct)
  ]

module _ {P : Program} where
  named_entries :
      (k k' : Kernel P) (d : Dict (Agent P.Memory))
      → IsSound k
      → All (λ e. Dict.get e.0 k.agents ≡ some e.1) d
      → All (λ e. e.1.name ≡ e.0) d
  named_entries k k' [] sound found = tt
  named_entries k k' ((n, a) ∷ d) sound (here, found) =
      (sound.named n a here, named_entries k k' d sound found)

  jobs-Distinct : (k : Kernel P) → IsSound k → Distinct (job_names (plan_of k).0)
  unfolding live_snapshot
  jobs-Distinct k sound = planned-Distinct (live_snapshot k) _ (
      living-Distinct k.agents
        (named_entries k k k.agents sound (All-entries k.agents sound.distinct)) sound.distinct)

  -- A tick of a sound kernel gives the same report, and kernels that agree on every agent and on the
  -- messages in every mailbox, on each backend and however its workers are scheduled. The steps
  -- of its agents ask for no driver, no new agent and no list of agents, and no agent that runs
  -- has an asynchronous step.
  pub step-Both :
      (all_quiet : IsQuiet P) (k : Kernel P) (backend backend' : Backend)
      → (schedule schedule' : List ℕ) → IsSound k
      → reject_async (plan_of k).0 (drained k) ≡ none
      → Both (step schedule (on_backend backend k)) (step schedule' (on_backend backend' k))
  unfolding step live_snapshot
  step-Both all_quiet k backend backend' schedule schedule' sound none_async =
      let (jobs, idle) = plan_of k in
      proceed-Both _ _ _ _
        (run_tick-Both all_quiet (k.tick + 1) jobs (drained k) backend backend' schedule schedule'
          (jobs-Distinct k sound) none_async)
        (λ outcomes l l' agree. settle-Both (k.tick + 1) jobs idle outcomes l l' agree)
