-- ===== src/Kernel/Planning.antt =====
-- The lists that a tick works on: its live agents, its jobs, and the jobs with one outcome.
use tito_os.Prelude.{
  String, Bool, true, List, [], ◌∷◌, ◌≡◌, All, if◌then◌else◌, Bool-cases, inl, inr, ◌&&◌, is_empty,
  not,
}
use tito_os.Dict
use tito_os.Dict.{Dict}
use tito_os.Message.{Message}
use tito_os.Agent.{Agent, is_alive, is_waiting}
use tito_os.Kernel.{filter_alive}
use tito_os.Kernel.Tick.{Job, plan, with_outcome}

pub plan-All :
    {M : Type 0} (Q : String → Type 0) (live : List (Agent M)) (inboxes : List (List Message))
    → All (λ a. Q a.name) live
    → All (λ job. Q job.agent) (plan live inboxes).0
unfolding plan
plan-All Q [] inboxes q = tt
plan-All Q (a ∷ live) [] q = tt
plan-All Q (a ∷ live) (inbox ∷ inboxes) q =
    elim (Bool-cases (is_waiting a.state && is_empty inbox)) [
      | inl skips ↦ rw skips (plan-All Q live inboxes q.1)
      | inr runs ↦ rw runs (q.0, plan-All Q live inboxes q.1)
    ]

pub All-with_outcome :
    (Q : Job → Type 0) (wanted : Bool) (jobs : List Job) (outcomes : List Bool)
    → All Q jobs
    → All Q (with_outcome wanted jobs outcomes)
unfolding with_outcome
All-with_outcome Q wanted [] outcomes q = tt
All-with_outcome Q wanted (job ∷ jobs) [] q = tt
All-with_outcome Q wanted (job ∷ jobs) (outcome ∷ outcomes) q =
    elim (Bool-cases (if wanted then outcome else not outcome)) [
      | inl fits ↦ rw fits (q.0, All-with_outcome Q wanted jobs outcomes q.1)
      | inr other ↦ rw other (All-with_outcome Q wanted jobs outcomes q.1)
    ]

pub filter_alive-All :
    {M : Type 0} (Q : Agent M → Type 0) (d : Dict (Agent M))
    → All (λ x. is_alive x.1 ≡ true → Q x.1) d
    → All Q (filter_alive (Dict.values d))
unfolding filter_alive
filter_alive-All Q [] all = tt
filter_alive-All Q ((n, a) ∷ d) all = elim (Bool-cases (is_alive a)) [
  | inl lives ↦ rw lives (all.0 lives, filter_alive-All Q d all.1)
  | inr over ↦ rw over (filter_alive-All Q d all.1)
]
