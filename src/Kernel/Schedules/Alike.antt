-- ===== src/Kernel/Schedules/Alike.antt =====
-- titoos/backends.py: `run_tick` of different backends, at different schedules.
use tito_os.Prelude.{
  ℕ, String, Bool, List, [], ◌∷◌, map, none, some, if◌then◌else◌, ◌≡◌, refl, ap, sym, ◌∙◌, subst,
  arith, All, ltb, length, Bool-cases, inl, inr,
}
use tito_os.Errors.{Result, ok, async_unsupported}
use tito_os.Dict
use tito_os.Dict.{Distinct}
use tito_os.Message.{Message}
use tito_os.Bus.{has_mailbox}
use tito_os.Agent.{Program}
use tito_os.Kernel.{Kernel, Backend, serial, thread, async}
use tito_os.Kernel.Tick.{
  Job, hire, job_names, interleave, collect, reject_async, is_async_agent, run_tick,
}
use tito_os.Kernel.Schedules.Pieces.{IsQuiet, QuietProgress}
use tito_os.Kernel.Schedules.Pools.{pool_names, mail_on, outcomes_on, agent_on}
use tito_os.Kernel.Schedules.Mail.{SameMail}
use tito_os.Kernel.Schedules.Interleaved.{Same, Left, interleave-Same, collect-Left}

hired_names : (M : Type 0) (jobs : List Job) → pool_names (map (hire {M = M}) jobs) ≡ job_names jobs
hired_names M [] = refl
hired_names M (job ∷ jobs) = ap (λ names. job.agent ∷ names) (hired_names M jobs)

hired_quiet :
    (M : Type 0) (jobs : List Job) → All (λ w. QuietProgress w.progress) (map (hire {M = M}) jobs)
hired_quiet M [] = tt
hired_quiet M (job ∷ jobs) = (tt, hired_quiet M jobs)

module _ {P : Program} where
  -- The kernels agree on every agent, on which mailboxes there are, and on the messages in each,
  -- whatever their order.
  pub record Agrees (k k' : Kernel P) : Type 0 where
    pub agents : (n : String) → Dict.get n k.agents ≡ Dict.get n k'.agents
    pub bus : SameMail k.bus k'.bus

  -- the same result, and kernels that agree
  abbrev pub Both : {A : Type 0} → Result A × Kernel P → Result A × Kernel P → Type 0
  Both r s = (r.0 ≡ s.0) × Agrees r.1 s.1

  module _ (all_quiet : IsQuiet P) (tick : ℕ) (jobs : List Job) (k : Kernel P)
      (distinct : Distinct (job_names jobs)) where
    abbrev boxes_of : String → Bool
    boxes_of n = has_mailbox n k.bus

    abbrev Leaves : List Bool × Kernel P → Type 0
    Leaves r = (f : Message → ℕ) (x : String) → Left boxes_of tick f x all_quiet (map hire jobs) k r

    serial-Leaves : Leaves (collect tick (map hire jobs) k)
    serial-Leaves f x =
        collect-Left boxes_of tick f x all_quiet (map hire jobs) k (λ n. refl)
          (subst Distinct (sym (hired_names P.Memory jobs)) distinct) (hired_quiet P.Memory jobs)

    scheduled-Leaves :
        (schedule : List ℕ)
        → Leaves
            (let (pool, k') = interleave tick schedule (map hire jobs) k in collect tick pool k')
    scheduled-Leaves schedule f x =
        let (pool, k') = interleave tick schedule (map hire jobs) k in
        let s : Same boxes_of tick f x all_quiet (map hire jobs) k (pool, k') =
          interleave-Same boxes_of tick f x all_quiet schedule (map hire jobs) k (λ n. refl)
            (subst Distinct (sym (hired_names P.Memory jobs)) distinct)
            (hired_quiet P.Memory jobs) in
        let left =
          collect-Left boxes_of tick f x all_quiet pool k' s.boxes
            (subst Distinct (sym (s.names ∙ hired_names P.Memory jobs)) distinct) s.quiet in
        record {
          boxes = left.boxes;
          agents = λ n. left.agents n ∙ s.agents n;
          outcomes = left.outcomes ∙ s.outcomes;
          mail = left.mail ∙ s.mail;
        }

    run_tick-Leaves :
        (backend : Backend) (schedule : List ℕ)
        → reject_async jobs k ≡ none
        → (r : List Bool × Kernel P) × (run_tick backend schedule tick jobs k ≡ (ok r.0, r.1))
          × Leaves r
    unfolding run_tick
    run_tick-Leaves serial schedule none_async =
        (collect tick (map hire jobs) k, rw (none_async, run_tick), serial-Leaves)
    run_tick-Leaves async schedule none_async =
        let (pool, k') = interleave tick schedule (map hire jobs) k in
        (collect tick pool k', refl, scheduled-Leaves schedule)
    run_tick-Leaves (thread workers) schedule none_async = elim (Bool-cases (ltb (length jobs) 2)) [
      | inl few ↦ (collect tick (map hire jobs) k, rw (none_async, few, run_tick), serial-Leaves)
      | inr many ↦
          let (pool, k') = interleave tick schedule (map hire jobs) k in
          (collect tick pool k', rw (none_async, many, run_tick), scheduled-Leaves schedule)
    ]

  abbrev pub on_backend : Backend → Kernel P → Kernel P
  on_backend backend k = record k { backend = backend }

  reject_on :
      (backend : Backend) (jobs : List Job) (k : Kernel P)
      → reject_async jobs (on_backend backend k) ≡ reject_async jobs k
  unfolding reject_async
  reject_on backend [] k = refl
  reject_on backend (job ∷ jobs) k =
      ap (λ later. if is_async_agent job.agent k then some (async_unsupported job.agent) else later)
        (reject_on backend jobs k)

  -- Two backends, and two schedules, run the agents of a tick to the same result: the same outcome for
  -- each agent, and kernels that agree on every agent and on the messages in every mailbox. The
  -- steps ask for no driver, no new agent and no list of agents; each agent has one job, and no
  -- agent is refused for its asynchronous step.
  pub run_tick-Both :
      (all_quiet : IsQuiet P) (tick : ℕ) (jobs : List Job) (k : Kernel P)
      → (backend backend' : Backend) (schedule schedule' : List ℕ) → Distinct (job_names jobs)
      → reject_async jobs k ≡ none
      → Both
          (run_tick backend schedule tick jobs (on_backend backend k))
          (run_tick backend' schedule' tick jobs (on_backend backend' k))
  run_tick-Both all_quiet tick jobs k backend backend' schedule schedule' distinct none_async =
      let has = λ (n : String). has_mailbox n k.bus in
      let (r, runs, left) =
        run_tick-Leaves all_quiet tick jobs (on_backend backend k) distinct backend schedule
          (reject_on backend jobs k ∙ none_async) in
      let (s, runs', left') =
        run_tick-Leaves all_quiet tick jobs (on_backend backend' k) distinct backend' schedule'
          (reject_on backend' jobs k ∙ none_async) in
      let pool = map (hire {M = P.Memory}) jobs in
      rw (runs, runs')
        (
          ap ok (
              (left (λ m. 0) "").outcomes
              ∙ outcomes_on has tick backend k pool
              ∙ sym ((left' (λ m. 0) "").outcomes ∙ outcomes_on has tick backend' k pool)),
          record {
            agents = λ n.
                (left (λ m. 0) "").agents n
                ∙ agent_on has tick backend k n pool
                ∙ sym ((left' (λ m. 0) "").agents n ∙ agent_on has tick backend' k n pool);
            bus = record {
              boxes = λ n. (left (λ m. 0) "").boxes n ∙ sym ((left' (λ m. 0) "").boxes n);
              mail = λ f n. omega (
                arith,
                (left f n).mail,
                (left' f n).mail,
                mail_on has tick backend k f n pool,
                mail_on has tick backend' k f n pool,
              );
            };
          },
        )
