-- ===== src/Kernel/Schedules/Interleaved.antt =====
-- What a pool will leave, under any schedule, and what it leaves when its workers are run out.
use tito_os.Prelude.{
  ℕ, zero, suc, ◌+◌, String, Bool, false, List, [], ◌∷◌, ◌==◌, elem, if◌then◌else◌, ◌≡◌, refl, ap,
  sym, ◌∙◌, subst, arith, All, Bool-cases, inl, inr, eq_iff,
}
use tito_os.Dict
use tito_os.Dict.{Distinct}
use tito_os.Message.{Message}
use tito_os.Bus.{mailbox}
use tito_os.Agent.{Program}
use tito_os.Kernel.{Kernel}
use tito_os.Kernel.Context.{Progress}
use tito_os.Kernel.Tick.{Worker, advance, run_out, advance_at, interleave, collect}
use tito_os.Kernel.Schedules.{weight, agent_in, outcome_in}
use tito_os.Kernel.Schedules.Requests.{Has}
use tito_os.Kernel.Schedules.Pieces.{IsQuiet, QuietProgress, Advanced}
use tito_os.Kernel.Schedules.Advancing.{advance-Advanced}
use tito_os.Kernel.Schedules.Runs.{Ended, run_out-Ended}
use tito_os.Kernel.Schedules.Pools.{
  pool_names, pool_mail, pool_outcomes, pool_agent, pool_agent-absent, frame_mail, frame_outcomes,
  frame_agent,
}

module _ {P : Program} (has : String → Bool) (tick : ℕ) (f : Message → ℕ) (x : String)
    (all_quiet : IsQuiet P) where
  -- what pieces of the pool's runs keep
  pub record Same (pool : List (Worker P.Memory)) (k : Kernel P)
      (r : List (Worker P.Memory) × Kernel P) : Type 0 where
    pub boxes : Has has r.1.bus
    pub names : pool_names r.0 ≡ pool_names pool
    pub others :
        (n : String)
        → elem n (pool_names pool) ≡ false
        → Dict.get n r.1.agents ≡ Dict.get n k.agents
    pub agents : (n : String) → pool_agent has tick n r.0 r.1 ≡ pool_agent has tick n pool k
    pub outcomes : pool_outcomes has tick r.0 r.1 ≡ pool_outcomes has tick pool k
    pub mail :
        weight f (mailbox x r.1.bus) + pool_mail has tick f x r.0 r.1
        ≡ weight f (mailbox x k.bus) + pool_mail has tick f x pool k
    pub quiet : All (λ w. QuietProgress w.progress) r.0

  idle-Same :
      (pool : List (Worker P.Memory)) (k : Kernel P)
      → Has has k.bus
      → All (λ w. QuietProgress w.progress) pool
      → Same pool k (pool, k)
  idle-Same pool k here quiet = record {
    boxes = here;
    names = refl;
    others = λ n out. refl;
    agents = λ n. refl;
    outcomes = refl;
    mail = refl;
    quiet = quiet;
  }

  first-Same :
      (w : Worker P.Memory) (pool : List (Worker P.Memory)) (k : Kernel P)
      → (r : Progress P.Memory × Kernel P) → Advanced has tick f x w.agent w.progress k r
      → elem w.agent (pool_names pool) ≡ false
      → All (λ w. QuietProgress w.progress) pool
      → Same (w ∷ pool) k (record w { progress = r.0 } ∷ pool, r.1)
  first-Same w pool k (p, k') h out quiet = record {
    boxes = h.boxes;
    names = refl;
    others = λ n absent. h.others n (ground arith);
    agents = by_name;
    outcomes = rw h.outcome (
        ap (λ os. outcome_in has P tick w.agent w.progress (Dict.get w.agent k.agents) ∷ os)
          (frame_outcomes has tick w.agent k k' h.others pool out));
    mail = omega (arith, h.mail, frame_mail has tick w.agent k k' h.others f x pool out);
    quiet = (h.quiet, quiet);
  }
    where
      by_name :
          (n : String)
          → pool_agent has tick n (record w { progress = p } ∷ pool) k'
            ≡ pool_agent has tick n (w ∷ pool) k
      by_name n = elim (Bool-cases (w.agent == n)) [
        | inl same ↦ rw same h.agent
        | inr other ↦ rw other (frame_agent has tick w.agent k k' h.others n pool other out)
      ]

  later-Same :
      (w : Worker P.Memory) (pool : List (Worker P.Memory)) (k : Kernel P)
      → (r : List (Worker P.Memory) × Kernel P) → Same pool k r
      → elem w.agent (pool_names pool) ≡ false
      → QuietProgress w.progress
      → Same (w ∷ pool) k (w ∷ r.0, r.1)
  later-Same w pool k (pool', k') h out quiet = record {
    boxes = h.boxes;
    names = ap (λ ns. w.agent ∷ ns) h.names;
    others = λ n absent. h.others n (ground arith);
    agents = λ n. rw (h.others w.agent out) (
        ap
          (λ o.
            if w.agent == n
            then agent_in has P tick w.agent w.progress (Dict.get w.agent k.agents)
            else o)
          (h.agents n));
    outcomes = rw (h.others w.agent out) (
        ap (λ os. outcome_in has P tick w.agent w.progress (Dict.get w.agent k.agents) ∷ os)
          h.outcomes);
    mail = rw (h.others w.agent out) (omega (arith, h.mail));
    quiet = (quiet, h.quiet);
  }

  advance_at-Same :
      (i : ℕ) (pool : List (Worker P.Memory)) (k : Kernel P)
      → Has has k.bus
      → Distinct (pool_names pool)
      → All (λ w. QuietProgress w.progress) pool
      → Same pool k (advance_at tick i pool k)
  unfolding advance_at
  advance_at-Same i [] k here distinct quiet = idle-Same [] k here quiet
  advance_at-Same zero (w ∷ pool) k here (out, distinct) (q, quiet) =
      first-Same w pool k (advance tick w.agent w.progress k)
        (advance-Advanced has tick f x all_quiet w.agent w.progress k here q) out quiet
  advance_at-Same (suc i) (w ∷ pool) k here (out, distinct) (q, quiet) =
      later-Same w pool k (advance_at tick i pool k) (advance_at-Same i pool k here distinct quiet)
        out q

  then-Same :
      (pool : List (Worker P.Memory)) (k : Kernel P) (r s : List (Worker P.Memory) × Kernel P)
      → Same pool k r
      → Same r.0 r.1 s
      → Same pool k s
  then-Same pool k r s h h' = record {
    boxes = h'.boxes;
    names = h'.names ∙ h.names;
    others = λ n out. h'.others n (ap (elem n) h.names ∙ out) ∙ h.others n out;
    agents = λ n. h'.agents n ∙ h.agents n;
    outcomes = h'.outcomes ∙ h.outcomes;
    mail = h'.mail ∙ h.mail;
    quiet = h'.quiet;
  }

  pub interleave-Same :
      (schedule : List ℕ) (pool : List (Worker P.Memory)) (k : Kernel P)
      → Has has k.bus
      → Distinct (pool_names pool)
      → All (λ w. QuietProgress w.progress) pool
      → Same pool k (interleave tick schedule pool k)
  unfolding interleave
  interleave-Same [] pool k here distinct quiet = idle-Same pool k here quiet
  interleave-Same (i ∷ schedule) pool k here distinct quiet =
      let first = advance_at-Same i pool k here distinct quiet in
      let (pool', k') = advance_at tick i pool k in
      then-Same pool k (pool', k') _ first
        (interleave-Same schedule pool' k' first.boxes (subst Distinct (sym first.names) distinct)
          first.quiet)

  -- what is left when all workers have run out
  pub record Left (pool : List (Worker P.Memory)) (k : Kernel P) (r : List Bool × Kernel P)
      : Type 0 where
    pub boxes : Has has r.1.bus
    pub agents : (n : String) → Dict.get n r.1.agents ≡ pool_agent has tick n pool k
    pub outcomes : r.0 ≡ pool_outcomes has tick pool k
    pub mail :
        weight f (mailbox x r.1.bus) ≡ weight f (mailbox x k.bus) + pool_mail has tick f x pool k

  pub collect-Left :
      (pool : List (Worker P.Memory)) (k : Kernel P)
      → Has has k.bus
      → Distinct (pool_names pool)
      → All (λ w. QuietProgress w.progress) pool
      → Left pool k (collect tick pool k)
  unfolding collect
  collect-Left [] k here distinct quiet = record {
    boxes = here;
    agents = λ n. refl;
    outcomes = refl;
    mail = omega arith;
  }
  collect-Left (w ∷ pool) k here (out, distinct) (q, quiet) =
      let (outcome, k') = run_out tick w.agent w.progress k in
      let h : Ended has tick f x w.agent w.progress k (outcome, k') =
        run_out-Ended has tick f x all_quiet w.agent w.progress k here q in
      let rest = collect-Left pool k' h.boxes distinct quiet in
      record {
        boxes = rest.boxes;
        agents = λ n. elim (Bool-cases (w.agent == n)) [
          | inl same ↦ rw same (
              subst
                (λ name.
                  Dict.get name (collect tick pool k').1.agents
                  ≡ agent_in has P tick w.agent w.progress (Dict.get w.agent k.agents))
                ((eq_iff w.agent n).0 same)
                (rest.agents w.agent ∙ (pool_agent-absent has tick w.agent pool k' out ∙ h.agent)))
          | inr other ↦
              rw other (rest.agents n ∙ frame_agent has tick w.agent k k' h.others n pool other out)
        ];
        outcomes =
            ap (λ o. o ∷ (collect tick pool k').0) h.outcome
            ∙ ap (λ os. outcome_in has P tick w.agent w.progress (Dict.get w.agent k.agents) ∷ os)
                (rest.outcomes ∙ frame_outcomes has tick w.agent k k' h.others pool out);
        mail =
            omega
              (arith, h.mail, rest.mail, frame_mail has tick w.agent k k' h.others f x pool out);
      }
