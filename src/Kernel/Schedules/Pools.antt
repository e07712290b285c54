-- ===== src/Kernel/Schedules/Pools.antt =====
-- What a pool of workers will leave, and who has a part in it.
use tito_os.Prelude.{
  ℕ, ◌+◌, String, Bool, false, List, [], ◌∷◌, map, Option, ◌==◌, elem, if◌then◌else◌, ◌≡◌, refl, ap,
  arith, eq_iff,
}
use tito_os.Dict
use tito_os.Dict.{Distinct}
use tito_os.Message.{Message}
use tito_os.Agent.{Agent, Program}
use tito_os.Kernel.{Kernel, Backend}
use tito_os.Kernel.Tick.{Worker}
use tito_os.Kernel.Schedules.{agent_in, outcome_in, mail_in}

abbrev pub pool_names : {M : Type 0} → List (Worker M) → List String
pool_names = map (λ w. w.agent)

module _ {P : Program} (has : String → Bool) (tick : ℕ) where
  -- what the workers have still to put into the mailbox `x`
  abbrev pub pool_mail : (Message → ℕ) → String → List (Worker P.Memory) → Kernel P → ℕ
  pool_mail f x [] k = 0
  pool_mail f x (w ∷ pool) k =
      mail_in has P tick w.agent f x w.progress (Dict.get w.agent k.agents) + pool_mail f x pool k

  abbrev pub pool_outcomes : List (Worker P.Memory) → Kernel P → List Bool
  pool_outcomes [] k = []
  pool_outcomes (w ∷ pool) k =
      outcome_in has P tick w.agent w.progress (Dict.get w.agent k.agents) ∷ pool_outcomes pool k

  -- the agent that will be registered as `n`
  abbrev pub pool_agent : String → List (Worker P.Memory) → Kernel P → Option (Agent P.Memory)
  pool_agent n [] k = Dict.get n k.agents
  pool_agent n (w ∷ pool) k =
      if w.agent == n
      then agent_in has P tick w.agent w.progress (Dict.get w.agent k.agents)
      else pool_agent n pool k

  pub pool_agent-absent :
      (n : String) (pool : List (Worker P.Memory)) (k : Kernel P)
      → elem n (pool_names pool) ≡ false
      → pool_agent n pool k ≡ Dict.get n k.agents
  pool_agent-absent n [] k out = refl
  pool_agent-absent n (w ∷ pool) k out = ground (arith, pool_agent-absent n pool k)

  -- Another agent's piece changes no worker's future.
  module _ (me : String) (k k' : Kernel P)
      (others : (n : String) → (me == n) ≡ false → Dict.get n k'.agents ≡ Dict.get n k.agents) where
    pub frame_mail :
        (f : Message → ℕ) (x : String) (pool : List (Worker P.Memory))
        → elem me (pool_names pool) ≡ false
        → pool_mail f x pool k' ≡ pool_mail f x pool k
    frame_mail f x [] out = refl
    frame_mail f x (w ∷ pool) out =
        rw (others w.agent (ground (arith, eq_iff w.agent me, eq_iff me w.agent))) (
          ap (λ n. mail_in has P tick w.agent f x w.progress (Dict.get w.agent k.agents) + n)
            (frame_mail f x pool (ground arith)))

    pub frame_outcomes :
        (pool : List (Worker P.Memory))
        → elem me (pool_names pool) ≡ false
        → pool_outcomes pool k' ≡ pool_outcomes pool k
    frame_outcomes [] out = refl
    frame_outcomes (w ∷ pool) out =
        rw (others w.agent (ground (arith, eq_iff w.agent me, eq_iff me w.agent))) (
          ap (λ os. outcome_in has P tick w.agent w.progress (Dict.get w.agent k.agents) ∷ os)
            (frame_outcomes pool (ground arith)))

    pub frame_agent :
        (n : String) (pool : List (Worker P.Memory))
        → (me == n) ≡ false
        → elem me (pool_names pool) ≡ false
        → pool_agent n pool k' ≡ pool_agent n pool k
    frame_agent n [] other out = others n other
    frame_agent n (w ∷ pool) other out =
        rw (others w.agent (ground (arith, eq_iff w.agent me, eq_iff me w.agent))) (
          ap
            (λ o.
              if w.agent == n
              then agent_in has P tick w.agent w.progress (Dict.get w.agent k.agents)
              else o)
            (frame_agent n pool other (ground arith)))

  -- The backend of the kernel is not looked at.
  module _ (backend : Backend) (k : Kernel P) where
    pub mail_on :
        (f : Message → ℕ) (x : String) (pool : List (Worker P.Memory))
        → pool_mail f x pool (record k { backend = backend }) ≡ pool_mail f x pool k
    mail_on f x [] = refl
    mail_on f x (w ∷ pool) =
        ap (λ n. mail_in has P tick w.agent f x w.progress (Dict.get w.agent k.agents) + n)
          (mail_on f x pool)

    pub outcomes_on :
        (pool : List (Worker P.Memory))
        → pool_outcomes pool (record k { backend = backend }) ≡ pool_outcomes pool k
    outcomes_on [] = refl
    outcomes_on (w ∷ pool) =
        ap (λ os. outcome_in has P tick w.agent w.progress (Dict.get w.agent k.agents) ∷ os)
          (outcomes_on pool)

    pub agent_on :
        (n : String) (pool : List (Worker P.Memory))
        → pool_agent n pool (record k { backend = backend }) ≡ pool_agent n pool k
    agent_on n [] = refl
    agent_on n (w ∷ pool) =
        ap
          (λ o.
            if w.agent == n
            then agent_in has P tick w.agent w.progress (Dict.get w.agent k.agents)
            else o)
          (agent_on n pool)
