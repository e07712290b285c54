-- ===== src/Kernel/Schedules/Pieces.antt =====
-- The future of a worker across one request of its step: the agent that it will leave, its outcome,
-- and the weight of a mailbox with what it has still to send.
use tito_os.Prelude.{
  ℕ, ◌+◌, String, Bool, true, false, List, Option, none, some, ◌==◌, if◌then◌else◌, ◌≡◌, refl, ap,
  arith, eq_refl,
}
use tito_os.Errors.{Result}
use tito_os.Dict
use tito_os.Dict.Laws.{map_some, get-modify}
use tito_os.Message.{Value, Message, broadcast_name}
use tito_os.Bus
use tito_os.Bus.{mailbox}
use tito_os.Agent.{Agent, Script, Program, waiting, done}
use tito_os.Kernel.{Kernel, update_agent, with_state}
use tito_os.Kernel.Context.{
  Progress, queued, active, finished, ctx_send, ctx_broadcast, ctx_wait, ctx_exit, end_step,
  record_failure, one_request, after_return, after_raise,
}
use tito_os.Kernel.Schedules.{Quiet, weight, letter, agent_after, agent_in, outcome_in, mail_in}
use tito_os.Kernel.Schedules.Requests.{Has, Kept, send-Kept}

-- every class of agent has quiet steps
abbrev pub IsQuiet : Program → Type 0
IsQuiet P = (a : Agent P.Memory) (tick : ℕ) (inbox : List Message) → Quiet (P.step a tick inbox)

abbrev pub QuietProgress : {M : Type 0} → Progress M → Type 0
QuietProgress (queued inbox) = Unit
QuietProgress (active script) = Quiet script
QuietProgress (finished outcome) = Unit

map_some_twice :
    {V : Type 0} (g h : V → V) (o : Option V)
    → map_some g (map_some h o) ≡ map_some (λ v. g (h v)) o
map_some_twice g h none = refl
map_some_twice g h (some v) = refl

module _ {P : Program} where
  pub get-update :
      (me n : String) (g : Agent P.Memory → Agent P.Memory) (k : Kernel P)
      → Dict.get n (update_agent me g k).agents
        ≡ (if me == n then map_some g (Dict.get n k.agents) else Dict.get n k.agents)
  unfolding update_agent
  get-update me n g k = get-modify me n g k.agents

  module _ (has : String → Bool) (tick : ℕ) (f : Message → ℕ) (x : String) where
    pub record Advanced (me : String) (p : Progress P.Memory) (k : Kernel P)
        (r : Progress P.Memory × Kernel P) : Type 0 where
      pub boxes : Has has r.1.bus
      pub others : (n : String) → (me == n) ≡ false → Dict.get n r.1.agents ≡ Dict.get n k.agents
      pub agent :
          agent_in has P tick me r.0 (Dict.get me r.1.agents)
          ≡ agent_in has P tick me p (Dict.get me k.agents)
      pub outcome :
          outcome_in has P tick me r.0 (Dict.get me r.1.agents)
          ≡ outcome_in has P tick me p (Dict.get me k.agents)
      pub mail :
          weight f (mailbox x r.1.bus) + mail_in has P tick me f x r.0 (Dict.get me r.1.agents)
          ≡ weight f (mailbox x k.bus) + mail_in has P tick me f x p (Dict.get me k.agents)
      pub quiet : QuietProgress r.0

    -- an answered message, and the rest of the step
    sent-Advanced :
        (me to : String) (payload : Value) (metadata : Dict.Dict Value)
        → (rest : Result Message → Script P.Memory) (k : Kernel P) → (r : Result Message × Kernel P)
        → Kept has f x (letter me to payload metadata) k r
        → ((s : Result Message) → Quiet (rest s))
        → Advanced me (active (Script.send to payload metadata rest)) k (active (rest r.0), r.1)
    sent-Advanced me to payload metadata rest k (s, k') kept quiet = record {
      boxes = kept.boxes;
      others = λ n other. ap (Dict.get n) kept.agents;
      agent = rw (kept.answered, kept.agents);
      outcome = rw kept.answered;
      mail = rw kept.answered (omega (arith, kept.grown));
      quiet = quiet s;
    }

    -- a write to the worker's own agent
    pub own-Advanced :
        (me : String) (g : Agent P.Memory → Agent P.Memory) (p p' : Progress P.Memory)
        → (k : Kernel P) → Has has k.bus
        → (o : Option (Agent P.Memory)) → Dict.get me k.agents ≡ o
        → (agent_in has P tick me p' (map_some g o) ≡ agent_in has P tick me p o)
          × (outcome_in has P tick me p' (map_some g o) ≡ outcome_in has P tick me p o)
          × (mail_in has P tick me f x p' (map_some g o) ≡ mail_in has P tick me f x p o)
        → QuietProgress p'
        → Advanced me p k (p', update_agent me g k)
    unfolding update_agent
    own-Advanced me g p p' k here o e (agent, outcome, mail) quiet =
        let own : Dict.get me (update_agent me g k).agents ≡ map_some g o =
          ground (arith, get-update me me g k, eq_refl me) in
        record {
          boxes = here;
          others = λ n other. ground (arith, get-update me n g k);
          agent = rw (own, e) agent;
          outcome = rw (own, e) outcome;
          mail = rw (own, e) (ap (λ w. weight f (mailbox x k.bus) + w) mail);
          quiet = quiet;
        }

    pub one_request-Advanced :
        (me : String) (script : Script P.Memory) (k : Kernel P)
        → Has has k.bus
        → Quiet script
        → Advanced me (active script) k (one_request me script k)
    unfolding one_request
    one_request-Advanced me (Script.return m) k here quiet =
        unfold end_step in
        own-Advanced me (after_return m) (active (Script.return m)) (finished true) k here
          (Dict.get me k.agents) refl (refl, refl, refl) tt
    one_request-Advanced me (Script.raise e m) k here quiet =
        let failed =
          own-Advanced me (after_raise m) (active (Script.raise e m)) (finished false) k here
            (Dict.get me k.agents) refl (refl, refl, refl) tt in
        unfold record_failure in
        record {
          boxes = failed.boxes;
          others = failed.others;
          agent = failed.agent;
          outcome = failed.outcome;
          mail = failed.mail;
          quiet = tt;
        }
    one_request-Advanced me (Script.send to payload metadata rest) k here quiet =
        sent-Advanced me to payload metadata rest k (ctx_send me to payload metadata k)
          (unfold ctx_send Bus.post in send-Kept has f x (letter me to payload metadata) k here)
          quiet
    one_request-Advanced me (Script.broadcast payload metadata rest) k here quiet =
        let s =
          sent-Advanced me broadcast_name payload metadata rest k
            (ctx_broadcast me payload metadata k)
            (unfold ctx_broadcast Bus.broadcast Bus.post in
              send-Kept has f x (letter me broadcast_name payload metadata) k here)
            quiet in
        record {
          boxes = s.boxes;
          others = s.others;
          agent = s.agent;
          outcome = s.outcome;
          mail = s.mail;
          quiet = s.quiet;
        }
    one_request-Advanced me (Script.spawn spec rest) k here quiet = elim quiet [ ]
    one_request-Advanced me (Script.children rest) k here quiet = elim quiet [ ]
    one_request-Advanced me (Script.call name operation arguments rest) k here quiet =
        elim quiet [ ]
    one_request-Advanced me (Script.wait rest) k here quiet =
        unfold ctx_wait in
        own-Advanced me (with_state waiting) (active (Script.wait rest)) (active rest) k here
          (Dict.get me k.agents) refl
          (
            map_some_twice (agent_after has me rest) (with_state waiting) (Dict.get me k.agents),
            refl,
            refl,
          )
          quiet
    one_request-Advanced me (Script.exit rest) k here quiet =
        unfold ctx_exit in
        own-Advanced me (with_state done) (active (Script.exit rest)) (active rest) k here
          (Dict.get me k.agents) refl
          (
            map_some_twice (agent_after has me rest) (with_state done) (Dict.get me k.agents),
            refl,
            refl,
          )
          quiet
