-- ===== src/Kernel/Schedules.antt =====
-- Steps that only send, wait and exit, under the schedules of a tick. The future of what is left of
-- such a step: the agent that it leaves, whether it succeeds, and what it puts into a mailbox. `has`
-- says which mailboxes there are.
pub mod Requests
pub mod Pieces
pub mod Advancing
pub mod Runs
pub mod Pools
pub mod Interleaved
pub mod Mail
pub mod Alike
pub mod Settling
pub mod Ticks
mod Tests
use tito_os.Prelude.{
  ℕ, ◌+◌, String, Bool, true, false, List, [], ◌∷◌, Option, none, some, ◌&&◌, ◌||◌, if◌then◌else◌,
  ◌≡◌,
}
use tito_os.Errors.{Result, ok, err, unknown_recipient}
use tito_os.Dict.{Dict}
use tito_os.Dict.Laws.{map_some}
use tito_os.Message.{Value, Message, broadcast_name, is_broadcast}
use tito_os.Bus.Mailboxes.{reaches}
use tito_os.Agent.{Agent, Script, Program, running, waiting, done, step_of}
use tito_os.Kernel.{with_state}
use tito_os.Kernel.Context.{Progress, queued, active, finished, after_return, after_raise}

-- The step asks for nothing that depends on what other workers do: no driver, no new agent, no list
-- of agents.
abbrev pub Quiet : {M : Type 0} → Script M → Type 0
Quiet (Script.return m) = Unit
Quiet (Script.raise e m) = Unit
Quiet (Script.send to payload metadata rest) = (r : Result Message) → Quiet (rest r)
Quiet (Script.broadcast payload metadata rest) = (r : Result Message) → Quiet (rest r)
Quiet (Script.spawn spec rest) = ⊥
Quiet (Script.children rest) = ⊥
Quiet (Script.call name operation arguments rest) = ⊥
Quiet (Script.wait rest) = Quiet rest
Quiet (Script.exit rest) = Quiet rest

-- The sum of the weights of the messages. Two mailboxes hold the same messages, in any order, when
-- they weigh the same by every weight.
abbrev pub weight : (Message → ℕ) → List Message → ℕ
weight f [] = 0
weight f (m ∷ ms) = f m + weight f ms

abbrev pub letter : String → String → Value → Dict Value → Message
letter me to payload metadata = record {
  sender = me;
  to = to;
  payload = payload;
  metadata = metadata;
}

-- the code of a step that begins now
abbrev pub script_in : (P : Program) → ℕ → List Message → Agent P.Memory → Script P.Memory
script_in P tick inbox a = step_of P (with_state running a) tick inbox

module _ (has : String → Bool) where
  abbrev pub is_sent : Message → Bool
  is_sent m = is_broadcast m || has m.to

  -- what `send` answers
  abbrev pub answer : Message → Result Message
  answer m = if is_sent m then ok m else err (unknown_recipient m.to)

  -- what a message adds to the weight of the mailbox `x`
  abbrev pub amount : (Message → ℕ) → String → Message → ℕ
  amount f x m = if is_sent m && (reaches m x && has x) then f m else 0

  module _ {M : Type 0} (me : String) where
    abbrev pub agent_after : Script M → Agent M → Agent M
    agent_after (Script.return m) a = after_return m a
    agent_after (Script.raise e m) a = after_raise m a
    agent_after (Script.send to payload metadata rest) a =
        agent_after (rest (answer (letter me to payload metadata))) a
    agent_after (Script.broadcast payload metadata rest) a =
        agent_after (rest (answer (letter me broadcast_name payload metadata))) a
    agent_after (Script.spawn spec rest) a = a
    agent_after (Script.children rest) a = a
    agent_after (Script.call name operation arguments rest) a = a
    agent_after (Script.wait rest) a = agent_after rest (with_state waiting a)
    agent_after (Script.exit rest) a = agent_after rest (with_state done a)

    abbrev pub succeeds : Script M → Bool
    succeeds (Script.return m) = true
    succeeds (Script.raise e m) = false
    succeeds (Script.send to payload metadata rest) =
        succeeds (rest (answer (letter me to payload metadata)))
    succeeds (Script.broadcast payload metadata rest) =
        succeeds (rest (answer (letter me broadcast_name payload metadata)))
    succeeds (Script.spawn spec rest) = true
    succeeds (Script.children rest) = true
    succeeds (Script.call name operation arguments rest) = true
    succeeds (Script.wait rest) = succeeds rest
    succeeds (Script.exit rest) = succeeds rest

    abbrev pub mail_by : (Message → ℕ) → String → Script M → ℕ
    mail_by f x (Script.return m) = 0
    mail_by f x (Script.raise e m) = 0
    mail_by f x (Script.send to payload metadata rest) =
        let m = letter me to payload metadata in amount f x m + mail_by f x (rest (answer m))
    mail_by f x (Script.broadcast payload metadata rest) =
        let m = letter me broadcast_name payload metadata in
        amount f x m + mail_by f x (rest (answer m))
    mail_by f x (Script.spawn spec rest) = 0
    mail_by f x (Script.children rest) = 0
    mail_by f x (Script.call name operation arguments rest) = 0
    mail_by f x (Script.wait rest) = mail_by f x rest
    mail_by f x (Script.exit rest) = mail_by f x rest

  -- The future of a worker, of the agent that is registered under its name.
  module _ (P : Program) (tick : ℕ) (me : String) where
    abbrev pub agent_in : Progress P.Memory → Option (Agent P.Memory) → Option (Agent P.Memory)
    agent_in (queued inbox) none = none
    agent_in (queued inbox) (some a) =
        some (agent_after me (script_in P tick inbox a) (with_state running a))
    agent_in (active script) o = map_some (agent_after me script) o
    agent_in (finished outcome) o = o

    abbrev pub outcome_in : Progress P.Memory → Option (Agent P.Memory) → Bool
    outcome_in (queued inbox) none = true
    outcome_in (queued inbox) (some a) = succeeds me (script_in P tick inbox a)
    outcome_in (active script) o = succeeds me script
    outcome_in (finished outcome) o = outcome

    abbrev pub mail_in : (Message → ℕ) → String → Progress P.Memory → Option (Agent P.Memory) → ℕ
    mail_in f x (queued inbox) none = 0
    mail_in f x (queued inbox) (some a) = mail_by me f x (script_in P tick inbox a)
    mail_in f x (active script) o = mail_by me f x script
    mail_in f x (finished outcome) o = 0
