-- ===== src/Kernel/Samples.antt =====
-- A small program and kernels of it, for tests.
use tito_os.Prelude.{
  ℕ, refl, arith, eq_iff, ◌+◌, ◌==◌, String, false, List, [], ◌∷◌, Option, none, some,
  if◌then◌else◌, nat_eq,
}
use tito_os.Errors.{ok, custom}
use tito_os.Dict
use tito_os.Dict.{Dict}
use tito_os.Bus
use tito_os.Message.{Value, null, text, int, Message}
use tito_os.Agent.{
  Agent, is_alive, alive_state, ready, waiting, failed, RestartPolicy, never, on_failure, Script,
  Program,
}
use tito_os.Kernel.{Kernel, Backend, serial}
use tito_os.Kernel.Soundness.{IsSound}

-- A boss that sends a job at the first tick and stops at the answer; a worker that answers every
-- message, and stops; a faulty agent that raises in every step. The memory counts the restarts.
abbrev pub greet : ℕ → Script ℕ
greet m = Script.send "worker" (text "job") [] (λ r. Script.return m)

abbrev pub boss_step : ℕ → ℕ → List Message → Script ℕ
boss_step m tick (mail ∷ inbox) = Script.exit (Script.return m)
boss_step m tick [] = if nat_eq tick 1 then greet m else Script.wait (Script.return m)

abbrev pub worker_step : ℕ → List Message → Script ℕ
worker_step m [] = Script.wait (Script.return m)
worker_step m (mail ∷ inbox) =
    Script.send mail.sender (text "done") [] (λ r. Script.exit (Script.return m))

abbrev pub sample_step : Agent ℕ → ℕ → List Message → Script ℕ
sample_step a tick inbox =
    if a.kind == "Boss"
    then boss_step a.memory tick inbox
    else if a.kind == "Worker"
    then worker_step a.memory inbox
    else Script.raise (custom 7) a.memory

abbrev recall : ℕ → Dict Value → ℕ
recall m ((_, int false n) ∷ _) = n
recall m _ = m

abbrev pub sample : Program
sample = record {
  Memory = ℕ;
  Device = ℕ;
  no_attributes = 0;
  step = sample_step;
  on_restart = λ a. (a.memory + 1, none);
  save_state = λ a. ("memory", int false a.memory) ∷ [];
  load_state = λ a state. recall a.memory state;
  perform = λ d operation arguments. (ok null, d + 1);
  close = λ d. (none, d);
}

abbrev pub agent_of : String → String → RestartPolicy → Option String → Agent ℕ
agent_of name kind policy parent = record {
  name = name;
  kind = kind;
  state = ready;
  parent = parent;
  restarts = 0;
  restart_policy = policy;
  max_restarts = 1;
  is_async = false;
  memory = 0;
  saved = none;
}

-- the office after the failure of `bad`, with a message that waits for `worker`
abbrev pub paused : Kernel sample
paused = record {
  bus = record {
    mailboxes =
        ("boss", [])
        ∷ (
          "worker",
          record { sender = "boss"; to = "worker"; payload = text "job"; metadata = [] } ∷ [],
        )
        ∷ [];
  };
  integrations = [];
  agents =
      ("boss", record (agent_of "boss" "Boss" never none) { state = waiting; memory = 5 })
      ∷ ("worker", agent_of "worker" "Worker" never (some "boss"))
      ∷ (
        "bad",
        record (agent_of "bad" "Faulty" on_failure (some "boss")) {
          state = failed;
          restarts = 1;
          memory = 2;
        },
      )
      ∷ [];
  tick = 4;
  errors = [];
  stop_reason = none;
  max_workers = 1;
  backend = serial;
}

abbrev pub office : Backend → Kernel sample
office backend = record {
  bus = record { mailboxes = ("boss", []) ∷ ("worker", []) ∷ ("bad", []) ∷ [] };
  integrations = [];
  agents =
      ("boss", agent_of "boss" "Boss" never none)
      ∷ ("worker", agent_of "worker" "Worker" never (some "boss"))
      ∷ ("bad", agent_of "bad" "Faulty" on_failure (some "boss"))
      ∷ [];
  tick = 0;
  errors = [];
  stop_reason = none;
  max_workers = 1;
  backend = backend;
}

pub paused-IsSound : IsSound paused
unfolding Dict.get is_alive alive_state Bus.has_mailbox
paused-IsSound = record {
  named = λ n a e. ground (arith, eq_iff "boss" n, eq_iff "worker" n, eq_iff "bad" n);
  reachable = λ n a e alive. ground (arith, eq_iff "boss" n, eq_iff "worker" n, eq_iff "bad" n);
  distinct = (refl, (refl, (refl, tt)));
}
