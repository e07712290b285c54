-- ===== src/Kernel/Schedules/Tests.antt =====
-- Two workers that answer their boss in one tick, on two schedules.
use tito_os.Prelude.{
  ℕ, String, Bool, true, false, List, [], ◌∷◌, map, none, some, ◌≡◌, refl, arith, eq_iff,
  if◌then◌else◌, nat_eq, ◌==◌,
}
use tito_os.Errors.{custom}
use tito_os.Dict
use tito_os.Bus
use tito_os.Message.{Message, text, is_broadcast}
use tito_os.Agent.{Script, never, waiting, is_alive, is_waiting, is_failed, alive_state, step_of}
use tito_os.Kernel.{Kernel, serial, thread, live_snapshot, filter_alive, update_agent}
use tito_os.Kernel.Context.{
  ctx_send, ctx_wait, ctx_exit, begin_step, script_of, end_step, one_request, run_script,
}
use tito_os.Kernel.Tick.{
  step, advance, run_out, advance_at, interleave, collect, is_async_agent, reject_async, run_tick,
  plan, with_outcome, supervise_all, escalate_failed, escalate_all, reclaim, settle,
}
use tito_os.Kernel
use tito_os.Kernel.Samples.{sample, boss_step, worker_step, greet, agent_of}
use tito_os.Kernel.Soundness.{IsSound}
use tito_os.Kernel.Schedules.{Quiet}
use tito_os.Kernel.Schedules.Pieces.{IsQuiet}
use tito_os.Kernel.Schedules.Alike.{Both, on_backend}
use tito_os.Kernel.Schedules.Ticks.{step-Both}

abbrev order : String → Message
order worker = record { sender = "boss"; to = worker; payload = text "job"; metadata = [] }

abbrev pair : Kernel sample
pair = record {
  bus = record {
    mailboxes = ("boss", []) ∷ ("one", order "one" ∷ []) ∷ ("two", order "two" ∷ []) ∷ [];
  };
  integrations = [];
  agents =
      ("boss", record (agent_of "boss" "Boss" never none) { state = waiting })
      ∷ ("one", agent_of "one" "Worker" never (some "boss"))
      ∷ ("two", agent_of "two" "Worker" never (some "boss"))
      ∷ [];
  tick = 1;
  errors = [];
  stop_reason = none;
  max_workers = 2;
  backend = thread 2;
}

-- all that a tick of the pair computes through
pair_code : Unit {0}
unfolding Dict.get Dict.modify Dict.pop is_broadcast Bus.mailbox Bus.has_mailbox Bus.unregister
    Bus.send Bus.post Bus.receive_many is_alive alive_state is_waiting is_failed live_snapshot
    filter_alive update_agent Kernel.unregister_finished_mailbox ctx_send ctx_wait ctx_exit
    begin_step step_of script_of end_step one_request run_script advance run_out advance_at
    interleave collect is_async_agent reject_async run_tick plan with_outcome supervise_all
    escalate_failed escalate_all reclaim settle step
pair_code = tt

abbrev senders : Kernel sample → List String
unfolding pair_code
senders k = map (λ m. m.sender) (Bus.mailbox "boss" k.bus)

-- The order in which the boss gets the answers is that of the workers' sends.
in_order : senders (step [] pair).1 ≡ "one" ∷ "two" ∷ []
unfolding pair_code senders
in_order = refl

overtaken : senders (step (1 ∷ 1 ∷ []) pair).1 ≡ "two" ∷ "one" ∷ []
unfolding pair_code senders
overtaken = refl

sample-IsQuiet : IsQuiet sample
sample-IsQuiet a tick inbox = by_kind (a.kind == "Boss") (a.kind == "Worker")
  where
    by_tick : (b : Bool) (m : ℕ) → Quiet (if b then greet m else Script.wait (Script.return m))
    by_tick true m = λ r. tt
    by_tick false m = tt

    boss : (mail : List Message) → Quiet (boss_step a.memory tick mail)
    boss [] = by_tick (nat_eq tick 1) a.memory
    boss (_ ∷ _) = tt

    worker : (mail : List Message) → Quiet (worker_step a.memory mail)
    worker [] = tt
    worker (_ ∷ _) = λ r. tt

    by_kind :
        (b w : Bool)
        → Quiet (
            if b
            then boss_step a.memory tick inbox
            else if w
            then worker_step a.memory inbox
            else Script.raise (custom 7) a.memory)
    by_kind true w = boss inbox
    by_kind false true = worker inbox
    by_kind false false = tt

pair-IsSound : IsSound pair
unfolding Dict.get is_alive alive_state Bus.has_mailbox
pair-IsSound = record {
  named = λ n a e. ground (arith, eq_iff "boss" n, eq_iff "one" n, eq_iff "two" n);
  reachable = λ n a e alive. ground (arith, eq_iff "boss" n, eq_iff "one" n, eq_iff "two" n);
  distinct = (refl, (refl, (refl, tt)));
}

step-Both_example :
    Both (step [] (on_backend serial pair)) (step (1 ∷ 1 ∷ []) (on_backend (thread 2) pair))
unfolding pair_code
step-Both_example =
    step-Both sample-IsQuiet pair serial (thread 2) [] (1 ∷ 1 ∷ []) pair-IsSound refl
