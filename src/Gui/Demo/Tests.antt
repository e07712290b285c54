-- ===== src/Gui/Demo/Tests.antt =====
-- The demo, run to its end, and each theorem at a concrete input.
use tito_os.Prelude.{Bool, none, String, true, false, List, [], ◌∷◌, map, Option, some, ◌≡◌, refl}
use tito_os.Errors.{Result, Error, ok, ◌>>=◌, transient_failure}
use tito_os.Dict
use tito_os.Message.{Value, text, Message, is_broadcast}
use tito_os.Bus
use tito_os.Agent.{
  Agent, ready, on_failure, is_alive, is_waiting, is_failed, alive_state, step_of, make_agent,
}
use tito_os.Kernel.{
  Kernel, serial, StopReason, quiescent, register, live_snapshot, make_kernel, filter_alive,
  update_agent, supervise, may_restart, escalate, living_parent, unregister_finished_mailbox,
  quiescent_among, any_not_waiting,
}
use tito_os.Kernel.Context.{
  ctx_send, ctx_wait, begin_step, script_of, end_step, record_failure, run_script,
}
use tito_os.Kernel.Tick.{
  step, run_out, interleave, collect, is_async_agent, reject_async, run_tick, plan, with_outcome,
  supervise_all, escalate_failed, escalate_all, reclaim, settle,
}
use tito_os.Kernel.Run.{run, run_loop, stop_now}
use tito_os.Gui.Demo.{
  Attributes, dispatching, working, collecting, demo, demo_kernel, dispatcher_step, hand_out,
  worker_step, collector_step,
}

-- `str`, of a text
abbrev shown : Value → String
shown (text s) = s
shown _ = ""

-- all that the demo computes through
demo_code : Unit {0}
unfolding Dict.get Dict.set Dict.pop Dict.modify is_broadcast Bus.mailbox Bus.has_mailbox
    Bus.register Bus.unregister Bus.send Bus.post Bus.receive_many Bus.any_pending Bus.extend_left
    Bus.reversed Bus.requeue is_alive alive_state is_waiting is_failed live_snapshot filter_alive
    update_agent supervise may_restart escalate living_parent unregister_finished_mailbox
    quiescent_among any_not_waiting ctx_send ctx_wait register begin_step step_of script_of end_step
    record_failure run_script run_out interleave collect is_async_agent reject_async run_tick plan
    with_outcome supervise_all escalate_failed escalate_all reclaim settle step run run_loop
    stop_now make_agent make_kernel demo_kernel dispatcher_step hand_out worker_step collector_step
demo_code = tt

-- what the run leaves: the stop reason, the errors, and the attributes of the agents
demo_run : Result (Option StopReason × List (String × Error) × List Attributes)
unfolding demo_code
demo_run = demo_kernel shown >>= λ k.
    let after = (run 100 [] k).1 in
    ok (after.stop_reason, after.errors, map (λ a. a.memory) (Dict.values after.agents))

-- One worker fails at its first job and is restarted; the collector has all three results.
whole_demo :
    demo_run
    ≡ ok (
      some quiescent,
      ("worker-2", transient_failure) ∷ [],
      dispatching ("worker-1" ∷ "worker-2" ∷ []) 3
          ∷ working false
          ∷ working false
          ∷ collecting (
              text "index: done by worker-1"
              ∷ text "upload: done by worker-1"
              ∷ text "resize: done by worker-2"
              ∷ [])
          ∷ [],
    )
unfolding demo_code demo_run
whole_demo = refl

abbrev job : String → Message
job s = record { sender = "dispatcher"; to = "dispatcher"; payload = text s; metadata = [] }

abbrev member : Bool → Agent Attributes
member flaky = record {
  name = "worker-2";
  kind = "Worker";
  state = ready;
  parent = some "dispatcher";
  restarts = 0;
  restart_policy = on_failure;
  max_restarts = 3;
  is_async = false;
  memory = working flaky;
  saved = none;
}

abbrev crew : Kernel (demo shown)
crew = record {
  bus = record { mailboxes = ("worker-2", job "upload" ∷ []) ∷ [] };
  integrations = [];
  agents = ("worker-2", member true) ∷ [];
  tick = 2;
  errors = [];
  stop_reason = none;
  max_workers = 1;
  backend = serial;
}
