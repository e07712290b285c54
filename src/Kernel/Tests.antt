-- ===== src/Kernel/Tests.antt =====
-- The kernel on small inputs, and each theorem at a concrete one.
use tito_os.Prelude.{ℕ, ◌+◌, true, [], ◌∷◌, ◌++◌, none, some, ◌≡◌, refl, arith, eq_iff}
use tito_os.Errors.{ok}
use tito_os.Dict
use tito_os.Message.{is_broadcast}
use tito_os.Bus
use tito_os.Agent.{
  Agent, never, on_failure, waiting, is_alive, is_waiting, is_failed, alive_state, step_of,
}
use tito_os.Kernel.{
  Kernel, finished, agent_names, is_quiescent, register, serial, thread, live_snapshot,
  filter_alive, update_agent, supervise, may_restart, escalate, living_parent,
  unregister_finished_mailbox, quiescent_among, any_not_waiting,
}
use tito_os.Kernel.Context.{
  ctx_send, ctx_broadcast, ctx_spawn, ctx_call, ctx_wait, ctx_exit, begin_step, script_of, end_step,
  record_failure, one_request, run_script,
}
use tito_os.Kernel.Tick.{
  TickReport, step, advance, run_out, advance_at, interleave, collect, is_async_agent, reject_async,
  run_tick, plan, with_outcome, supervise_all, escalate_failed, escalate_all, reclaim, settle,
}
use tito_os.Kernel.Run.{run, run_loop, stop_now}
use tito_os.Kernel.Samples.{sample, office, agent_of}
use tito_os.Kernel.Soundness.{IsSound}
use tito_os.Kernel.Settlement.{step-IsSound}
use tito_os.Kernel.Enduring.{run-IsSound}
use tito_os.Kernel.Report.{Accounts, step-Accounts}
use tito_os.Kernel.Quiescence.{idle_report, step-quiescent}
use tito_os.Kernel.Stopping.{Stops, run-Stops}
use tito_os.Kernel.Supervision.{Restarted, supervise-Restarted, Notified, escalate-Notified}

-- all that a run computes through
running_code : Unit {0}
unfolding Dict.get Dict.set Dict.pop Dict.modify is_broadcast Bus.mailbox Bus.has_mailbox
    Bus.register Bus.unregister Bus.deliver_all Bus.send Bus.post Bus.broadcast Bus.receive_many
    Bus.any_pending Bus.extend_left Bus.reversed Bus.requeue is_alive alive_state is_waiting
    is_failed live_snapshot filter_alive update_agent supervise may_restart escalate living_parent
    unregister_finished_mailbox quiescent_among any_not_waiting ctx_send ctx_broadcast ctx_spawn
    ctx_call ctx_wait ctx_exit register begin_step step_of script_of end_step record_failure
    one_request run_script advance run_out advance_at interleave collect is_async_agent reject_async
    run_tick plan with_outcome supervise_all escalate_failed escalate_all reclaim settle step run
    run_loop stop_now
running_code = tt

abbrev first_report : TickReport
first_report = record {
  tick = 1;
  ran = "boss" ∷ "worker" ∷ [];
  failed = "bad" ∷ [];
  waiting = [];
  restarted = "bad" ∷ [];
}

first_tick : (step [] (office serial)).0 ≡ ok first_report
unfolding running_code
first_tick = refl

abbrev second : Kernel sample
unfolding running_code
second = (step [] (office serial)).1

second_tick :
    (step [] second).0
    ≡ ok (record {
      tick = 2;
      ran = "boss" ∷ "worker" ∷ [];
      failed = "bad" ∷ [];
      waiting = [];
      restarted = [];
    })
unfolding running_code
second_tick = refl

-- The run ends at the third tick, with the boss's answer and the notice of the failed agent read.
whole_run : (run 10 [] (office serial)).1.stop_reason ≡ some finished
unfolding running_code
whole_run = refl

-- Two workers that interleave: the same reports.
office_threads : (step (1 ∷ 0 ∷ 1 ∷ 0 ∷ 2 ∷ []) (office (thread 2))).0 ≡ ok first_report
unfolding running_code
office_threads = refl

office-IsSound : IsSound (office serial)
unfolding running_code
office-IsSound = record {
  named = λ n a e. grind (arith, eq_iff "boss" n, eq_iff "worker" n, eq_iff "bad" n);
  reachable = λ n a e alive. ground (arith, eq_iff "boss" n, eq_iff "worker" n, eq_iff "bad" n);
  distinct = (refl, (refl, (refl, tt)));
}

office_threads-IsSound : IsSound (office (thread 2))
unfolding running_code
office_threads-IsSound = record {
  named = λ n a e. grind (arith, eq_iff "boss" n, eq_iff "worker" n, eq_iff "bad" n);
  reachable = λ n a e alive. ground (arith, eq_iff "boss" n, eq_iff "worker" n, eq_iff "bad" n);
  distinct = (refl, (refl, (refl, tt)));
}

abbrev bad_agent : Agent ℕ
bad_agent = agent_of "bad" "Faulty" on_failure (some "boss")

abbrev orphan : Agent ℕ
orphan = agent_of "boss" "Boss" never none

abbrev hired : Kernel sample
unfolding running_code
hired = record (office serial) {
  agents = (office serial).agents ++ ("new", agent_of "new" "Worker" never (some "boss")) ∷ [];
  bus = record { mailboxes = (office serial).bus.mailboxes ++ ("new", []) ∷ [] };
}

abbrev after_one : Kernel sample
unfolding running_code
after_one = (run 1 [] (office serial)).1

abbrev asleep : Kernel sample
asleep = record (office (thread 2)) {
  agents = ("boss", record (agent_of "boss" "Boss" never none) { state = waiting }) ∷ [];
}

step-IsSound_example : IsSound (step (1 ∷ 0 ∷ 1 ∷ []) (office (thread 2))).1
step-IsSound_example = step-IsSound (1 ∷ 0 ∷ 1 ∷ []) (office (thread 2)) office_threads-IsSound

first_step : step [] (office serial) ≡ (ok first_report, second)
unfolding running_code
first_step = refl

step-Accounts_example :
    Accounts (agent_names (live_snapshot (office serial))) first_report
    × (first_report.tick ≡ 0 + 1)
step-Accounts_example = step-Accounts [] (office serial) second first_report first_step

step-quiescent_example :
    step (4 ∷ []) asleep ≡ (ok (idle_report 1 ("boss" ∷ [])), record asleep { tick = 1 })
unfolding running_code is_quiescent
step-quiescent_example = step-quiescent (4 ∷ []) asleep refl

run-Stops_example : Stops 1 0 (first_report ∷ []) after_one
unfolding running_code
run-Stops_example = run-Stops 1 [] (office serial) after_one (first_report ∷ []) refl

supervise-Restarted_example :
    ((supervise "bad" [] (office serial)).0 ≡ ok true)
    × Restarted "bad" [] bad_agent (office serial) (supervise "bad" [] (office serial)).1
unfolding running_code
supervise-Restarted_example =
    supervise-Restarted "bad" [] bad_agent (office serial) refl refl (omega arith) refl refl

escalate-Notified_example :
    ((escalate bad_agent (office serial)).0 ≡ ok tt)
    × Notified bad_agent "boss" (office serial) (escalate bad_agent (office serial)).1
unfolding running_code
escalate-Notified_example =
    escalate-Notified bad_agent (agent_of "boss" "Boss" never none) "boss" (office serial)
      office-IsSound refl refl refl refl

run-IsSound_example : IsSound (run 3 ((1 ∷ []) ∷ []) (office (thread 2))).1
run-IsSound_example = run-IsSound 3 ((1 ∷ []) ∷ []) (office (thread 2)) office_threads-IsSound
