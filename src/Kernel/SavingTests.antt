-- ===== src/Kernel/SavingTests.antt =====
-- Saving and restoring a small kernel.
use tito_os.Prelude.{ℕ, false, [], ◌∷◌, none, some, ◌≡◌, refl, arith}
use tito_os.Errors.{ok, err, no_factory}
use tito_os.Dict
use tito_os.Bus
use tito_os.Message.{text, int}
use tito_os.Agent.{
  Agent, waiting, failed, never, on_failure, is_alive, alive_state, is_running, make_agent,
  save_state_of, load_state_of,
}
use tito_os.Persistence.{Snapshot, state_of, state_value}
use tito_os.Kernel.{Kernel, register, update_agent, make_kernel}
use tito_os.Kernel.Samples.{sample, paused, paused-IsSound, agent_of}
use tito_os.Kernel.Saving.{
  Factories, filter_running, nonempty, record_of, snapshot, live_kinds, missing_kinds, build,
  make_placeholder, restore_agent, restore_agents, settle_mailbox, settle_mailboxes, restore,
}
use tito_os.Kernel.Restoring.{IsRebuilt, placeholder-IsRebuilt}
use tito_os.Kernel.Roundtrip.{snapshot-restore}

-- all that saving and restoring computes through
saving_code : Unit {0}
unfolding Dict.get Dict.set Dict.pop Dict.modify Bus.mailbox Bus.register Bus.unregister Bus.dump
    Bus.load Bus.load_all is_alive alive_state is_running make_agent save_state_of load_state_of
    state_of state_value register update_agent make_kernel filter_running nonempty record_of
    snapshot live_kinds missing_kinds build make_placeholder restore_agent restore_agents
    settle_mailbox settle_mailboxes restore
saving_code = tt

abbrev factories : Factories ℕ
factories =
    ("Boss", λ name. ok (agent_of name "Boss" never none))
    ∷ ("Worker", λ name. ok (agent_of name "Worker" never none))
    ∷ []

abbrev picture : Snapshot
picture = record {
  tick = 4;
  agents =
      record {
        name = "boss";
        kind = "Boss";
        state = "waiting";
        parent = none;
        restarts = 0;
        saved = ("memory", int false 5) ∷ [];
      }
      ∷ record {
        name = "worker";
        kind = "Worker";
        state = "ready";
        parent = some "boss";
        restarts = 0;
        saved = ("memory", int false 0) ∷ [];
      }
      ∷ record {
        name = "bad";
        kind = "Faulty";
        state = "failed";
        parent = some "boss";
        restarts = 1;
        saved = ("memory", int false 2) ∷ [];
      }
      ∷ [];
  mailboxes =
      (
        "worker",
        record { sender = "boss"; to = "worker"; payload = text "job"; metadata = [] } ∷ [],
      )
      ∷ [];
  version = 1;
}

-- a factory is missing for `worker`
missing_factory :
    restore {P = sample} picture ([]) 1 none ≡ err (no_factory ("Boss" ∷ "Worker" ∷ []))
unfolding saving_code
missing_factory = refl

picture_lem : snapshot paused ≡ ok picture
unfolding saving_code
picture_lem = refl

abbrev boss : Agent ℕ
boss = record (agent_of "boss" "Boss" never none) { state = waiting; memory = 5 }

bad_again : IsRebuilt sample factories (record (agent_of "bad" "Faulty" on_failure (some "boss")) {
  state = failed;
  restarts = 1;
  memory = 2;
})
bad_again = placeholder-IsRebuilt sample factories _ (unfold Dict.get in refl) refl

boss_again : IsRebuilt sample factories boss
unfolding saving_code
boss_again = record {
  built = agent_of "boss" "Boss" never none;
  by = refl;
  name = refl;
  kind = refl;
  saves = refl;
}

worker_again : IsRebuilt sample factories (agent_of "worker" "Worker" never (some "boss"))
unfolding saving_code
worker_again = record {
  built = agent_of "worker" "Worker" never none;
  by = refl;
  name = refl;
  kind = refl;
  saves = refl;
}

snapshot-restore_example :
    (k' : Kernel sample) × (restore picture factories 1 none ≡ ok k') × (snapshot k' ≡ ok picture)
unfolding Dict.get is_alive alive_state
snapshot-restore_example =
    snapshot-restore paused picture factories 1 none paused-IsSound (refl, (refl, tt))
      (boss_again, (worker_again, (bad_again, tt)))
      ((λ _. refl), ((λ _. refl), ((λ alive. absurd (ground arith)), tt))) refl picture_lem
