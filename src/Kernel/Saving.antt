-- ===== src/Kernel/Saving.antt =====
-- titoos/kernel.py: `Kernel.snapshot` and `Kernel.restore`, and titoos/persistence.py:
-- `FinishedAgent`. A factory is the caller's, a parameter here.
use tito_os.Prelude.{
  ℕ, String, false, List, [], ◌∷◌, map, Option, none, some, not, ◌&&◌, ◌==◌, if◌then◌else◌,
  is_empty, elem,
}
use tito_os.Errors.{Result, ok, err, agents_running, no_factory, wrong_name, ◌>>=◌}
use tito_os.Dict
use tito_os.Dict.{Dict}
use tito_os.Message.{Message}
use tito_os.Bus
use tito_os.Bus.{MessageBus}
use tito_os.Agent.{
  Agent, never, Program, make_agent, alive_state, is_alive, is_running, save_state_of,
  load_state_of,
}
use tito_os.Persistence.{AgentRecord, Snapshot, snapshot_version, state_value, state_of}
use tito_os.Kernel.{Kernel, Backend, make_kernel, register, update_agent, with_state, agent_names}

unfoldable pub filter_running : {M : Type 0} → List (Agent M) → List (Agent M)
filter_running [] = []
filter_running (a ∷ rest) =
    let others = filter_running rest in if is_running a.state then a ∷ others else others

-- the mailboxes that hold a message
unfoldable pub nonempty : Dict (List Message) → Dict (List Message)
nonempty [] = []
nonempty ((name, box) ∷ rest) =
    let others = nonempty rest in if is_empty box then others else (name, box) ∷ others

-- `AgentFactory`, by the kind that an agent is recorded with
abbrev pub Factories : Type 0 → Type 0
Factories M = Dict (String → Result (Agent M))

module _ (P : Program) where
  -- The kind of an agent is its class's name, and for a placeholder its `kind`: the field holds both.
  unfoldable pub record_of : Agent P.Memory → AgentRecord
  record_of a = record {
    name = a.name;
    kind = a.kind;
    state = state_value a.state;
    parent = a.parent;
    restarts = a.restarts;
    saved = save_state_of P a;
  }

module _ {P : Program} where
  -- `Kernel.snapshot`
  unfoldable pub snapshot : Kernel P → Result Snapshot
  snapshot k =
      let running = filter_running (Dict.values k.agents) in
      if not (is_empty running)
      then err (agents_running (agent_names running))
      else ok (record {
        tick = k.tick;
        agents = map (record_of P) (Dict.values k.agents);
        mailboxes = nonempty (Bus.dump k.bus);
        version = snapshot_version;
      })

-- `live_kinds`: the kinds of the agents that had not finished, each once
unfoldable pub live_kinds : List AgentRecord → Result (List String)
live_kinds [] = ok []
live_kinds (r ∷ rest) = state_of r.state >>= λ state. live_kinds rest >>= λ kinds.
    ok (if alive_state state && not (elem r.kind kinds) then r.kind ∷ kinds else kinds)

module _ {M : Type 0} where
  unfoldable pub missing_kinds : Factories M → List String → List String
  missing_kinds factories [] = []
  missing_kinds factories (kind ∷ kinds) =
      let others = missing_kinds factories kinds in
      if Dict.contains kind factories then others else kind ∷ others

  -- one round of the loop over the agents after the mailboxes are loaded
  unfoldable pub settle_mailbox : Agent M → MessageBus → MessageBus
  settle_mailbox a bus =
      if is_alive a
      then Bus.register a.name bus
      else if is_empty (Bus.mailbox a.name bus)
      then Bus.unregister a.name bus
      else bus

  unfoldable pub settle_mailboxes : List (Agent M) → MessageBus → MessageBus
  settle_mailboxes [] bus = bus
  settle_mailboxes (a ∷ rest) bus = settle_mailboxes rest (settle_mailbox a bus)

module _ (P : Program) where
  -- `FinishedAgent.__init__`
  unfoldable pub make_placeholder : String → String → Result (Agent P.Memory)
  make_placeholder name kind =
      make_agent (record {
        name = name;
        kind = kind;
        restart_policy = never;
        max_restarts = 3;
        is_async = false;
        memory = P.no_attributes;
      })
      >>= λ a. ok (record a { saved = some [] })

  -- the agent that `restore` builds for a record
  unfoldable pub build : Factories P.Memory → AgentRecord → Result (Agent P.Memory)
  build factories r = elim (Dict.get r.kind factories) [
    | none ↦ make_placeholder r.name r.kind
    | some factory ↦ factory r.name
  ]

  -- the agent with what the record says of it, before its state is set
  abbrev pub recalled : AgentRecord → Agent P.Memory → Agent P.Memory
  recalled r a = load_state_of P (record a { parent = r.parent; restarts = r.restarts }) r.saved

module _ {P : Program} where
  -- one round of the loop over the records
  unfoldable pub restore_agent : Factories P.Memory → AgentRecord → Kernel P → Result (Kernel P)
  restore_agent factories r k = build P factories r >>= λ a.
      if not (a.name == r.name)
      then err (wrong_name r.kind a.name)
      else (register (recalled P r a) none k >>= λ k'.
          state_of r.state >>= λ state. ok (update_agent r.name (with_state state) k'))

  unfoldable pub restore_agents :
      Factories P.Memory → List AgentRecord → Kernel P → Result (Kernel P)
  restore_agents factories [] k = ok k
  restore_agents factories (r ∷ rest) k =
      restore_agent factories r k >>= λ k'. restore_agents factories rest k'

  abbrev pub with_mailboxes : Dict (List Message) → Kernel P → Kernel P
  with_mailboxes boxes k = record k {
    bus = settle_mailboxes (Dict.values k.agents) (Bus.load boxes k.bus);
  }

  abbrev pub restore_with :
      Snapshot → Factories P.Memory → ℕ → Option Backend → List String → Result (Kernel P)
  restore_with s factories workers backend [] = make_kernel workers backend >>= λ k.
      restore_agents factories s.agents (record k { tick = s.tick }) >>= λ k'.
      ok (with_mailboxes s.mailboxes k')
  restore_with s factories workers backend (kind ∷ kinds) = err (no_factory (kind ∷ kinds))

  -- `Kernel.restore`. The error of missing factories names the kinds without sorting them.
  unfoldable pub restore : Snapshot → Factories P.Memory → ℕ → Option Backend → Result (Kernel P)
  restore s factories workers backend = live_kinds s.agents >>= λ kinds.
      restore_with s factories workers backend (missing_kinds factories kinds)
