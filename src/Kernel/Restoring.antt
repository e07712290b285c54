-- ===== src/Kernel/Restoring.antt =====
-- `Kernel.restore` of what `Kernel.snapshot` returned.
use tito_os.Prelude.{
  false, [], ◌∷◌, ◌++◌, map, none, some, ◌==◌, ◌≡◌, refl, ap, sym, ◌∙◌, elem, All, eq_refl,
  append-nil, append_assoc,
}
use tito_os.Errors.{ok}
use tito_os.Dict
use tito_os.Dict.{Dict, Distinct}
use tito_os.Dict.Laws.{modify-set_absent, Distinct-before, elem-keys, keys-append}
use tito_os.Bus
use tito_os.Agent.{Agent, ready, never, Program, make_agent, save_state_of, load_state_of}
use tito_os.Persistence.Codec.{state_of-state_value}
use tito_os.Kernel.{Kernel, register, update_agent, with_state}
use tito_os.Kernel.Saving.{
  Factories, record_of, build, recalled, make_placeholder, restore_agent, restore_agents,
}

module _ (P : Program) where
  -- the agent that `restore` registers in place of `a`, when it builds `b` for it
  abbrev pub again : Agent P.Memory → Agent P.Memory → Agent P.Memory
  again a b = with_state a.state (recalled P (record_of P a) b)

  -- `restore` builds an agent for the record of `a` that has the name and the kind of `a`, and that
  -- saves, after it has loaded what `a` saved, the same.
  pub record IsRebuilt (factories : Factories P.Memory) (a : Agent P.Memory) : Type 0 where
    pub built : Agent P.Memory
    pub by : build P factories (record_of P a) ≡ ok built
    pub name : built.name ≡ a.name
    pub kind : built.kind ≡ a.kind
    pub saves : save_state_of P (again a built) ≡ save_state_of P a

  again-record_of :
      (a b : Agent P.Memory)
      → b.name ≡ a.name
      → b.kind ≡ a.kind
      → save_state_of P (again a b) ≡ save_state_of P a
      → record_of P (again a b) ≡ record_of P a
  unfolding record_of load_state_of
  again-record_of a b same_name same_kind saves = cc

  -- A finished agent without a factory is rebuilt as a placeholder.
  pub placeholder-IsRebuilt :
      (factories : Factories P.Memory) (a : Agent P.Memory)
      → Dict.get a.kind factories ≡ none
      → (a.name == "") ≡ false
      → IsRebuilt factories a
  placeholder-IsRebuilt factories a missing named = record {
    built = record {
      name = a.name;
      kind = a.kind;
      state = ready;
      parent = none;
      restarts = 0;
      restart_policy = never;
      max_restarts = 3;
      is_async = false;
      memory = P.no_attributes;
      saved = some [];
    };
    by = unfold build make_placeholder make_agent record_of in rw (missing, build, named);
    name = refl;
    kind = refl;
    saves = unfold save_state_of load_state_of record_of in refl;
  }

  restore_one :
      (factories : Factories P.Memory) (a : Agent P.Memory) (k : Kernel P)
      → (r : IsRebuilt factories a) → elem a.name (Dict.keys k.agents) ≡ false
      → restore_agent factories (record_of P a) k
        ≡ ok (record k {
          agents = k.agents ++ (a.name, again a r.built) ∷ [];
          bus = Bus.register a.name k.bus;
        })
  unfolding restore_agent register update_agent record_of load_state_of
  restore_one factories a k r new =
      let absent : Dict.contains a.name k.agents ≡ false = sym (elem-keys a.name k.agents) ∙ new in
      let written : (f : Agent P.Memory → Agent P.Memory) (b : Agent P.Memory)
          → Dict.modify a.name f (Dict.set a.name b k.agents) ≡ k.agents ++ (a.name, f b) ∷ [] =
        λ f b. modify-set_absent a.name f b k.agents new in
      rw (r.by, r.name, eq_refl a.name, absent, state_of-state_value a.state, written)

  pub record Refilled (d : Dict (Agent P.Memory)) (k k' : Kernel P) : Type 0 where
    pub added : Dict (Agent P.Memory)
    pub agents : k'.agents ≡ k.agents ++ added
    pub keys : Dict.keys added ≡ Dict.keys d
    pub records : map (record_of P) (Dict.values added) ≡ map (record_of P) (Dict.values d)
    pub states : map (λ a. a.state) (Dict.values added) ≡ map (λ a. a.state) (Dict.values d)
    pub tick : k'.tick ≡ k.tick

  pub refill :
      (factories : Factories P.Memory) (d : Dict (Agent P.Memory)) (k : Kernel P)
      → All (λ e. (e.1.name ≡ e.0) × IsRebuilt factories e.1) d
      → Distinct (Dict.keys (k.agents ++ d))
      → (k' : Kernel P) × (restore_agents factories (map (record_of P) (Dict.values d)) k ≡ ok k')
        × Refilled d k k'
  unfolding restore_agents
  refill factories [] k h distinct = (
    k,
    refl,
    record {
      added = [];
      agents = sym (append-nil k.agents);
      keys = refl;
      records = refl;
      states = refl;
      tick = refl;
    },
  )
  refill factories ((n, a) ∷ d) k ((named, r), later) distinct =
      let k₁ : Kernel P = record k {
        agents = k.agents ++ (a.name, again a r.built) ∷ [];
        bus = Bus.register a.name k.bus;
      } in
      let (k', e, rest) = refill factories d k₁ later (
        rw
          (
            append_assoc k.agents ((a.name, again a r.built) ∷ []) d,
            keys-append k.agents ((a.name, again a r.built) ∷ d),
            named,
            ← keys-append k.agents ((n, a) ∷ d),
          )
          distinct) in
      (
        k',
        rw (restore_one factories a k r (rw named (Distinct-before k.agents d n a distinct))) e,
        record {
          added = (a.name, again a r.built) ∷ rest.added;
          agents = rest.agents ∙ append_assoc k.agents ((a.name, again a r.built) ∷ []) rest.added;
          keys = ap (◌∷◌ a.name) rest.keys ∙ ap (λ x. x ∷ Dict.keys d) named;
          records =
              rw (again-record_of a r.built r.name r.kind r.saves)
                (ap (◌∷◌ (record_of P a)) rest.records);
          states = ap (◌∷◌ a.state) rest.states;
          tick = rest.tick;
        },
      )
