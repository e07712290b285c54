-- ===== src/Kernel/Roundtrip.antt =====
-- A snapshot of a restored kernel.
use tito_os.Prelude.{
  ℕ, String, Bool, true, false, List, [], ◌∷◌, ◌++◌, map, Option, some, not, ◌&&◌, if◌then◌else◌,
  ◌≡◌, refl, ap, ◌∙◌, is_empty, elem, All, arith, leb,
}
use tito_os.Errors.{Result, ok, err}
use tito_os.Dict
use tito_os.Dict.{Dict, Distinct}
use tito_os.Dict.Laws.{All-entries}
use tito_os.Bus
use tito_os.Agent.{Agent, AgentState, Program, is_alive, is_running}
use tito_os.Persistence.{Snapshot, snapshot_version}
use tito_os.Persistence.Codec.{state_of-state_value}
use tito_os.Kernel.{Kernel, Backend, make_kernel}
use tito_os.Kernel.Soundness.{IsSound}
use tito_os.Kernel.Saving.{
  Factories, filter_running, nonempty, record_of, snapshot, live_kinds, missing_kinds,
  with_mailboxes, restore,
}
use tito_os.Kernel.Reloading.{nonempty-reload}
use tito_os.Kernel.Restoring.{IsRebuilt, Refilled, refill}

all_idle : List AgentState → Bool
all_idle [] = true
all_idle (s ∷ rest) = if is_running s then false else all_idle rest

idle-filter_running :
    {M : Type 0} (l : List (Agent M))
    → is_empty (filter_running l) ≡ all_idle (map (λ a. a.state) l)
unfolding filter_running all_idle
idle-filter_running [] = refl
idle-filter_running (a ∷ l) = ground (arith, idle-filter_running l)

module _ (P : Program) where
  -- every record of an agent that is alive has a factory
  factories_found :
      (factories : Factories P.Memory) (d : Dict (Agent P.Memory))
      → All (λ e. is_alive e.1 ≡ true → Dict.contains e.1.kind factories ≡ true) d
      → (kinds : List String) × (live_kinds (map (record_of P) (Dict.values d)) ≡ ok kinds)
        × (missing_kinds factories kinds ≡ [])
  unfolding live_kinds missing_kinds record_of is_alive
  factories_found factories [] h = ([], refl, refl)
  factories_found factories ((n, a) ∷ d) h =
      let (kinds, e, none_missing) = factories_found factories d h.1 in
      (
        if is_alive a && not (elem a.kind kinds) then a.kind ∷ kinds else kinds,
        rw (state_of-state_value a.state, e),
        with_kind a kinds none_missing (h.0),
      )
    where
      with_kind :
          (a : Agent P.Memory) (kinds : List String)
          → missing_kinds factories kinds ≡ []
          → (is_alive a ≡ true → Dict.contains a.kind factories ≡ true)
          → missing_kinds factories
              (if is_alive a && not (elem a.kind kinds) then a.kind ∷ kinds else kinds)
            ≡ []
      with_kind a kinds e found = ground arith

module _ {P : Program} where
  -- what `snapshot` returns for a kernel in which no agent is running
  abbrev form : Kernel P → Snapshot
  form k = record {
    tick = k.tick;
    agents = map (record_of P) (Dict.values k.agents);
    mailboxes = nonempty k.bus.mailboxes;
    version = snapshot_version;
  }

  snapshot-form :
      (k : Kernel P) (s : Snapshot)
      → snapshot k ≡ ok s
      → (all_idle (map (λ a. a.state) (Dict.values k.agents)) ≡ true) × (s ≡ form k)
  unfolding snapshot Bus.dump
  snapshot-form k s e = ground (arith, idle-filter_running (Dict.values k.agents))

  form-snapshot :
      (k : Kernel P)
      → all_idle (map (λ a. a.state) (Dict.values k.agents)) ≡ true
      → snapshot k ≡ ok (form k)
  unfolding snapshot Bus.dump
  form-snapshot k idle = ground (arith, idle-filter_running (Dict.values k.agents))

  fresh :
      (workers : ℕ) (backend : Option Backend)
      → leb 1 workers ≡ true
      → (k : Kernel P) × (make_kernel workers backend ≡ ok k) × (k.agents ≡ [])
  unfolding make_kernel
  fresh workers backend h = split (make_kernel workers backend) refl
    where
      split :
          (r : Result (Kernel P))
          → make_kernel workers backend ≡ r
          → (k : Kernel P) × (make_kernel workers backend ≡ ok k) × (k.agents ≡ [])
      split (ok k) e = (k, e, ground arith)
      split (err x) e = absurd (ground arith)

  form-Refilled :
      (k k₀ k₁ : Kernel P)
      → (r : Refilled P k.agents (record k₀ { tick = k.tick }) k₁)
      → Distinct (Dict.keys k.bus.mailboxes)
      → k₁.agents ≡ r.added
      → form (with_mailboxes (nonempty k.bus.mailboxes) k₁) ≡ form k
  form-Refilled k k₀ k₁ r boxes added = rw (
    nonempty-reload k.bus.mailboxes (Dict.values k₁.agents) k₁.bus boxes,
    added,
    r.records,
    r.tick,
  )

  -- Restoring a snapshot gives a kernel whose snapshot is that one: its tick, the record of every
  -- agent, and the mailboxes with what they held. That is for a sound kernel, with no mailbox twice,
  -- factories for the kinds of its living agents that rebuild its agents, and at least one worker.
  pub snapshot-restore :
      (k : Kernel P) (s : Snapshot) (factories : Factories P.Memory) (workers : ℕ)
      → (backend : Option Backend) → IsSound k
      → Distinct (Dict.keys k.bus.mailboxes)
      → All (λ e. IsRebuilt P factories e.1) k.agents
      → All (λ e. is_alive e.1 ≡ true → Dict.contains e.1.kind factories ≡ true) k.agents
      → leb 1 workers ≡ true
      → snapshot k ≡ ok s
      → (k' : Kernel P) × (restore s factories workers backend ≡ ok k') × (snapshot k' ≡ ok s)
  snapshot-restore k s factories workers backend sound boxes rebuilt found some_worker e =
      let (idle, shape) = snapshot-form k s e in rw shape (again idle)
    where
      each :
          (d : Dict (Agent P.Memory))
          → All (λ x. Dict.get x.0 k.agents ≡ some x.1) d
          → All (λ x. IsRebuilt P factories x.1) d
          → All (λ x. (x.1.name ≡ x.0) × IsRebuilt P factories x.1) d
      each [] _ _ = tt
      each ((n, a) ∷ d) (here, later) (r, rest) = ((sound.named n a here, r), each d later rest)

      again :
          all_idle (map (λ a. a.state) (Dict.values k.agents)) ≡ true
          → (k' : Kernel P) × (restore (form k) factories workers backend ≡ ok k')
            × (snapshot k' ≡ ok (form k))
      again idle =
          let (k₀, made, none_yet) = fresh workers backend some_worker in
          let (kinds, known, none_missing) = factories_found P factories k.agents found in
          let (k₁, filled, r) =
            refill P factories k.agents (record k₀ { tick = k.tick })
              (each k.agents (All-entries k.agents sound.distinct) rebuilt)
              (rw none_yet sound.distinct) in
          let k₂ : Kernel P = with_mailboxes (nonempty k.bus.mailboxes) k₁ in
          let added : k₁.agents ≡ r.added = r.agents ∙ ap (λ x. x ++ r.added) none_yet in
          (
            k₂,
            unfold restore in rw (known, none_missing, made, filled),
            form-snapshot k₂ (rw (added, r.states) idle)
                ∙ ap ok (form-Refilled k k₀ k₁ r boxes added),
          )
