-- ===== src/Kernel/Context.antt =====
-- titoos/agent.py, `Context`, and the run of one step: `Kernel._run_agent`, cut where the step asks
-- something of its context, so that the steps of several workers can interleave.
use tito_os.Prelude.{ℕ, String, Bool, true, false, List, [], ◌∷◌, ◌++◌, Option, none, some}
use tito_os.Errors.{Result, ok, err, Error}
use tito_os.Dict
use tito_os.Dict.{Dict}
use tito_os.Message.{Value, Message}
use tito_os.Bus
use tito_os.Bus.{MessageBus}
use tito_os.Integrations
use tito_os.Agent.{
  Agent, AgentState, ready, running, waiting, done, failed, Script, Program, Spec, make_agent,
  step_of,
}
use tito_os.Kernel.{Kernel, register, children_of, update_agent, with_state}

abbrev pub back_to_ready : AgentState → AgentState
back_to_ready running = ready
back_to_ready s = s

module _ {M : Type 0} where
  abbrev pub after_return : M → Agent M → Agent M
  after_return m a = record a { state = back_to_ready a.state; memory = m }

  abbrev pub after_raise : M → Agent M → Agent M
  after_raise m a = record a { state = failed; memory = m }

module _ {P : Program} where
  abbrev pub sent : Kernel P → Result (Message × MessageBus) → Result Message × Kernel P
  sent k (ok (m, bus)) = (ok m, record k { bus = bus })
  sent k (err e) = (err e, k)

  -- `Context.send`
  unfoldable pub ctx_send :
      String → String → Value → Dict Value → Kernel P → Result Message × Kernel P
  ctx_send me to payload metadata k = sent k (Bus.post me to payload metadata k.bus)

  -- `Context.broadcast`
  unfoldable pub ctx_broadcast : String → Value → Dict Value → Kernel P → Result Message × Kernel P
  ctx_broadcast me payload metadata k = sent k (Bus.broadcast me payload metadata k.bus)

  abbrev pub spawned :
      Kernel P → Agent P.Memory → Result (Kernel P) → Result (Agent P.Memory) × Kernel P
  spawned k a (ok k') = (ok a, k')
  spawned k a (err e) = (err e, k)

  -- The constructor of an agent, and `Context.spawn` of what it built.
  unfoldable pub ctx_spawn : String → Spec P.Memory → Kernel P → Result (Agent P.Memory) × Kernel P
  ctx_spawn me spec k = elim (make_agent spec) [
    | err e ↦ (err e, k)
    | ok a ↦ spawned k (record a { parent = some me }) (register a (some me) k)
  ]

  -- `Context.call`
  unfoldable pub ctx_call : String → String → Value → Kernel P → Result Value × Kernel P
  ctx_call name operation arguments k =
      let (reply, registry) =
        Integrations.call_named P.perform name operation arguments k.integrations in
      (reply, record k { integrations = registry })

  -- `Context.wait`
  unfoldable pub ctx_wait : String → Kernel P → Kernel P
  ctx_wait me k = update_agent me (with_state waiting) k

  -- `Context.exit`
  unfoldable pub ctx_exit : String → Kernel P → Kernel P
  ctx_exit me k = update_agent me (with_state done) k

  -- `_run_agent` up to the call of `agent.step`
  unfoldable pub begin_step : String → Kernel P → Kernel P
  begin_step me k = update_agent me (with_state running) k

  -- The code of the step of the agent that is registered as `me`.
  unfoldable pub script_of : String → ℕ → List Message → Kernel P → Option (Script P.Memory)
  script_of me tick inbox k = elim (Dict.get me k.agents) [
    | none ↦ none
    | some a ↦ some (step_of P a tick inbox)
  ]

  -- `_run_agent` after a step that returned
  unfoldable pub end_step : String → P.Memory → Kernel P → Kernel P
  end_step me m k = update_agent me (after_return m) k

  -- `_run_agent` after a step that raised, with `_record_failure`
  unfoldable pub record_failure : String → Error → P.Memory → Kernel P → Kernel P
  record_failure me e m k =
      let k' = update_agent me (after_raise m) k in record k' { errors = k'.errors ++ (me, e) ∷ [] }

-- How far the run of one agent has come in the tick.
pub data Progress (M : Type 0) : Type 0 where
  queued : List Message → Progress M
  active : Script M → Progress M
  finished : Bool → Progress M

module _ {P : Program} where
  -- One request of a step, answered; or its end.
  unfoldable pub one_request : String → Script P.Memory → Kernel P → Progress P.Memory × Kernel P
  one_request me (Script.return m) k = (finished true, end_step me m k)
  one_request me (Script.raise e m) k = (finished false, record_failure me e m k)
  one_request me (Script.send to payload metadata rest) k =
      let (r, k') = ctx_send me to payload metadata k in (active (rest r), k')
  one_request me (Script.broadcast payload metadata rest) k =
      let (r, k') = ctx_broadcast me payload metadata k in (active (rest r), k')
  one_request me (Script.spawn spec rest) k =
      let (r, k') = ctx_spawn me spec k in (active (rest r), k')
  one_request me (Script.children rest) k = (active (rest (children_of me k)), k)
  one_request me (Script.call name operation arguments rest) k =
      let (r, k') = ctx_call name operation arguments k in (active (rest r), k')
  one_request me (Script.wait rest) k = (active rest, ctx_wait me k)
  one_request me (Script.exit rest) k = (active rest, ctx_exit me k)

  -- All that is left of a step, with nobody in between.
  unfoldable pub run_script : String → Script P.Memory → Kernel P → Bool × Kernel P
  run_script me (Script.return m) k = (true, end_step me m k)
  run_script me (Script.raise e m) k = (false, record_failure me e m k)
  run_script me (Script.send to payload metadata rest) k =
      let (r, k') = ctx_send me to payload metadata k in run_script me (rest r) k'
  run_script me (Script.broadcast payload metadata rest) k =
      let (r, k') = ctx_broadcast me payload metadata k in run_script me (rest r) k'
  run_script me (Script.spawn spec rest) k =
      let (r, k') = ctx_spawn me spec k in run_script me (rest r) k'
  run_script me (Script.children rest) k = run_script me (rest (children_of me k)) k
  run_script me (Script.call name operation arguments rest) k =
      let (r, k') = ctx_call name operation arguments k in run_script me (rest r) k'
  run_script me (Script.wait rest) k = run_script me rest (ctx_wait me k)
  run_script me (Script.exit rest) k = run_script me rest (ctx_exit me k)
