-- ===== src/Kernel/Stable.antt =====
-- A proof rule for the barrier: what every request of a step keeps, a whole tick's execution keeps,
-- on every backend and at every schedule of the workers.
use tito_os.Prelude.{
  ℕ, zero, suc, String, Bool, true, false, List, [], ◌∷◌, map, Option, none, some, All, ltb, length,
  if◌then◌else◌,
}
use tito_os.Errors.{Error}
use tito_os.Dict.{Dict}
use tito_os.Message.{Value}
use tito_os.Agent.{Script, Program, Spec}
use tito_os.Kernel.{Kernel, Backend, serial, thread, async, children_of}
use tito_os.Kernel.Context.{
  Progress, queued, active, finished, ctx_send, ctx_broadcast, ctx_spawn, ctx_call, ctx_wait,
  ctx_exit, begin_step, end_step, record_failure, script_of, one_request, run_script,
}
use tito_os.Kernel.Tick.{
  Job, Worker, hire, advance, run_out, advance_at, interleave, collect, reject_async, run_tick,
  run_started, done_or,
}

-- `I` is kept by every request that an agent with `Q` makes, and by the ends of its step.
pub record Stable {P : Program} (I : Kernel P → Type 0) (Q : String → Type 0) : Type 0 where
  pub sends :
      (me to : String) (payload : Value) (metadata : Dict Value) (k : Kernel P)
      → Q me
      → I k
      → I (ctx_send me to payload metadata k).1
  pub broadcasts :
      (me : String) (payload : Value) (metadata : Dict Value) (k : Kernel P)
      → Q me
      → I k
      → I (ctx_broadcast me payload metadata k).1
  pub spawns :
      (me : String) (spec : Spec P.Memory) (k : Kernel P) → Q me → I k → I (ctx_spawn me spec k).1
  pub calls :
      (name operation : String) (arguments : Value) (k : Kernel P)
      → I k
      → I (ctx_call name operation arguments k).1
  pub waits : (me : String) (k : Kernel P) → Q me → I k → I (ctx_wait me k)
  pub exits : (me : String) (k : Kernel P) → Q me → I k → I (ctx_exit me k)
  pub begins : (me : String) (k : Kernel P) → Q me → I k → I (begin_step me k)
  pub returns : (me : String) (m : P.Memory) (k : Kernel P) → Q me → I k → I (end_step me m k)
  pub raises :
      (me : String) (e : Error) (m : P.Memory) (k : Kernel P)
      → Q me
      → I k
      → I (record_failure me e m k)

module _ {P : Program} {I : Kernel P → Type 0} {Q : String → Type 0} (rule : Stable I Q) where
  pub run_script-keeps :
      (me : String) (script : Script P.Memory) (k : Kernel P)
      → Q me
      → I k
      → I (run_script me script k).1
  unfolding run_script
  run_script-keeps me (Script.return m) k q h = rule.returns me m k q h
  run_script-keeps me (Script.raise e m) k q h = rule.raises me e m k q h
  run_script-keeps me (Script.send to payload metadata rest) k q h =
      let (r, k') = ctx_send me to payload metadata k in
      run_script-keeps me (rest r) k' q (rule.sends me to payload metadata k q h)
  run_script-keeps me (Script.broadcast payload metadata rest) k q h =
      let (r, k') = ctx_broadcast me payload metadata k in
      run_script-keeps me (rest r) k' q (rule.broadcasts me payload metadata k q h)
  run_script-keeps me (Script.spawn spec rest) k q h =
      let (r, k') = ctx_spawn me spec k in
      run_script-keeps me (rest r) k' q (rule.spawns me spec k q h)
  run_script-keeps me (Script.children rest) k q h =
      run_script-keeps me (rest (children_of me k)) k q h
  run_script-keeps me (Script.call name operation arguments rest) k q h =
      let (r, k') = ctx_call name operation arguments k in
      run_script-keeps me (rest r) k' q (rule.calls name operation arguments k h)
  run_script-keeps me (Script.wait rest) k q h =
      run_script-keeps me rest (ctx_wait me k) q (rule.waits me k q h)
  run_script-keeps me (Script.exit rest) k q h =
      run_script-keeps me rest (ctx_exit me k) q (rule.exits me k q h)

  one_request-keeps :
      (me : String) (script : Script P.Memory) (k : Kernel P)
      → Q me
      → I k
      → I (one_request me script k).1
  unfolding one_request
  one_request-keeps me (Script.return m) k q h = rule.returns me m k q h
  one_request-keeps me (Script.raise e m) k q h = rule.raises me e m k q h
  one_request-keeps me (Script.send to payload metadata rest) k q h =
      rule.sends me to payload metadata k q h
  one_request-keeps me (Script.broadcast payload metadata rest) k q h =
      rule.broadcasts me payload metadata k q h
  one_request-keeps me (Script.spawn spec rest) k q h = rule.spawns me spec k q h
  one_request-keeps me (Script.children rest) k q h = h
  one_request-keeps me (Script.call name operation arguments rest) k q h =
      rule.calls name operation arguments k h
  one_request-keeps me (Script.wait rest) k q h = rule.waits me k q h
  one_request-keeps me (Script.exit rest) k q h = rule.exits me k q h

  advance-keeps :
      (tick : ℕ) (me : String) (p : Progress P.Memory) (k : Kernel P)
      → Q me
      → I k
      → I (advance tick me p k).1
  unfolding advance
  advance-keeps tick me (queued inbox) k q h = rule.begins me k q h
  advance-keeps tick me (active script) k q h = one_request-keeps me script k q h
  advance-keeps tick me (finished outcome) k q h = h

  run_started-keeps :
      (me : String) (script : Option (Script P.Memory)) (k : Kernel P)
      → Q me
      → I k
      → I (run_started me script k).1
  run_started-keeps me none k q h = h
  run_started-keeps me (some script) k q h = run_script-keeps me script k q h

  run_out-keeps :
      (tick : ℕ) (me : String) (p : Progress P.Memory) (k : Kernel P)
      → Q me
      → I k
      → I (run_out tick me p k).1
  unfolding run_out
  run_out-keeps tick me (queued inbox) k q h =
      run_started-keeps me (script_of me tick inbox (begin_step me k)) (begin_step me k) q
        (rule.begins me k q h)
  run_out-keeps tick me (active script) k q h = run_script-keeps me script k q h
  run_out-keeps tick me (finished outcome) k q h = h

  abbrev Hired : List (Worker P.Memory) → Type 0
  Hired = All (λ w. Q w.agent)

  advance_at-keeps :
      (tick i : ℕ) (pool : List (Worker P.Memory)) (k : Kernel P)
      → Hired pool
      → I k
      → Hired (advance_at tick i pool k).0 × I (advance_at tick i pool k).1
  unfolding advance_at
  advance_at-keeps tick i [] k q h = (tt, h)
  advance_at-keeps tick zero (w ∷ pool) k q h =
      ((q.0, q.1), advance-keeps tick w.agent w.progress k q.0 h)
  advance_at-keeps tick (suc i) (w ∷ pool) k q h =
      let (q', h') = advance_at-keeps tick i pool k q.1 h in ((q.0, q'), h')

  interleave-keeps :
      (tick : ℕ) (schedule : List ℕ) (pool : List (Worker P.Memory)) (k : Kernel P)
      → Hired pool
      → I k
      → Hired (interleave tick schedule pool k).0 × I (interleave tick schedule pool k).1
  unfolding interleave
  interleave-keeps tick [] pool k q h = (q, h)
  interleave-keeps tick (i ∷ schedule) pool k q h =
      let (q', h') = advance_at-keeps tick i pool k q h in
      let (pool', k') = advance_at tick i pool k in interleave-keeps tick schedule pool' k' q' h'

  collect-keeps :
      (tick : ℕ) (pool : List (Worker P.Memory)) (k : Kernel P)
      → Hired pool
      → I k
      → I (collect tick pool k).1
  unfolding collect
  collect-keeps tick [] k q h = h
  collect-keeps tick (w ∷ pool) k q h =
      let (outcome, k') = run_out tick w.agent w.progress k in
      collect-keeps tick pool k' q.1 (run_out-keeps tick w.agent w.progress k q.0 h)

  Hired-hire : (jobs : List Job) → All (λ job. Q job.agent) jobs → Hired (map hire jobs)
  Hired-hire [] q = tt
  Hired-hire (job ∷ jobs) q = (q.0, Hired-hire jobs q.1)

  done_or-keeps :
      (e : Option Error) (r : List Bool × Kernel P) (k : Kernel P)
      → I r.1
      → I k
      → I (done_or e r k).1
  done_or-keeps none r k h h' = h
  done_or-keeps (some e) r k h h' = h'

  -- The execution of a tick keeps what every request keeps.
  pub run_tick-keeps :
      (backend : Backend) (schedule : List ℕ) (tick : ℕ) (jobs : List Job) (k : Kernel P)
      → All (λ job. Q job.agent) jobs
      → I k
      → I (run_tick backend schedule tick jobs k).1
  unfolding run_tick
  run_tick-keeps serial schedule tick jobs k q h =
      done_or-keeps (reject_async jobs k) (collect tick (map hire jobs) k) k
        (collect-keeps tick (map hire jobs) k (Hired-hire jobs q) h) h
  run_tick-keeps (thread n) schedule tick jobs k q h =
      let (q', h') = interleave-keeps tick schedule (map hire jobs) k (Hired-hire jobs q) h in
      let (pool, k') = interleave tick schedule (map hire jobs) k in
      done_or-keeps (reject_async jobs k)
        (if ltb (length jobs) 2 then collect tick (map hire jobs) k else collect tick pool k') k
        (pick (ltb (length jobs) 2) _ _ (collect-keeps tick (map hire jobs) k (Hired-hire jobs q) h)
          (collect-keeps tick pool k' q' h'))
        h
    where
      pick : (b : Bool) (x y : List Bool × Kernel P) → I x.1 → I y.1 → I (if b then x else y).1
      pick true x y hx hy = hx
      pick false x y hx hy = hy
  run_tick-keeps async schedule tick jobs k q h =
      let (q', h') = interleave-keeps tick schedule (map hire jobs) k (Hired-hire jobs q) h in
      let (pool, k') = interleave tick schedule (map hire jobs) k in
      collect-keeps tick pool k' q' h'
