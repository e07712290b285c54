-- ===== src/Kernel/Schedules/Runs.antt =====
-- A worker that is run out, and its future.
use tito_os.Prelude.{ℕ, String, Bool, Option, none, some, refl}
use tito_os.Message.{Message}
use tito_os.Agent.{Script, Program}
use tito_os.Kernel.{Kernel}
use tito_os.Kernel.Context.{
  Progress, queued, active, finished, begin_step, script_of, one_request, run_script, ctx_send,
  ctx_broadcast, ctx_wait, ctx_exit,
}
use tito_os.Kernel.Tick.{advance, started, run_started, run_out}
use tito_os.Kernel.Schedules.{Quiet}
use tito_os.Kernel.Schedules.Requests.{Has}
use tito_os.Kernel.Schedules.Pieces.{IsQuiet, QuietProgress, Advanced, one_request-Advanced}
use tito_os.Kernel.Schedules.Advancing.{then-Advanced, advance-Advanced}

module _ {P : Program} (has : String → Bool) (tick : ℕ) (f : Message → ℕ) (x : String) where
  run_script-Advanced :
      (me : String) (script : Script P.Memory) (k : Kernel P)
      → Has has k.bus
      → Quiet script
      → Advanced has tick f x me
          (active script)
          k
          (finished (run_script me script k).0, (run_script me script k).1)
  unfolding run_script one_request
  run_script-Advanced me (Script.return m) k here quiet =
      one_request-Advanced has tick f x me (Script.return m) k here quiet
  run_script-Advanced me (Script.raise e m) k here quiet =
      one_request-Advanced has tick f x me (Script.raise e m) k here quiet
  run_script-Advanced me (Script.send to payload metadata rest) k here quiet =
      let first =
        one_request-Advanced has tick f x me (Script.send to payload metadata rest) k here quiet in
      let (r, k') = ctx_send me to payload metadata k in
      then-Advanced has tick f x me _ k (active (rest r), k') _ first
        (run_script-Advanced me (rest r) k' first.boxes first.quiet)
  run_script-Advanced me (Script.broadcast payload metadata rest) k here quiet =
      let first =
        one_request-Advanced has tick f x me (Script.broadcast payload metadata rest) k here
          quiet in
      let (r, k') = ctx_broadcast me payload metadata k in
      then-Advanced has tick f x me _ k (active (rest r), k') _ first
        (run_script-Advanced me (rest r) k' first.boxes first.quiet)
  run_script-Advanced me (Script.spawn spec rest) k here quiet = elim quiet [ ]
  run_script-Advanced me (Script.children rest) k here quiet = elim quiet [ ]
  run_script-Advanced me (Script.call name operation arguments rest) k here quiet = elim quiet [ ]
  run_script-Advanced me (Script.wait rest) k here quiet =
      let first = one_request-Advanced has tick f x me (Script.wait rest) k here quiet in
      then-Advanced has tick f x me _ k (active rest, ctx_wait me k) _ first
        (run_script-Advanced me rest (ctx_wait me k) first.boxes first.quiet)
  run_script-Advanced me (Script.exit rest) k here quiet =
      let first = one_request-Advanced has tick f x me (Script.exit rest) k here quiet in
      then-Advanced has tick f x me _ k (active rest, ctx_exit me k) _ first
        (run_script-Advanced me rest (ctx_exit me k) first.boxes first.quiet)

  -- a worker that is run out
  abbrev pub Ended : String → Progress P.Memory → Kernel P → Bool × Kernel P → Type 0
  Ended me p k (outcome, k') = Advanced has tick f x me p k (finished outcome, k')

  run_started-Ended :
      (me : String) (s : Option (Script P.Memory)) (k : Kernel P)
      → Has has k.bus
      → QuietProgress (started s)
      → Ended me (started s) k (run_started me s k)
  run_started-Ended me none k here quiet = record {
    boxes = here;
    others = λ n other. refl;
    agent = refl;
    outcome = refl;
    mail = refl;
    quiet = tt;
  }
  run_started-Ended me (some script) k here quiet = run_script-Advanced me script k here quiet

  pub run_out-Ended :
      IsQuiet P
      → (me : String) (p : Progress P.Memory) (k : Kernel P) → Has has k.bus
      → QuietProgress p
      → Ended me p k (run_out tick me p k)
  unfolding run_out advance
  run_out-Ended all_quiet me (queued inbox) k here quiet =
      let first = advance-Advanced has tick f x all_quiet me (queued inbox) k here quiet in
      let k' = begin_step me k in
      let s = script_of me tick inbox k' in
      then-Advanced has tick f x me _ k (started s, k') _ first
        (run_started-Ended me s k' first.boxes first.quiet)
  run_out-Ended all_quiet me (active script) k here quiet =
      run_script-Advanced me script k here quiet
  run_out-Ended all_quiet me (finished outcome) k here quiet =
      advance-Advanced has tick f x all_quiet me (finished outcome) k here quiet
