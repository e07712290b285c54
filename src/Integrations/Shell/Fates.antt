-- ===== src/Integrations/Shell/Fates.antt =====
-- What `run` of titoos/integrations/shell.py may answer and leave behind, for a child as it is fed and
-- as it ends.
use tito_os.Prelude.{
  ℕ, String, Bool, true, false, not, ◌&&◌, List, Option, none, some, ◌≡◌, ◌∙◌, refl, ap, sym, take,
  arith, Bool-cases, inl, inr, subst, ◌⊎◌,
}
use tito_os.Errors.{Result, ok, err, Error}
use tito_os.Dict.{Dict}
use tito_os.Integrations.Shell.{Shell, Command, resolve, written}
use tito_os.Integrations.Shell.Capture.{reader_text-read_all}
use tito_os.Integrations.Shell.Running.{
  CommandResult, is_ok, Intake, taken, unread, unflushed, stuck, Child, Process, Fed, started, feed,
  reap, result_of, completed, in_time, served, run,
}

module _ {A : Type 0} (popen : List String → Option String → Dict String → Option (Child A))
    (s : Shell) where
  -- the argument vector, and the child that it started
  abbrev pub Started : Command → List String → Child A → Type 0
  Started command argv child = (resolve s command ≡ ok argv) × (popen argv s.cwd s.env ≡ some child)

  -- how the child was fed
  abbrev pub Feeds : Option String → Child A → Fed → Type 0
  Feeds stdin child fed = feed stdin child.intake (started stdin) ≡ some fed

  -- What is left of a process when `run` has come back: it was waited for, its input is closed, and it
  -- was killed exactly if it was fed without an exception and then did not end in time.
  abbrev pub IsReaped : Command → Option String → Option ℕ → Process → Type 0
  IsReaped command stdin timeout p =
      (p.waited ≡ true)
      × (p.input_closed ≡ true)
      × ((argv : List String) × (child : Child A) × (fed : Fed) × Started command argv child
          × Feeds stdin child fed
          × (p.killed ≡ (not fed.close_raised && not (in_time popen s timeout child fed))))

  -- the child was fed without an exception, and ended in time after that
  abbrev pub Ends : Option String → Option ℕ → Child A → Type 0
  Ends stdin timeout child =
      (fed : Fed) × Feeds stdin child fed
      × (fed.close_raised ≡ false)
      × (in_time popen s timeout child fed ≡ true)

  -- What a result says: the child's code, and the beginning of what it wrote.
  abbrev pub IsResult : Command → Option String → Option ℕ → Bool → CommandResult A → Type 0
  IsResult command stdin timeout check r =
      (child : Child A) × Started command r.command child
      × Ends stdin timeout child
      × (check ≡ true → is_ok child.code ≡ true)
      × (r.returncode ≡ child.code)
      × (r.stdout ≡ take s.max_output (written child.output))
      × (r.stderr ≡ take s.max_output (written child.errors))

  -- `run` does not come back from this child: the feeding does not, or its `close` raised and the child
  -- does not end.
  abbrev pub Hangs : Option String → Child A → Type 0
  Hangs stdin child =
      (feed stdin child.intake (started stdin) ≡ none)
      ⊎ ((fed : Fed) × Feeds stdin child fed
          × (fed.close_raised ≡ true)
          × (child.ends_after ≡ none))

  pub record IsRun (command : Command) (stdin : Option String) (timeout : Option ℕ) (check : Bool)
      (answer : Option (Result (CommandResult A))) (process : Option Process) : Type 0 where
    pub reaped :
        (x : Result (CommandResult A)) (p : Process)
        → answer ≡ some x
        → process ≡ some p
        → IsReaped command stdin timeout p
    pub truthful :
        (r : CommandResult A) → answer ≡ some (ok r) → IsResult command stdin timeout check r
    pub complete :
        (argv : List String) (child : Child A)
        → Started command argv child
        → Ends stdin timeout child
        → (check ≡ true → is_ok child.code ≡ true)
        → (r : CommandResult A) × (answer ≡ some (ok r))
    pub hanging :
        answer ≡ none
        → (argv : List String) × (child : Child A) × Started command argv child × Hangs stdin child
    pub endless :
        (argv : List String) (child : Child A)
        → Started command argv child
        → Hangs stdin child
        → answer ≡ none

  abbrev pub Outcome : Type 0
  Outcome = Option (Result (CommandResult A)) × Option Process

  pub run-started :
      (command : Command) (stdin : Option String) (timeout : Option ℕ) (check : Bool)
      (argv : List String) (child : Child A)
      → Started command argv child
      → run popen s command stdin timeout check
        ≡ served popen s argv timeout check child
            (started stdin)
            (feed stdin child.intake (started stdin))
  unfolding run
  run-started command stdin timeout check argv child (resolves, starts) =
      rw (run, resolves, starts) refl

  -- nothing was started
  pub refused-IsRun :
      (command : Command) (stdin : Option String) (timeout : Option ℕ) (check : Bool) (e : Error)
      → ((argv : List String) (child : Child A) → Started command argv child → ⊥)
      → IsRun command stdin timeout check (some (err e)) none
  refused-IsRun command stdin timeout check e never = record {
    reaped = λ x p h k. absurd cc;
    truthful = λ r h. absurd cc;
    complete = λ argv child begun. absurd (never argv child begun);
    hanging = λ h. absurd cc;
    endless = λ argv child begun. absurd (never argv child begun);
  }

  some_path : {p q : Fed} → some p ≡ some q → p ≡ q
  some_path h = cc

  pub some_process : {p q : Process} → some p ≡ some q → p ≡ q
  some_process h = cc

  pub some_answer : {p q : Result (CommandResult A)} → some p ≡ some q → p ≡ q
  some_answer h = cc

  pub feed-killed :
      (stdin : Option String) (child : Child A) (fed : Fed)
      → Feeds stdin child fed
      → (fed.process.killed ≡ false) × (fed.process.input_closed ≡ true)
  unfolding feed
  feed-killed stdin child fed h = by_intake stdin child.intake h
    where
      kept :
          {p : Fed}
          → some p ≡ some fed
          → (p.process.killed ≡ false) × (p.process.input_closed ≡ true)
          → (fed.process.killed ≡ false) × (fed.process.input_closed ≡ true)
      kept e (k, l) =
          let same = some_path e in
          (
            ap (λ (q : Fed). q.process.killed) (sym same) ∙ k,
            ap (λ (q : Fed). q.process.input_closed) (sym same) ∙ l,
          )

      by_intake :
          (stdin : Option String) (intake : Intake)
          → feed stdin intake (started stdin) ≡ some fed
          → (fed.process.killed ≡ false) × (fed.process.input_closed ≡ true)
      by_intake none intake h = kept h (refl, refl)
      by_intake (some text) (taken n) h = kept h (refl, refl)
      by_intake (some text) (unread n) h = kept h (refl, refl)
      by_intake (some text) (unflushed n) h = kept h (refl, refl)
      by_intake (some text) stuck h = absurd (cc)

  pub completed-IsResult :
      (command : Command) (stdin : Option String) (timeout : Option ℕ) (check : Bool)
      (argv : List String) (child : Child A)
      → Started command argv child
      → Ends stdin timeout child
      → (r : CommandResult A) → completed popen s argv check child ≡ ok r
      → IsResult command stdin timeout check r
  unfolding completed result_of
  completed-IsResult command stdin timeout check argv child begun ended r h =
      elim (Bool-cases (check && not (is_ok child.code))) [
        | inl failed ↦ absurd (ground arith)
        | inr fine ↦
            subst (IsResult command stdin timeout check) (returned (rw (completed, fine) at h)) (
              child,
              begun,
              ended,
              (λ asked. ground arith),
              refl,
              reader_text-read_all s.max_output child.output,
              reader_text-read_all s.max_output child.errors,
            )
      ]
    where
      returned : {a b : CommandResult A} → ◌≡◌ {A = Result (CommandResult A)} (ok a) (ok b) → a ≡ b
      returned e = cc

  pub reap-IsReaped :
      (command : Command) (stdin : Option String) (timeout : Option ℕ) (argv : List String)
      (child : Child A) (fed : Fed)
      → Started command argv child
      → Feeds stdin child fed
      → fed.close_raised ≡ false
      → (ended : Bool) → in_time popen s timeout child fed ≡ ended
      → IsReaped command stdin timeout (reap ended fed.process)
  unfolding reap
  reap-IsReaped command stdin timeout argv child fed begun feeds calm true e =
      let (alive, closed) = feed-killed stdin child fed feeds in
      (refl, closed, (argv, child, fed, begun, feeds, rw (calm, e) alive))
  reap-IsReaped command stdin timeout argv child fed begun feeds calm false e =
      let (alive, closed) = feed-killed stdin child fed feeds in
      (refl, closed, (argv, child, fed, begun, feeds, rw (calm, e) refl))

  -- what was started is determined by the command
  pub same_child :
      (command : Command) (argv argv' : List String) (child child' : Child A)
      → Started command argv child
      → Started command argv' child'
      → child' ≡ child
  same_child command argv argv' child child' (h, k) (h', k') = let same : argv ≡ argv' = cc in cc

  pub completed-ok :
      (argv : List String) (check : Bool) (child : Child A)
      → (check ≡ true → is_ok child.code ≡ true)
      → (r : CommandResult A) × (completed popen s argv check child ≡ ok r)
  unfolding completed
  completed-ok argv check child fine =
      let passes : (check && not (is_ok child.code)) ≡ false = passed check fine in
      (result_of popen s argv child, rw (completed, passes) refl)
    where
      passed :
          (c : Bool) → (c ≡ true → is_ok child.code ≡ true) → (c && not (is_ok child.code)) ≡ false
      passed true f = ap not (f refl)
      passed false f = refl
