-- ===== src/Integrations/Shell/Running.antt =====
-- titoos/integrations/shell.py: `run` around the child process. What the operating system does with
-- a program is a parameter: that it cannot be started, or a child that writes and ends as it does.
use tito_os.Prelude.{
  ℕ, ◌+◌, String, Bool, true, false, not, ◌&&◌, List, Option, none, some, if◌then◌else◌, leb,
  is_some, nat_eq,
}
use tito_os.Errors.{Result, ok, err, call_failed, broken_pipe}
use tito_os.Dict.{Dict}
use tito_os.Integrations.Shell.{Shell, Command, resolve, fresh_reader, read_all, reader_text}

-- `process.returncode`: the exit status, or the negated number of the signal that ended the child
pub data ReturnCode : Type 0 where
  exited : ℕ → ReturnCode
  signalled : ℕ → ReturnCode

-- `CommandResult`, of characters `A`
pub record CommandResult (A : Type 0) : Type 0 where
  pub command : List String
  pub returncode : ReturnCode
  pub stdout : List A
  pub stderr : List A

-- `CommandResult.ok`
abbrev pub is_ok : ReturnCode → Bool
is_ok (exited n) = nat_eq n 0
is_ok (signalled n) = false

-- What comes of the input of a child: the write and the `close` come back after so long, with all of
-- it read; the write raises after so long, and the `close` does not; the `close` raises after so
-- long; or one of them never comes back, since the child neither reads on nor ends.
pub data Intake : Type 0 where
  taken unread unflushed : ℕ → Intake
  stuck : Intake

-- A child, left to itself: the chunks that reads of its pipes give, until they are closed or the
-- grace of the readers is over, when it ends, with which code, and what comes of its input.
pub record Child (A : Type 0) : Type 0 where
  pub output : List (List A)
  pub errors : List (List A)
  pub ends_after : Option ℕ
  pub code : ReturnCode
  pub intake : Intake

-- What `run` has done with a child that it started.
pub record Process : Type 0 where
  pub input : Option String
  pub input_closed : Bool
  pub killed : Bool
  pub waited : Bool

-- `process.wait(timeout=limit)` comes back
unfoldable pub ends_within : Option ℕ → ℕ → Bool
ends_within none limit = false
ends_within (some n) limit = leb n limit

-- A process just after `Popen`: a pipe for the input only where there is some.
abbrev pub started : Option String → Process
started stdin = record {
  input = none;
  input_closed = not (is_some stdin);
  killed = false;
  waited = false;
}

-- When the write of the input and its `close` have come back, and whether the `close` raised.
pub record Fed : Type 0 where
  pub after : ℕ
  pub close_raised : Bool
  pub process : Process

abbrev pub closed_input : Option String → Process → Process
closed_input text p = record p { input = text; input_closed = true }

-- The write of the input, whose `OSError` passes, and its `close`, whose does not; none where they
-- never come back. No limit of time is on them.
unfoldable pub feed : Option String → Intake → Process → Option Fed
feed none intake p = some (record { after = 0; close_raised = false; process = p })
feed (some text) (taken n) p =
    some (record { after = n; close_raised = false; process = closed_input (some text) p })
feed (some text) (unread n) p =
    some (record { after = n; close_raised = false; process = closed_input none p })
feed (some text) (unflushed n) p =
    some (record { after = n; close_raised = true; process = closed_input none p })
feed (some text) stuck p = none

-- `wait`, and after a timeout `kill` and `wait`
unfoldable pub reap : Bool → Process → Process
reap ended p =
    if ended then record p { waited = true } else record p { killed = true; waited = true }

module _ {A : Type 0} (popen : List String → Option String → Dict String → Option (Child A))
    (s : Shell) where
  unfoldable pub result_of : List String → Child A → CommandResult A
  unfolding reader_text read_all
  result_of argv child = record {
    command = argv;
    returncode = child.code;
    stdout = reader_text (read_all child.output (fresh_reader s.max_output));
    stderr = reader_text (read_all child.errors (fresh_reader s.max_output));
  }

  -- the result of a child that ended in time
  unfoldable pub completed : List String → Bool → Child A → Result (CommandResult A)
  unfolding result_of
  completed argv check child =
      if check && not (is_ok child.code)
      then err (call_failed s.name "run")
      else ok (result_of argv child)

  abbrev pub limit_of : Option ℕ → ℕ
  limit_of none = s.timeout
  limit_of (some t) = t

  -- The end of the `with` block when an exception leaves it: `wait`, without a limit.
  unfoldable pub left_behind :
      Child A → Process → Option (Result (CommandResult A)) × Option Process
  left_behind child p = elim child.ends_after [
    | none ↦ (none, some p)
    | some n ↦ (some (err broken_pipe), some (record p { waited = true }))
  ]

  -- the limit of time runs from the end of the feeding
  abbrev pub in_time : Option ℕ → Child A → Fed → Bool
  in_time timeout child fed = ends_within child.ends_after (fed.after + limit_of timeout)

  -- the `with` block, and what follows it
  unfoldable pub served :
      List String
      → Option ℕ
      → Bool
      → Child A
      → Process
      → Option Fed
      → Option (Result (CommandResult A)) × Option Process
  unfolding ends_within reap completed left_behind
  served argv timeout check child p none = (none, some p)
  served argv timeout check child p (some fed) =
      if fed.close_raised then left_behind child fed.process else (
        some (
            if in_time timeout child fed
            then completed argv check child
            else err (call_failed s.name "run")),
        some (reap (in_time timeout child fed) fed.process),
      )

  -- `run`: what it answers, none where it never comes back, and what has become of the process, if
  -- one was started.
  unfoldable pub run :
      Command → Option String → Option ℕ → Bool → Option (Result (CommandResult A)) × Option Process
  unfolding resolve feed served
  run command stdin timeout check = elim (resolve s command) [
    | err e ↦ (some (err e), none)
    | ok argv ↦ elim (popen argv s.cwd s.env) [
      | none ↦ (some (err (call_failed s.name "run")), none)
      | some child ↦
          served argv timeout check child (started stdin) (feed stdin child.intake (started stdin))
    ]
  ]
