-- ===== src/Integrations/Shell.antt =====
-- titoos/integrations/shell.py: the allowlist of programs, what it makes of a command, and the reader
-- of a child's output. `which` is `shutil.which` with the path made absolute; the child itself is the
-- operating system's.
pub mod Capture
pub mod Programs
pub mod Running
pub mod Fates
pub mod Outcomes
use tito_os.Prelude.{
  ℕ, zero, suc, ◌-◌, ◌+◌, String, Bool, true, false, List, [], ◌∷◌, ◌++◌, map, Option, none, some,
  not, ◌==◌, ◌&&◌, ◌||◌, ◌≡◌, refl, sym, ap, ◌∙◌, if◌then◌else◌, leb, length, take, is_empty, elem,
  arith, Bool-cases, inl, inr, eq_iff, ◌⊎◌,
}
use tito_os.Strings.{lower, strip, contains_text, text_before}
use tito_os.Errors.{
  Result, ok, err, Error, out_of_range, call_failed, empty_name, no_directory, ◌>>=◌,
}
use tito_os.Dict
use tito_os.Dict.{Dict}
use tito_os.Message.{Value, null, int, arr, Items, nil, item}
use tito_os.Dict.Laws.{get-set, get-set_inv}
use tito_os.Integrations.Allowlist.{normalize_allowlist}

-- `sorted`, by insertion in the order of the characters' numbers
unfoldable pub insert : String → List String → List String
insert x [] = x ∷ []
insert x (y ∷ ys) = let rest = insert x ys in if text_before y x then y ∷ rest else x ∷ y ∷ ys

unfoldable pub sorted : List String → List String
unfolding insert
sorted [] = []
sorted (x ∷ xs) = insert x (sorted xs)

-- `name != Path(name).name or "/" in name or "\\" in name`, negated: of the names without a slash,
-- only "." is not its own last component.
unfoldable pub is_bare : String → Bool
is_bare name = not (contains_text "/" name || contains_text "\\" name || name == ".")

-- the loop of `_resolve_allowlist` over the sorted names
unfoldable pub resolve_names :
    (String → Option String) → List String → Dict String → Result (Dict String)
unfolding is_bare lower
resolve_names which [] table = ok table
resolve_names which (name ∷ names) table =
    if name == ""
    then err out_of_range
    else if not (is_bare name)
    then err out_of_range
    else elim (which name) [
      | none ↦ err out_of_range
      | some path ↦ resolve_names which names (Dict.set (lower name) path table)
    ]

-- `_resolve_allowlist`
unfoldable pub resolve_allowlist : (String → Option String) → List String → Result (Dict String)
unfolding sorted resolve_names strip
resolve_allowlist which names = resolve_names which (sorted (map strip names)) []

abbrev pub texts : List String → Items
texts [] = nil
texts (s ∷ ss) = item (Value.text s) (texts ss)

-- `DEFAULT_ENV`, with the `os.defpath` of a POSIX system
abbrev pub default_env : Dict String
default_env = ("PATH", "/bin:/usr/bin") ∷ []

-- the keyword arguments of the constructor; the working directory is an absolute path
pub record Settings : Type 0 where
  pub name : Option String
  pub cwd : Option String
  pub timeout : ℕ
  pub env : Option (Dict String)
  pub max_output : ℕ

pub record Shell : Type 0 where
  pub name : String
  pub allowed_commands : List String
  pub executables : Dict String
  pub cwd : Option String
  pub timeout : ℕ
  pub env : Dict String
  pub max_output : ℕ

-- `self.cwd is not None and not self.cwd.is_dir()`
abbrev pub no_cwd : (String → Bool) → Option String → Bool
no_cwd is_dir none = false
no_cwd is_dir (some path) = not (is_dir path)

abbrev pub shell_name : Option String → String
shell_name none = "shell"
shell_name (some n) = n

-- `ShellIntegration.__init__`. `is_dir` is what the working directory's `is_dir()` answers.
unfoldable pub make_shell :
    (String → Option String) → (String → Bool) → List String → Settings → Result Shell
unfolding resolve_allowlist normalize_allowlist strip
make_shell which is_dir commands given =
    if shell_name given.name == ""
    then err empty_name
    else (normalize_allowlist (map strip commands) "allowed_commands" >>= λ allowed.
        resolve_allowlist which (map strip commands) >>= λ table.
        if not (leb 1 given.timeout)
        then err out_of_range
        else if not (leb 1 given.max_output)
        then err out_of_range
        else if no_cwd is_dir given.cwd
        then err (no_directory given.cwd)
        else ok (record {
          name = shell_name given.name;
          allowed_commands = allowed;
          executables = table;
          cwd = given.cwd;
          timeout = given.timeout;
          env = elim given.env [ none ↦ default_env | some e ↦ e ];
          max_output = given.max_output;
        }))

-- `describe`
unfoldable pub describe : Shell → Dict Value
unfolding sorted
describe s =
    ("name", Value.text s.name)
    ∷ ("allowed_commands", arr (texts (sorted s.allowed_commands)))
    ∷ ("cwd", elim s.cwd [ none ↦ null | some path ↦ Value.text path ])
    ∷ ("timeout", int false s.timeout)
    ∷ []

-- what an agent passes: a string, or the arguments
pub data Command : Type 0 where
  line : String → Command
  words : List String → Command

-- `_resolve`
unfoldable pub resolve : Shell → Command → Result (List String)
unfolding is_bare lower
resolve s (line _) = err (call_failed s.name "run")
resolve s (words []) = err (call_failed s.name "run")
resolve s (words (program ∷ arguments)) =
    if not (is_bare program)
    then err (call_failed s.name "run")
    else elim (Dict.get (lower program) s.executables) [
      | none ↦ err (call_failed s.name "run")
      | some executable ↦ ok (executable ∷ arguments)
    ]

-- `_BoundedReader`
pub record Reader (A : Type 0) : Type 0 where
  pub limit : ℕ
  pub chunks : List (List A)
  pub kept : ℕ

module _ {A : Type 0} where
  abbrev pub fresh_reader : ℕ → Reader A
  fresh_reader limit = record { limit = limit; chunks = []; kept = 0 }

  -- one chunk that is not empty; the room is nothing where as much as the limit is kept
  unfoldable pub keep : List A → Reader A → Reader A
  keep chunk r =
      let part = take (r.limit - r.kept) chunk in
      if not (leb 1 (r.limit - r.kept))
      then r
      else record r { chunks = r.chunks ++ part ∷ []; kept = r.kept + length part }

  -- `_BoundedReader.run`, on what the reads give; an empty chunk is the end of the stream.
  unfoldable pub read_all : List (List A) → Reader A → Reader A
  unfolding keep
  read_all [] r = r
  read_all (chunk ∷ chunks) r =
      let rest = read_all chunks (keep chunk r) in if is_empty chunk then r else rest

  unfoldable pub joined : List (List A) → List A
  joined [] = []
  joined (chunk ∷ chunks) = chunk ++ joined chunks

  -- `_BoundedReader.text`
  unfoldable pub reader_text : Reader A → List A
  unfolding joined
  reader_text r = joined r.chunks

  -- what the child wrote before the end of its stream
  unfoldable pub written : List (List A) → List A
  written [] = []
  written (chunk ∷ chunks) =
      let rest = written chunks in if is_empty chunk then [] else chunk ++ rest
