-- ===== src/Integrations/Files.antt =====
-- titoos/integrations/files.py: reads and writes of files below one directory. The state is the tree
-- below `root`; a method takes the directory that a descriptor is open on and gives its contents
-- back, on success and on failure.
pub mod Operations
pub mod Walking
pub mod Contents
pub mod Cases
pub mod Reading
pub mod Leaves
pub mod Refinement
pub mod Sandbox
pub mod Links
pub mod Succeeding
pub mod Limits
pub mod Names
mod Tests
use Prim.Native.String.{len, count}
use tito_os.Prelude.{
  String, Bool, true, false, List, [], ◌∷◌, map, Option, none, some, ◌==◌, if◌then◌else◌, ℕ, ◌+◌,
  ltb, elem, nat_eq,
}
use tito_os.Errors.{
  Result, ok, err, Error, os_error, no_entry, not_directory, symlink_loop, entry_exists, file_fault,
  not_relative, escapes, is_read_only, not_file, too_large, no_such_file, cannot, FileFault, Exec,
  proceed, empty_name, no_sandbox, no_root, not_utf8, out_of_range, OsError, ◌>>=◌,
}
use tito_os.Dict.{Dict}
use tito_os.Message.{Value, bool, int}
use tito_os.Integrations.Folders.{
  Entries, end, Node, directory, file, Content, text, binary, size, extended, lookup, put, mkdir,
  open_directory, lstat, is_link, unlink, listdir, Flags, open_file,
}
use tito_os.Integrations.Paths.{is_absolute, path_parts, joined_path}
use tito_os.Integrations.Shell.{sorted}

pub record FileSystem : Type 0 where
  pub name : String
  pub root : String
  pub read_only : Bool
  pub max_bytes : ℕ

-- `FileSystemIntegration.__init__`. `supported` is `_SANDBOX_SUPPORTED`, `is_directory` is what
-- `resolved.is_dir()` answers.
unfoldable pub make_file_system :
    Bool → Bool → Option String → String → Bool → ℕ → Result FileSystem
make_file_system supported is_directory name resolved read_only max_bytes =
    let chosen : String = elim name [ none ↦ "files" | some n ↦ n ] in
    if chosen == ""
    then err empty_name
    else if supported
    then (if is_directory
        then (if nat_eq max_bytes 0
            then err out_of_range
            else ok (record {
              name = chosen;
              root = resolved;
              read_only = read_only;
              max_bytes = max_bytes;
            }))
        else err no_root)
    else err no_sandbox

-- `describe`
unfoldable pub describe : FileSystem → Dict Value
describe fs =
    ("name", Value.text fs.name)
    ∷ ("root", Value.text fs.root)
    ∷ ("read_only", bool fs.read_only)
    ∷ ("max_bytes", int false fs.max_bytes)
    ∷ []

-- The context manager's `try: ... except OSError as exc: raise self._fail(...)`: an `OSError` of the
-- body becomes an `IntegrationError`, and another exception passes.
abbrev guarded {ℓ} : {A : Type ℓ} → (OsError → Result A) → Result A → Result A
guarded handle (err (os_error e)) = handle e
guarded handle r = r

abbrev handled {ℓ} : {A S : Type ℓ} → (OsError → Result A) → Result A × S → Result A × S
handled handle (r, s) = (guarded handle r, s)

-- `parts[:-1]` and `parts[-1]` of a list with a first part
unfoldable pub but_last : String → List String → List String
but_last p [] = []
but_last p (q ∷ qs) = p ∷ but_last q qs

unfoldable pub last_part : String → List String → String
last_part p [] = p
last_part p (q ∷ qs) = last_part q qs

abbrev made : Result {0} Unit × Entries → Result Entries
made (ok _, es) = ok es
made (err (os_error entry_exists), es) = ok es
made (err e, es) = err e

-- The directory that `_walk` opens its next part in: with `create` the part is made, and what is in
-- the way stays.
unfoldable pub ready : Bool → String → Entries → Result Entries
unfolding mkdir
ready create part es = if create then made (mkdir part es) else ok es

-- what `_walk` leaves of the directory above, when `below` is what is left of its part
abbrev within {ℓ} : {A : Type ℓ} → String → Entries → Result A × Entries → Result A × Entries
within part es (r, below) = (r, put part (directory below) es)

-- what the handle wrote is in the file
abbrev written_back {ℓ} : {A : Type ℓ} → String → Entries → Result A × Content → Result A × Entries
written_back name es (r, c) = (r, put name (file c) es)

module _ (fs : FileSystem) where
  -- `Integration._fail`
  abbrev fail {ℓ} : {A : Type ℓ} → FileFault → String → Result A
  fail fault operation = err (file_fault fs.name fault operation)

  -- `_parts`
  unfoldable pub parts : String → String → Result (List String)
  unfolding is_absolute path_parts
  parts path operation =
      if is_absolute path
      then fail not_relative operation
      else (if elem ".." (path_parts path) then fail escapes operation else ok (path_parts path))

  -- `_writable`
  unfoldable pub writable : String → String → Result (List String)
  unfolding parts
  writable path operation =
      if fs.read_only then fail is_read_only operation else parts path operation

  -- whether `os.stat(part, dir_fd=dir_fd, follow_symlinks=False)` finds a symbolic link
  abbrev stat_is_link : Result Node → Bool
  stat_is_link (ok n) = is_link n
  stat_is_link (err _) = false

  -- `_describe_oserror`, with the part and its directory where they are given
  unfoldable pub describe_oserror : Error → String → Option (String × Entries) → Error
  unfolding lstat
  describe_oserror (os_error symlink_loop) operation at = file_fault fs.name escapes operation
  describe_oserror (os_error not_directory) operation (some (part, es)) =
      if stat_is_link (lstat part es)
      then file_fault fs.name escapes operation
      else os_error not_directory
  describe_oserror e operation at = e

  -- `_walk`, with the block that runs on the descriptor it yields
  unfoldable pub walk : {A : Type 0} → String → Bool → Exec Entries A → List String → Exec Entries A
  unfolding ready open_directory describe_oserror
  walk operation create body [] es = body es
  walk operation create body (part ∷ rest) es = elim (ready create part es) [
    | err e ↦ (err e, es)
    | ok here ↦ elim (open_directory part here) [
      | err e ↦ (err (describe_oserror e operation (some (part, here))), here)
      | ok below ↦ within part here (walk operation create body rest below)
    ]
  ]

  unfoldable pub described : String → Result Content × Entries → Result Content × Entries
  unfolding describe_oserror
  described operation (ok c, es) = (ok c, es)
  described operation (err e, es) = (err (describe_oserror e operation none), es)

  -- The block of `_open` on the directory of the file: `block` is what runs on the handle.
  unfoldable pub use_file :
      {A : Type 0} → String → Flags → (Content → Result A × Content) → String → Exec Entries A
  unfolding open_file described put
  use_file operation flags block name es =
      proceed (described operation (open_file flags name es))
        (λ c left. written_back name left (block c))

  -- `_open`
  unfoldable pub open_path :
      {A : Type 0}
      → String
      → String
      → Flags
      → Bool
      → (Content → Result A × Content)
      → Exec Entries A
  unfolding parts writable walk use_file but_last last_part
  open_path path operation flags writes block es =
      elim (if writes then writable path operation else parts path operation) [
        | err e ↦ (err e, es)
        | ok [] ↦ (fail not_file operation, es)
        | ok (p ∷ ps) ↦
            walk operation writes (use_file operation flags block (last_part p ps)) (but_last p ps)
              es
      ]
