-- ===== src/Integrations/Files/Operations.antt =====
-- The operations of titoos/integrations/files.py. The encoding is UTF-8.
use Prim.Native.Char.{code}
use Prim.Native.String.{len, count}
use tito_os.Prelude.{
  String, Bool, true, false, List, [], ◌∷◌, map, if◌then◌else◌, ℕ, ◌+◌, ltb, nat_eq, ◌&&◌,
}
use tito_os.Strings.{concat}
use tito_os.Errors.{
  Result, ok, err, os_error, no_entry, not_directory, escapes, not_file, too_large, no_such_file,
  cannot, Exec, not_utf8,
}
use tito_os.Integrations.Folders.{
  Entries, Node, Content, text, binary, size, extended, lstat, is_link, unlink, listdir, Flags,
}
use tito_os.Integrations.Paths.{joined_path}
use tito_os.Integrations.Shell.{sorted}
use tito_os.Integrations.Files.{
  FileSystem, fail, parts, writable, walk, open_path, handled, last_part, but_last,
}

-- The universal newlines of a file that is open for text: "\r\n" and "\r" are read as "\n". The
-- flag is set behind a "\r".
unfoldable pub newlines : Bool → String → String
newlines after String.[] = ""
newlines after (String.◌∷◌ c s) = elim (nat_eq (code c) 13) [
  | true ↦ concat "\n" (newlines true s)
  | false ↦
      let rest = newlines false s in if after && nat_eq (code c) 10 then rest else String.◌∷◌ c rest
]

abbrev pub reads : Flags
reads = record { creates = false; truncates = false }

abbrev pub writes : Flags
writes = record { creates = true; truncates = true }

abbrev pub appends : Flags
appends = record { creates = true; truncates = false }

-- `handle.read()`
abbrev pub decoded : Content → Result String
decoded (text s) = ok (newlines false s)
decoded (binary n) = err not_utf8

module _ (fs : FileSystem) where
  -- the `except OSError` of most operations
  abbrev pub wrapped : {A : Type 0} → String → Result A × Entries → Result A × Entries
  wrapped operation r = handled (λ e. fail fs (cannot e) operation) r

  -- the block of `read_text`
  unfoldable pub read_handle : Content → Result String × Content
  unfolding size newlines
  read_handle c =
      (if ltb fs.max_bytes (size c) then fail fs too_large "read_text" else decoded c, c)

  -- `read_text`
  unfoldable pub read_text : String → Exec Entries String
  unfolding open_path read_handle
  read_text path es = wrapped "read_text" (open_path fs path "read_text" reads false read_handle es)

  -- `write_text`
  unfoldable pub write_text : String → String → Exec Entries ℕ
  unfolding writable open_path
  write_text path content es = elim (writable fs path "write_text") [
    | err e ↦ (err e, es)
    | ok _ ↦
        if ltb fs.max_bytes (len content)
        then (fail fs too_large "write_text", es)
        else wrapped "write_text" (
            open_path fs path "write_text" writes true
              (λ c. (ok (count content), extended c content)) es)
  ]

  -- the block of `append_text`, with the size measured on the open descriptor
  unfoldable pub append_handle : String → Content → Result ℕ × Content
  unfolding size extended
  append_handle content c =
      if ltb fs.max_bytes (size c + len content)
      then (fail fs too_large "append_text", c)
      else (ok (count content), extended c content)

  -- `append_text`
  unfoldable pub append_text : String → String → Exec Entries ℕ
  unfolding writable open_path append_handle
  append_text path content es = elim (writable fs path "append_text") [
    | err e ↦ (err e, es)
    | ok _ ↦
        if ltb fs.max_bytes (len content)
        then (fail fs too_large "append_text", es)
        else wrapped "append_text"
            (open_path fs path "append_text" appends true (append_handle content) es)
  ]

  -- `sorted(str(prefix / entry) for entry in entries)`
  unfoldable pub listed :
      List String → Result (List String) × Entries → Result (List String) × Entries
  unfolding joined_path sorted
  listed prefix (ok names, es) = (ok (sorted (map (joined_path prefix) names)), es)
  listed prefix r = r

  -- `list_dir`
  unfoldable pub list_dir : String → Exec Entries (List String)
  unfolding parts walk listdir listed
  list_dir path es = elim (parts fs path "list_dir") [
    | err e ↦ (err e, es)
    | ok ps ↦
        listed ps
          (wrapped "list_dir" (walk fs "list_dir" false (λ here. (ok (listdir here), here)) ps es))
  ]

  abbrev pub stated : Result Node × Entries → Result Bool × Entries
  stated (ok n, es) = (if is_link n then fail fs escapes "exists" else ok true, es)
  stated (err (os_error no_entry), es) = (ok false, es)
  stated (err (os_error not_directory), es) = (ok false, es)
  stated (err (os_error e), es) = (fail fs (cannot e) "exists", es)
  stated (err e, es) = (err e, es)

  -- `exists`
  unfoldable pub exists : String → Exec Entries Bool
  unfolding parts walk but_last last_part lstat
  exists path es = elim (parts fs path "exists") [
    | err e ↦ (err e, es)
    | ok [] ↦ (ok true, es)
    | ok (p ∷ ps) ↦
        stated
          (walk fs "exists" false (λ here. (lstat (last_part p ps) here, here)) (but_last p ps) es)
  ]

  abbrev pub unlinked : Bool → Result {0} Unit × Entries → Result Bool × Entries
  unlinked missing_ok (ok _, es) = (ok true, es)
  unlinked missing_ok (err (os_error no_entry), es) =
      (if missing_ok then ok false else fail fs no_such_file "delete", es)
  unlinked missing_ok (err (os_error not_directory), es) =
      (if missing_ok then ok false else fail fs no_such_file "delete", es)
  unlinked missing_ok (err (os_error e), es) = (fail fs (cannot e) "delete", es)
  unlinked missing_ok (err e, es) = (err e, es)

  -- `delete`
  unfoldable pub delete : String → Bool → Exec Entries Bool
  unfolding writable walk but_last last_part unlink
  delete path missing_ok es = elim (writable fs path "delete") [
    | err e ↦ (err e, es)
    | ok [] ↦ (fail fs not_file "delete", es)
    | ok (p ∷ ps) ↦
        unlinked missing_ok (walk fs "delete" false (unlink (last_part p ps)) (but_last p ps) es)
  ]

-- What a caller asks for, of the names in `operations`.
pub data Operation : Type 0 where
  reading : String → Operation
  writing : String → String → Operation
  appending : String → String → Operation
  listing : String → Operation
  testing : String → Operation
  deleting : String → Bool → Operation

pub data Reply : Type 0 where
  read : String → Reply
  wrote : ℕ → Reply
  names : List String → Reply
  answer : Bool → Reply

abbrev pub replied {ℓ} : {A : Type ℓ} → (A → Reply) → Result A × Entries → Result Reply × Entries
replied f (ok a, es) = (ok (f a), es)
replied f (err e, es) = (err e, es)

-- the method that `Integration.call` finds for an operation
unfoldable pub perform : FileSystem → Operation → Exec Entries Reply
unfolding read_text write_text append_text list_dir exists delete
perform fs (reading path) es = replied read (read_text fs path es)
perform fs (writing path content) es = replied wrote (write_text fs path content es)
perform fs (appending path content) es = replied wrote (append_text fs path content es)
perform fs (listing path) es = replied names (list_dir fs path es)
perform fs (testing path) es = replied answer (exists fs path es)
perform fs (deleting path missing_ok) es = replied answer (delete fs path missing_ok es)
