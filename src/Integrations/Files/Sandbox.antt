-- ===== src/Integrations/Files/Sandbox.antt =====
-- Symbolic links on the paths of titoos/integrations/files.py, wherever they point: none is followed.
use Prim.Native.String.{len}
use tito_os.Prelude.{
  String, Bool, true, false, not, ◌&&◌, List, [], ◌∷◌, Option, none, some, ◌≡◌, refl, ap, ◌∙◌,
  arith, ltb, inl, inr, ◌⊎◌,
}
use tito_os.Errors.{Result, err, file_fault, escapes, Exec}
use tito_os.Integrations.Folders.{
  Entries, Node, file, directory, symlink, lookup, lstat, as_directory,
}
use tito_os.Integrations.Folders.Laws.{put_same}
use tito_os.Integrations.Files.{FileSystem, walk, but_last, last_part, describe_oserror, within}
use tito_os.Integrations.Files.Operations.{
  Operation, reading, writing, appending, listing, testing, deleting,
}
use tito_os.Integrations.Files.Walking.{walk-into, walk-stopped}

-- One of the parts is a symbolic link, found through directories.
unfoldable pub crossing : List String → Entries → Bool
unfolding lookup
crossing [] es = false
crossing (p ∷ ps) es = elim (lookup p es) [
  | some (symlink _) ↦ true
  | some (directory ds) ↦ crossing ps ds
  | _ ↦ false
]

crossing-cases :
    (p : String) (rest : List String) (es : Entries)
    → crossing (p ∷ rest) es ≡ true
    → ((t : String) × (lookup p es ≡ some (symlink t)))
      ⊎ ((ds : Entries) × (lookup p es ≡ some (directory ds)) × (crossing rest ds ≡ true))
unfolding crossing
crossing-cases p rest es h = split (lookup p es) refl
  where
    split :
        (o : Option Node)
        → lookup p es ≡ o
        → ((t : String) × (lookup p es ≡ some (symlink t)))
          ⊎ ((ds : Entries) × (lookup p es ≡ some (directory ds)) × (crossing rest ds ≡ true))
    split none e = absurd (ground arith)
    split (some (file c)) e = absurd (ground arith)
    split (some (symlink t)) e = inl (t, e)
    split (some (directory ds)) e = inr (ds, e, ground arith)

module _ (fs : FileSystem) {A : Type 0} (operation : String) (create : Bool)
    (body : Exec Entries A) where
  at_link :
      (p : String) (rest : List String) (es : Entries) {target : String}
      → lookup p es ≡ some (symlink target)
      → walk fs operation create body (p ∷ rest) es
        ≡ (err (file_fault fs.name escapes operation), es)
  unfolding describe_oserror lstat
  at_link p rest es h =
      walk-stopped fs operation create body p rest es h (ap as_directory h) ∙ rw (lstat, h) refl

  past_directory :
      (p : String) (rest : List String) (es : Entries) {ds : Entries} (r : Result A)
      → lookup p es ≡ some (directory ds)
      → walk fs operation create body rest ds ≡ (r, ds)
      → walk fs operation create body (p ∷ rest) es ≡ (r, es)
  past_directory p rest es {ds} r h below =
      walk-into fs operation create body p rest es (ap as_directory h)
      ∙ ap (within p es) below
      ∙ ap (λ x. (r, x)) (put_same p (directory ds) es h)

  -- a link among the parts that are opened as directories
  pub walk-crossing :
      (parts : List String) (es : Entries)
      → crossing parts es ≡ true
      → walk fs operation create body parts es ≡ (err (file_fault fs.name escapes operation), es)
  walk-crossing [] es h = (unfold crossing in absurd cc)
  walk-crossing (p ∷ rest) es h = elim (crossing-cases p rest es h) [
    | inl (t, at) ↦ at_link p rest es at
    | inr (ds, at, deeper) ↦
        past_directory p rest es (err (file_fault fs.name escapes operation)) at
          (walk-crossing rest ds deeper)
  ]

  -- a link among the parts, where the block answers a `P` for one at its own entry
  pub walk-ending :
      (P : Result A → Type 0) (p : String) (ps : List String)
      → ((here : Entries) (target : String)
          → lookup (last_part p ps) here ≡ some (symlink target)
          → (r : Result A) × P r × (body here ≡ (r, here)))
      → P (err (file_fault fs.name escapes operation))
      → (es : Entries) → crossing (p ∷ ps) es ≡ true
      → (r : Result A) × P r × (walk fs operation create body (but_last p ps) es ≡ (r, es))
  unfolding but_last last_part crossing
  walk-ending P p [] ends refused es h = elim (crossing-cases p [] es h) [
    | inl (t, at) ↦ (unfold walk in ends es t at)
    | inr (ds, at, deeper) ↦ absurd cc
  ]
  walk-ending P p (q ∷ qs) ends refused es h = elim (crossing-cases p (q ∷ qs) es h) [
    | inl (t, at) ↦
        (err (file_fault fs.name escapes operation), refused, at_link p (but_last q qs) es at)
    | inr (ds, at, deeper) ↦
        let (r, holds, below) = walk-ending P q qs ends refused ds deeper in
        (r, holds, past_directory p (but_last q qs) es r at below)
  ]

-- What an operation is called with, and the parts of its path that it goes through: `delete` does
-- not look at what its last part is.
abbrev pub name_of : Operation → String
name_of (reading path) = "read_text"
name_of (writing path content) = "write_text"
name_of (appending path content) = "append_text"
name_of (listing path) = "list_dir"
name_of (testing path) = "exists"
name_of (deleting path missing_ok) = "delete"

abbrev pub path_of : Operation → String
path_of (reading path) = path
path_of (writing path content) = path
path_of (appending path content) = path
path_of (listing path) = path
path_of (testing path) = path
path_of (deleting path missing_ok) = path

unfoldable pub walked : Operation → String → List String → List String
unfolding but_last
walked (deleting path missing_ok) p ps = but_last p ps
walked o p ps = p ∷ ps

-- the checks that come before the path is looked at
abbrev pub admitted : FileSystem → Operation → Bool
admitted fs (writing path content) = not fs.read_only && not (ltb fs.max_bytes (len content))
admitted fs (appending path content) = not fs.read_only && not (ltb fs.max_bytes (len content))
admitted fs (deleting path missing_ok) = not fs.read_only
admitted fs o = true
