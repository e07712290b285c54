-- ===== src/Integrations/Files/Names.antt =====
-- The names that titoos/integrations/files.py hands to the operating system, and what a read-only
-- integration does.
use Prim.Native.Char.{Char}
use tito_os.Prelude.{
  String, Bool, true, false, not, ◌||◌, List, [], ◌∷◌, ◌==◌, ◌≡◌, refl, arith, subst, Bool-cases,
  inl, inr, elem, All,
}
use tito_os.Errors.{ok, err, file_fault, is_read_only}
use tito_os.Integrations.Folders.{Entries}
use tito_os.Integrations.Paths.{
  is_slash, prefixed, split_slashes, kept_parts, path_parts, is_absolute, is_kept,
}
use tito_os.Integrations.Files.{FileSystem, parts, writable}
use tito_os.Integrations.Files.Operations.{
  Operation, reading, writing, appending, listing, testing, deleting, perform, write_text,
  append_text, delete,
}
use tito_os.Integrations.Files.Reading.{changing, perform_unchanged}
use tito_os.Integrations.Files.Sandbox.{name_of}

unfoldable pub has_slash : String → Bool
has_slash String.[] = false
has_slash (String.◌∷◌ c s) = is_slash c || has_slash s

-- A name of an entry, which leads neither up nor further down.
abbrev pub is_name : String → Bool
unfolding has_slash
is_name s = not (s == "" || s == "." || s == ".." || has_slash s)

abbrev HasNone : String → Type 0
HasNone s = has_slash s ≡ false

All-prefixed :
    (c : Char) (ss : List String)
    → is_slash c ≡ false
    → All HasNone ss
    → All HasNone (prefixed c ss)
unfolding has_slash
All-prefixed c [] h all = (ground arith, tt)
All-prefixed c (s ∷ ss) h all = (ground (arith, all.0), all.1)

All-split_slashes : (s : String) → All HasNone (split_slashes s)
unfolding split_slashes has_slash
All-split_slashes String.[] = (refl, tt)
All-split_slashes (String.◌∷◌ c s) = elim (Bool-cases (is_slash c)) [
  | inl slash ↦ rw (split_slashes, slash) (refl, All-split_slashes s)
  | inr other ↦
      rw (split_slashes, other) (All-prefixed c (split_slashes s) other (All-split_slashes s))
]

All-kept_parts :
    (ss : List String)
    → All HasNone ss
    → elem ".." (kept_parts ss) ≡ false
    → All (λ s. is_name s ≡ true) (kept_parts ss)
unfolding kept_parts is_name
All-kept_parts [] all up = tt
All-kept_parts (s ∷ ss) all up = elim (Bool-cases (is_kept s)) [
  | inr other ↦ rw other (All-kept_parts ss all.1 (ground arith))
  | inl kept ↦ rw kept (ground (arith, all.0), All-kept_parts ss all.1 (ground arith))
]

module _ (fs : FileSystem) where
  -- The parts that a path is walked by are names of entries: none is empty, "." or "..", and none
  -- holds a "/".
  pub parts-is_name :
      (path operation : String) (ps : List String)
      → parts fs path operation ≡ ok ps
      → All (λ s. is_name s ≡ true) ps
  unfolding parts path_parts
  parts-is_name path operation ps h = elim (Bool-cases (is_absolute path)) [
    | inl absolute ↦ absurd (ground arith)
    | inr relative ↦ elim (Bool-cases (elem ".." (path_parts path))) [
      | inl up ↦ absurd (ground arith)
      | inr below ↦
          let same : path_parts path ≡ ps = ground arith in
          subst (All (λ s. is_name s ≡ true)) same
            (All-kept_parts (split_slashes path) (All-split_slashes path) below)
    ]
  ]

  -- A read-only integration leaves every tree as it is, and refuses what would write.
  pub perform_read_only :
      (o : Operation) (es : Entries)
      → fs.read_only ≡ true
      → ((perform fs o es).1 ≡ es)
        × (changing o ≡ true
            → perform fs o es ≡ (err (file_fault fs.name is_read_only (name_of o)), es))
  unfolding perform write_text append_text delete writable
  perform_read_only (reading path) es h =
      (perform_unchanged fs (reading path) es refl, λ c. absurd cc)
  perform_read_only (listing path) es h =
      (perform_unchanged fs (listing path) es refl, λ c. absurd cc)
  perform_read_only (testing path) es h =
      (perform_unchanged fs (testing path) es refl, λ c. absurd cc)
  perform_read_only (writing path content) es h =
      (rw (write_text, writable, h) refl, λ c. rw (write_text, writable, h) refl)
  perform_read_only (appending path content) es h =
      (rw (append_text, writable, h) refl, λ c. rw (append_text, writable, h) refl)
  perform_read_only (deleting path missing_ok) es h =
      (rw (delete, writable, h) refl, λ c. rw (delete, writable, h) refl)
