-- ===== src/Integrations/Files/Walking.antt =====
-- The walk of titoos/integrations/files.py against the tree: where it ends, and what it leaves.
use tito_os.Prelude.{
  String, Bool, true, false, List, [], ◌∷◌, Option, none, some, ◌≡◌, refl, ap, ◌∙◌, arith, inl, inr,
}
use tito_os.Errors.{ok, err, Error, Exec, Result-cases}
use tito_os.Integrations.Folders.{
  Entries, Node, directory, file, symlink, as_directory, lookup, put, mkdir, open_directory,
}
use tito_os.Integrations.Folders.Laws.{put_same}
use tito_os.Integrations.Files.{
  FileSystem, walk, ready, but_last, last_part, within, describe_oserror,
}

-- The node at a path, through directories alone.
unfoldable pub node_at : String → List String → Entries → Option Node
unfolding lookup
node_at p [] es = lookup p es
node_at p (q ∷ qs) es = elim (as_directory (lookup p es)) [ err _ ↦ none | ok ds ↦ node_at q qs ds ]

pub ready_present :
    (create : Bool) (part : String) (es : Entries) {n : Node}
    → lookup part es ≡ some n
    → ready create part es ≡ ok es
unfolding ready mkdir
ready_present false part es h = refl
ready_present true part es h = rw (mkdir, h) refl

pub directory-some :
    (o : Option Node) {ds : Entries} → as_directory o ≡ ok ds → o ≡ some (directory ds)
directory-some none h = cc
directory-some (some (directory es)) h = cc
directory-some (some (file c)) h = cc
directory-some (some (symlink t)) h = cc

module _ (fs : FileSystem) {A : Type 0} (operation : String) (create : Bool)
    (body : Exec Entries A) where
  -- the walk goes on below its first part
  pub walk-entered :
      (part : String) (rest : List String) (es : Entries) {here ds : Entries}
      → ready create part es ≡ ok here
      → as_directory (lookup part here) ≡ ok ds
      → walk fs operation create body (part ∷ rest) es
        ≡ within part here (walk fs operation create body rest ds)
  unfolding walk open_directory
  walk-entered part rest es made goes = rw (walk, made, open_directory, goes) refl

  -- the walk stops at its first part
  pub walk-refused :
      (part : String) (rest : List String) (es : Entries) {here : Entries} {e : Error}
      → ready create part es ≡ ok here
      → as_directory (lookup part here) ≡ err e
      → walk fs operation create body (part ∷ rest) es
        ≡ (err (describe_oserror fs e operation (some (part, here))), here)
  unfolding walk open_directory
  walk-refused part rest es made stops = rw (walk, made, open_directory, stops) refl

  -- the first part is a directory
  pub walk-into :
      (part : String) (rest : List String) (es : Entries) {ds : Entries}
      → as_directory (lookup part es) ≡ ok ds
      → walk fs operation create body (part ∷ rest) es
        ≡ within part es (walk fs operation create body rest ds)
  walk-into part rest es goes =
      walk-entered part rest es
        (ready_present create part es (directory-some (lookup part es) goes)) goes

  -- the first part is there and is no directory
  pub walk-stopped :
      (part : String) (rest : List String) (es : Entries) {n : Node} {e : Error}
      → lookup part es ≡ some n
      → as_directory (lookup part es) ≡ err e
      → walk fs operation create body (part ∷ rest) es
        ≡ (err (describe_oserror fs e operation (some (part, es))), es)
  walk-stopped part rest es h = walk-refused part rest es (ready_present create part es h)

  -- A node that is there is found: the block runs on the directory that holds it.
  pub walk-found :
      (p : String) (ps : List String) (es : Entries) (n : Node)
      → node_at p ps es ≡ some n
      → (here : Entries) × (lookup (last_part p ps) here ≡ some n)
        × ((walk fs operation create body (but_last p ps) es).0 ≡ (body here).0)
  unfolding node_at walk but_last last_part
  walk-found p [] es n h = (es, h, refl)
  walk-found p (q ∷ qs) es n h = elim (Result-cases (as_directory (lookup p es))) [
    | inr (e, stops) ↦ absurd (ground arith)
    | inl (ds, goes) ↦
        let (here, at, same) = walk-found q qs ds n (ground arith) in
        (here, at, ap (λ r. r.0) (walk-into p (but_last q qs) es goes) ∙ same)
  ]

module _ (fs : FileSystem) {A : Type 0} (operation : String) (body : Exec Entries A) where
  -- A walk that creates nothing around a block that changes nothing changes nothing.
  pub walk_unchanged :
      ((here : Entries) → (body here).1 ≡ here)
      → (rest : List String) (es : Entries) → (walk fs operation false body rest es).1 ≡ es
  unfolding ready
  walk_unchanged pure [] es = (unfold walk in pure es)
  walk_unchanged pure (part ∷ rest) es = elim (Result-cases (as_directory (lookup part es))) [
    | inr (e, stops) ↦ ap (λ r. r.1) (walk-refused fs operation false body part rest es refl stops)
    | inl (ds, goes) ↦
        ap (λ r. r.1) (walk-into fs operation false body part rest es goes)
        ∙ ap (λ d. put part (directory d) es) (walk_unchanged pure rest ds)
        ∙ put_same part (directory ds) es (directory-some (lookup part es) goes)
  ]
