-- ===== src/Integrations/Files/Leaves.antt =====
-- The blocks that change a tree: each changes one entry of its directory.
use Prim.Native.String.{len, count}
use tito_os.Prelude.{
  String, false, List, ◌∷◌, Option, none, some, ◌==◌, ◌≡◌, refl, ap, subst, sym, ◌∙◌, arith,
  eq_refl, inl, inr, Bool-cases, ℕ, ltb, ◌≤◌, ◌+◌,
}
use tito_os.Strings.{concat, concat_empty}
use tito_os.Errors.{Result, ok, err, Error, Result-cases}
use tito_os.Integrations.Folders.{
  Entries, Node, Content, text, size, extended, directory, file, symlink, as_directory, lookup, put,
  remove, unlink, open_file, removed, opened, Flags,
}
use tito_os.Integrations.Folders.Laws.{lookup-put, lookup-remove}
use tito_os.Integrations.Files.{FileSystem, use_file, written_back, described, describe_oserror}
use tito_os.Integrations.Files.Operations.{writes, appends, append_handle}
use tito_os.Integrations.Files.Walking.{node_at}
use tito_os.Integrations.Files.Contents.{filed, IsLeaf}

lookup-put_same :
    (name : String) (node : Node) (es : Entries) → lookup name (put name node es) ≡ some node
lookup-put_same name node es = ground (arith, lookup-put name name node es, eq_refl name)

-- an entry that a path cannot go through
node_at-shut :
    (name q : String) (qs : List String) (es : Entries) {e : Error}
    → as_directory (lookup name es) ≡ err e
    → node_at name (q ∷ qs) es ≡ none
unfolding node_at
node_at-shut name q qs es h = rw (node_at, h) refl

-- what opens as a file is no directory
opened-shut :
    (flags : Flags) (o : Option Node) {c : Content}
    → opened flags o ≡ ok c
    → (e : Error) × (as_directory o ≡ err e)
opened-shut flags none h = (_, refl)
opened-shut flags (some (directory _)) h = cc
opened-shut flags (some (file _)) h = (_, refl)
opened-shut flags (some (symlink _)) h = cc

module _ (fs : FileSystem) {A : Type 0} (operation : String) (flags : Flags)
    (block : Content → Result A × Content) (name : String) (es : Entries) where
  pub use_file-opened :
      {c : Content}
      → opened flags (lookup name es) ≡ ok c
      → use_file fs operation flags block name es
        ≡ written_back name (put name (file c) es) (block c)
  unfolding use_file open_file described
  use_file-opened h = rw (use_file, open_file, h) refl

  pub use_file-refused :
      {e : Error}
      → opened flags (lookup name es) ≡ err e
      → use_file fs operation flags block name es ≡ (err (describe_oserror fs e operation none), es)
  unfolding use_file open_file described
  use_file-refused h = rw (use_file, open_file, h) refl

module _ (fs : FileSystem) {A : Type 0} (operation : String) (flags : Flags)
    (block : Content → Result A × Content) (name : String)
    (change : Result A → Option Content → Option Content) where
  -- a file that is opened and written
  pub use_file-IsLeaf :
      ((e : Error) (c : Option Content) → change (err e) c ≡ c)
      → ((o : Option Node) (c : Content)
          → opened flags o ≡ ok c
          → some (block c).1 ≡ change (block c).0 (filed o))
      → IsLeaf change name (use_file fs operation flags block name)
  unfolding put
  use_file-IsLeaf on_error writes_it = record {
    on_error = on_error;
    others = λ es m other. elim (Result-cases (opened flags (lookup name es))) [
      | inr (e, h) ↦ ap (λ r. lookup m r.1) (use_file-refused fs operation flags block name es h)
      | inl (c, h) ↦
          ap (λ r. lookup m r.1) (use_file-opened fs operation flags block name es h)
          ∙ ground (
            arith,
            lookup-put name m (file (block c).1) (put name (file c) es),
            lookup-put name m (file c) es,
          )
    ];
    below = λ es q qs. elim (Result-cases (opened flags (lookup name es))) [
      | inr (e, h) ↦
          ap (λ r. node_at name (q ∷ qs) r.1) (use_file-refused fs operation flags block name es h)
      | inl (c, h) ↦
          ap (λ r. node_at name (q ∷ qs) r.1) (use_file-opened fs operation flags block name es h)
          ∙ node_at-shut name q qs (put name (file (block c).1) (put name (file c) es))
              (ap as_directory (lookup-put_same name (file (block c).1) (put name (file c) es)))
          ∙ sym (node_at-shut name q qs es (opened-shut flags (lookup name es) h).1)
    ];
    own = λ es. elim (Result-cases (opened flags (lookup name es))) [
      | inr (e, h) ↦
          subst (λ r. filed (lookup name r.1) ≡ change r.0 (filed (lookup name es)))
            (sym (use_file-refused fs operation flags block name es h))
            (sym (on_error (describe_oserror fs e operation none) (filed (lookup name es))))
      | inl (c, h) ↦
          subst (λ r. filed (lookup name r.1) ≡ change r.0 (filed (lookup name es)))
            (sym (use_file-opened fs operation flags block name es h))
            (ap filed (lookup-put_same name (file (block c).1) (put name (file c) es))
              ∙ writes_it (lookup name es) c h)
    ];
  }

-- The abstract changes: what a method that returned has made of the file at its path.
abbrev pub overwritten : String → Result ℕ → Option Content → Option Content
overwritten content (ok _) old = some (text content)
overwritten content (err _) old = old

abbrev pub grown : String → Option Content → Content
grown content none = text content
grown content (some c) = extended c content

abbrev pub lengthened : String → Result ℕ → Option Content → Option Content
lengthened content (ok _) old = some (grown content old)
lengthened content (err _) old = old

abbrev pub erased : Result {0} Unit → Option Content → Option Content
erased (ok _) old = none
erased (err _) old = old

module _ (fs : FileSystem) (content name : String) where
  pub write-IsLeaf :
      IsLeaf
        (overwritten content)
        name
        (use_file fs "write_text" writes (λ c. (ok (count content), extended c content)) name)
  unfolding extended
  write-IsLeaf =
      use_file-IsLeaf fs "write_text" writes (λ c. (ok (count content), extended c content)) name
        (overwritten content) (λ e c. refl) fresh
    where
      start : (c : Content) → text "" ≡ c → some (extended c content) ≡ some (text content)
      start c e =
          subst (λ x. some (extended x content) ≡ some (text content)) e
            (ap (λ s. some (text s)) (concat_empty content))

      fresh :
          (o : Option Node) (c : Content)
          → opened writes o ≡ ok c
          → some (extended c content) ≡ some (text content)
      fresh none c h = start c cc
      fresh (some (file d)) c h = start c cc
      fresh (some (directory d)) c h = absurd cc
      fresh (some (symlink d)) c h = absurd cc

  pub append-IsLeaf :
      len content ≤ fs.max_bytes
      → IsLeaf
          (lengthened content)
          name
          (use_file fs "append_text" appends (append_handle fs content) name)
  unfolding extended append_handle size
  append-IsLeaf fits =
      use_file-IsLeaf fs "append_text" appends (append_handle fs content) name (lengthened content)
        (λ e c. refl) longer
    where
      started :
          concat "" content ≡ content
          → some (append_handle fs content (text "")).1
            ≡ lengthened content (append_handle fs content (text "")).0 none
      started same = elim (Bool-cases (ltb fs.max_bytes (size (text "") + len content))) [
        | inl over ↦ absurd (ground arith)
        | inr under ↦ rw (append_handle, under) (ap (λ s. some (text s)) same)
      ]

      longer :
          (o : Option Node) (c : Content)
          → opened appends o ≡ ok c
          → some (append_handle fs content c).1
            ≡ lengthened content (append_handle fs content c).0 (filed o)
      longer none c h =
          let e : text "" ≡ c = cc in
          subst
            (λ x.
              some (append_handle fs content x).1
              ≡ lengthened content (append_handle fs content x).0 none)
            e (started (concat_empty content))
      longer (some (file d)) c h =
          let e : d ≡ c = cc in
          subst
            (λ x.
              some (append_handle fs content x).1
              ≡ lengthened content (append_handle fs content x).0 (some d))
            e (ground arith)
      longer (some (directory d)) c h = absurd cc
      longer (some (symlink d)) c h = absurd cc

pub unlink-IsLeaf : (name : String) → IsLeaf erased name (unlink name)
unfolding unlink node_at
unlink-IsLeaf name = record {
  on_error = λ e c. refl;
  others = λ es m other. others (lookup name es) es m other;
  below = λ es q qs. below (lookup name es) es q qs refl;
  own = λ es. own (lookup name es) es refl;
}
  where
    gone : (es : Entries) → lookup name (remove name es) ≡ none
    gone es = ground (arith, lookup-remove name name es, eq_refl name)

    others :
        (o : Option Node) (es : Entries) (m : String)
        → (name == m) ≡ false
        → lookup m (removed name o es).1 ≡ lookup m es
    others none es m other = refl
    others (some (directory ds)) es m other = refl
    others (some (file c)) es m other = ground (arith, lookup-remove name m es)
    others (some (symlink t)) es m other = ground (arith, lookup-remove name m es)

    below :
        (o : Option Node) (es : Entries) (q : String) (qs : List String)
        → lookup name es ≡ o
        → node_at name (q ∷ qs) (removed name o es).1 ≡ node_at name (q ∷ qs) es
    below none es q qs h = refl
    below (some (directory ds)) es q qs h = refl
    below (some (file c)) es q qs h = rw (node_at, h, gone es) refl
    below (some (symlink t)) es q qs h = rw (node_at, h, gone es) refl

    own :
        (o : Option Node) (es : Entries)
        → lookup name es ≡ o
        → filed (lookup name (removed name o es).1)
          ≡ erased (removed name o es).0 (filed (lookup name es))
    own none es h = refl
    own (some (directory ds)) es h = refl
    own (some (file c)) es h = ap filed (gone es)
    own (some (symlink t)) es h = ap filed (gone es)
