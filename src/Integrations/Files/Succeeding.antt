-- ===== src/Integrations/Files/Succeeding.antt =====
-- Writing and reading that succeed, in titoos/integrations/files.py.
use Prim.Native.String.{len, count}
use tito_os.Prelude.{
  String, Bool, true, false, List, [], ◌∷◌, Option, none, some, ◌≡◌, refl, ap, sym, ◌∙◌, arith, ltb,
  subst, ℕ, ◌≤◌, eq_refl,
}
use tito_os.Strings.{concat, concat_empty}
use tito_os.Errors.{Result, ok, Exec}
use tito_os.Integrations.Folders.{
  Entries, end, Node, Content, text, size, extended, file, directory, symlink, lookup, put, opened,
  as_directory, mkdir, lstat,
}
use tito_os.Integrations.Folders.Laws.{lookup-put}
use tito_os.Integrations.Files.{
  FileSystem, parts, walk, ready, use_file, but_last, last_part, open_path,
}
use tito_os.Integrations.Files.Operations.{
  reads, writes, read_handle, read_text, write_text, exists, wrapped, newlines, stated,
}
use tito_os.Integrations.Files.Cases.{open_path-walk, writable-free}
use tito_os.Integrations.Files.Walking.{node_at, walk-entered, walk-found, ready_present}
use tito_os.Integrations.Files.Contents.{node_at-put}
use tito_os.Integrations.Files.Leaves.{use_file-opened}
use tito_os.Integrations.Files.Reading.{read_text_unchanged, exists_unchanged}

-- Where a file can be written: what is there of the way are directories, and a file at most stands
-- at its end.
unfoldable pub free : String → List String → Entries → Bool
unfolding lookup
free p [] es = elim (lookup p es) [ none ↦ true | some (file _) ↦ true | _ ↦ false ]
free p (q ∷ qs) es = elim (lookup p es) [
  | none ↦ true
  | some (directory ds) ↦ free q qs ds
  | _ ↦ false
]

free_end : (p : String) (ps : List String) → free p ps end ≡ true
unfolding free lookup
free_end p [] = refl
free_end p (q ∷ qs) = refl

-- the next directory of the way is there, or can be made
free-ready :
    (p q : String) (qs : List String) (es : Entries)
    → free p (q ∷ qs) es ≡ true
    → (here : Entries) × (ds : Entries) × (ready true p es ≡ ok here)
      × (as_directory (lookup p here) ≡ ok ds)
      × (free q qs ds ≡ true)
unfolding free ready mkdir
free-ready p q qs es h = split (lookup p es) refl
  where
    split :
        (o : Option Node)
        → lookup p es ≡ o
        → (here : Entries) × (ds : Entries) × (ready true p es ≡ ok here)
          × (as_directory (lookup p here) ≡ ok ds)
          × (free q qs ds ≡ true)
    split none e = (
      put p (directory end) es,
      end,
      rw (mkdir, e) refl,
      rw (lookup-put p p (directory end) es, eq_refl p) refl,
      free_end q qs,
    )
    split (some (directory ds)) e =
        (es, ds, ready_present true p es e, ap as_directory e, ground arith)
    split (some (file c)) e = absurd (ground arith)
    split (some (symlink t)) e = absurd (ground arith)

module _ (fs : FileSystem) (content : String) where
  abbrev writing_it : Content → Result ℕ × Content
  writing_it c = (ok (count content), extended c content)

  -- the walk wrote the file that stands at the end of the path now
  abbrev Written : String → List String → Result ℕ × Entries → Type 0
  Written p ps r = (r.0 ≡ ok (count content)) × (node_at p ps r.1 ≡ some (file (text content)))

  use_file-Written :
      (name : String) (es : Entries)
      → free name [] es ≡ true
      → Written name [] (use_file fs "write_text" writes writing_it name es)
  unfolding free node_at extended
  use_file-Written name es h =
      subst (Written name [])
        (sym
          (use_file-opened fs "write_text" writes writing_it name es (fresh (lookup name es) refl)))
        (
          refl,
          rw
              (
                lookup-put name name (file (text (concat "" content)))
                    (put name (file (text "")) es),
                eq_refl name,
              )
              (ap (λ s. some (file (text s))) (concat_empty content)),
        )
    where
      fresh : (o : Option Node) → lookup name es ≡ o → opened writes (lookup name es) ≡ ok (text "")
      fresh none e = rw e refl
      fresh (some (file c)) e = rw e refl
      fresh (some (directory ds)) e = absurd (ground arith)
      fresh (some (symlink t)) e = absurd (ground arith)

  walk-Written :
      (p : String) (ps : List String) (es : Entries)
      → free p ps es ≡ true
      → Written p ps (
          walk fs "write_text" true
            (use_file fs "write_text" writes writing_it (last_part p ps))
            (but_last p ps)
            es)
  unfolding but_last last_part node_at
  walk-Written p [] es h = (unfold walk in use_file-Written p es h)
  walk-Written p (q ∷ qs) es h =
      let (here, ds, made, goes, rest) = free-ready p q qs es h in
      let (done, there) = walk-Written q qs ds rest in
      subst (Written p (q ∷ qs))
        (sym (
          walk-entered fs "write_text" true
            (use_file fs "write_text" writes writing_it (last_part q qs)) p (but_last q qs) es made
            goes))
        (
          done,
          node_at-put p q qs
                (walk fs "write_text" true
                  (use_file fs "write_text" writes writing_it (last_part q qs)) (but_last q qs)
                  ds).1
                here
              ∙ there,
        )

by_parts : {A B : Type 0} (r : A × B) {a : A} {b : B} → r.0 ≡ a → r.1 ≡ b → r ≡ (a, b)
by_parts r {a} h k = ap (λ x. (x, r.1)) h ∙ ap (λ y. (a, y)) k

stated-file :
    (fs : FileSystem) (n : Content) (r : Result Node × Entries)
    → r.0 ≡ ok (file n)
    → (stated fs r).0 ≡ ok true
stated-file fs n (r, es) h = subst (λ x. (stated fs (x, es)).0 ≡ ok true) (sym h) refl

module _ (fs : FileSystem) (path : String) (p : String) (ps : List String) where
  read_handle-text :
      (content : String)
      → len content ≤ fs.max_bytes
      → read_handle fs (text content) ≡ (ok (newlines false content), text content)
  unfolding read_handle size
  read_handle-text content fits =
      let under : ltb fs.max_bytes (len content) ≡ false = ground arith in
      rw (read_handle, under) refl

  -- a file of text that is there and not too large is read
  read_text-file :
      (content : String) (es : Entries)
      → parts fs path "read_text" ≡ ok (p ∷ ps)
      → node_at p ps es ≡ some (file (text content))
      → len content ≤ fs.max_bytes
      → read_text fs path es ≡ (ok (newlines false content), es)
  unfolding read_text open_path
  read_text-file content es named there fits =
      let body : Exec Entries String =
        use_file fs "read_text" reads (read_handle fs) (last_part p ps) in
      let (here, at, same) =
        walk-found fs "read_text" false body p ps es (file (text content)) there in
      let found : (body here).0 ≡ ok (newlines false content) =
        ap (λ r. r.0)
          (use_file-opened fs "read_text" reads (read_handle fs) (last_part p ps) here
            (ap (opened reads) at))
        ∙ ap (λ r. r.0) (read_handle-text content fits) in
      by_parts (read_text fs path es)
        (rw (read_text, open_path, named)
          (ap (λ r. (wrapped fs "read_text" (r, es)).0) (same ∙ found)))
        (read_text_unchanged fs path es)

  exists-node :
      (n : Content) (es : Entries)
      → parts fs path "exists" ≡ ok (p ∷ ps)
      → node_at p ps es ≡ some (file n)
      → exists fs path es ≡ (ok true, es)
  unfolding exists lstat
  exists-node n es named there =
      let body : Exec Entries Node = λ here. (lstat (last_part p ps) here, here) in
      let (here, at, same) = walk-found fs "exists" false body p ps es (file n) there in
      let found : (body here).0 ≡ ok (file n) = rw (lstat, at) refl in
      by_parts (exists fs path es) (rw (exists, named) (stated-file fs n _ (same ∙ found)))
        (exists_unchanged fs path es)

-- Where the way to a path can be made and at most a file stands at its end, a text within
-- `max_bytes` is written, if the integration may write: the write answers the number of its
-- characters, the file is there, and reading it gives the text back, with its line ends read as
-- "\n".
pub read_text-write_text :
    (fs : FileSystem) (path content : String) (p : String) (ps : List String) (es : Entries)
    → fs.read_only ≡ false
    → len content ≤ fs.max_bytes
    → ((operation : String) → parts fs path operation ≡ ok (p ∷ ps))
    → free p ps es ≡ true
    → (left : Entries) × (write_text fs path content es ≡ (ok (count content), left))
      × (exists fs path left ≡ (ok true, left))
      × (read_text fs path left ≡ (ok (newlines false content), left))
unfolding write_text
read_text-write_text fs path content p ps es open_to fits named way =
    let writable_now = writable-free fs path "write_text" open_to (named "write_text") in
    let under : ltb fs.max_bytes (len content) ≡ false = ground arith in
    let (done, there) = walk-Written fs content p ps es way in
    let walked =
      walk fs "write_text" true
        (use_file fs "write_text" writes (writing_it fs content) (last_part p ps)) (but_last p ps)
        es in
    let runs : write_text fs path content es ≡ wrapped fs "write_text" walked =
      rw (write_text, writable_now, under)
        (ap (wrapped fs "write_text")
          (open_path-walk fs path "write_text" writes (writing_it fs content) es writable_now)) in
    (
      walked.1,
      runs ∙ ap (λ r. wrapped fs "write_text" (r, walked.1)) done,
      exists-node fs path p ps (text content) walked.1 (named "exists") there,
      read_text-file fs path p ps content walked.1 (named "read_text") there fits,
    )
