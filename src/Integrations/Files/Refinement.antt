-- ===== src/Integrations/Files/Refinement.antt =====
-- The integration of titoos/integrations/files.py as what it promises: a table from paths to the
-- contents of files.
use Prim.Native.String.{count}
use tito_os.Prelude.{
  String, Bool, true, false, List, ◌∷◌, Option, none, some, if◌then◌else◌, ◌≡◌, refl, ap, sym, ◌∙◌,
  inl, inr, fun_ext, ℕ, ◌⊎◌, subst,
}
use tito_os.Errors.{Result, ok, err, Error, os_error, no_entry, not_directory}
use tito_os.Integrations.Folders.{Entries, Content, text, extended, unlink}
use tito_os.Integrations.Files.{FileSystem, parts, walk, use_file, but_last, last_part}
use tito_os.Integrations.Files.Operations.{
  Operation, reading, writing, appending, listing, testing, deleting, Reply, wrote, answer, perform,
  replied, wrapped, unlinked, writes, appends, append_handle, write_text, append_text, delete,
}
use tito_os.Integrations.Files.Cases.{
  Refused, writable-parts, wrapped-err, write_text-cases, append_text-cases, delete-cases,
}
use tito_os.Integrations.Files.Contents.{contents, same_path, walk-Changes}
use tito_os.Integrations.Files.Reading.{perform_unchanged}
use tito_os.Integrations.Files.Leaves.{
  overwritten, grown, lengthened, erased, write-IsLeaf, append-IsLeaf, unlink-IsLeaf,
}

abbrev pub Files : Type 0
Files = List String → Option Content

if_same : {A : Type 0} (b : Bool) {a : A} → (if b then a else a) ≡ a
if_same true = refl
if_same false = refl

-- One file of the table replaced, where the path names one.
unfoldable pub placed : Result (List String) → (Option Content → Option Content) → Files → Files
unfolding same_path
placed (ok ps) f files qs = if same_path ps qs then f (files qs) else files qs
placed (err e) f files qs = files qs

-- What an operation that answered `reply` has made of the table.
unfoldable pub effect : FileSystem → Operation → Result Reply → Files → Files
unfolding placed parts
effect fs (writing path content) (ok _) files =
    placed (parts fs path "write_text") (λ _. some (text content)) files
effect fs (appending path content) (ok _) files =
    placed (parts fs path "append_text") (λ old. some (grown content old)) files
effect fs (deleting path missing_ok) (ok (answer true)) files =
    placed (parts fs path "delete") (λ _. none) files
effect fs o reply files = files

module _ (fs : FileSystem) (es : Entries) where
  abbrev Refines : Operation → Result Reply × Entries → Type 0
  Refines o r = (qs : List String) → contents r.1 qs ≡ effect fs o r.0 (contents es) qs

  -- the tree is left as it was, and the reply changes nothing
  refused-Refines :
      (o : Operation) (r : Result Reply × Entries) (e : Error) (left : Entries)
      → ((qs : List String) → contents left qs ≡ contents es qs)
      → r ≡ (err e, left)
      → Refines o r
  unfolding effect
  refused-Refines (reading path) r e left same h = subst (Refines (reading path)) (sym h) same
  refused-Refines (writing path c) r e left same h = subst (Refines (writing path c)) (sym h) same
  refused-Refines (appending path c) r e left same h =
      subst (Refines (appending path c)) (sym h) same
  refused-Refines (listing path) r e left same h = subst (Refines (listing path)) (sym h) same
  refused-Refines (testing path) r e left same h = subst (Refines (testing path)) (sym h) same
  refused-Refines (deleting path m) r e left same h = subst (Refines (deleting path m)) (sym h) same

  -- an operation that answers with the outcome of its walk, or raises
  settled-Refines :
      {A : Type 0} (o : Operation) (operation : String) (f : A → Reply)
      (change : Result A → Option Content → Option Content) (ps : List String)
      → ((e : Error) (c : Option Content) → change (err e) c ≡ c)
      → ((a : A) (left : Entries)
          → ((qs : List String)
              → contents left qs
                ≡ (if same_path ps qs then change (ok a) (contents es qs) else contents es qs))
          → Refines o (ok (f a), left))
      → (r : Result A × Entries)
      → ((qs : List String)
          → contents r.1 qs
            ≡ (if same_path ps qs then change r.0 (contents es qs) else contents es qs))
      → Refines o (replied f (wrapped fs operation r))
  settled-Refines o operation f change ps on_error returned (ok a, left) changes =
      returned a left changes
  settled-Refines o operation f change ps on_error returned (err e, left) changes =
      let (e', same) = wrapped-err fs operation e left in
      refused-Refines o (replied f (wrapped fs operation (err e, left))) e' left
        (λ qs.
          changes qs
          ∙ ap (λ c. if same_path ps qs then c else contents es qs) (on_error e (contents es qs))
          ∙ if_same (same_path ps qs))
        (ap (replied f) same)

  write-Refines :
      (path content : String)
      → Refines (writing path content) (replied wrote (write_text fs path content es))
  unfolding effect placed
  write-Refines path content = elim (write_text-cases fs path content es) [
    | inl (e, h) ↦ refused-Refines (writing path content) _ e es (λ qs. refl) (ap (replied wrote) h)
    | inr (fits, inl (e, h)) ↦
        refused-Refines (writing path content) _ e es (λ qs. refl) (ap (replied wrote) h)
    | inr (fits, inr (p, ps, at, h)) ↦
        let block : Content → Result ℕ × Content = λ c. (ok (count content), extended c content) in
        let named = (writable-parts fs path "write_text" at).1 in
        subst (Refines (writing path content)) (sym (ap (replied wrote) h)) (
          settled-Refines (writing path content) "write_text" wrote (overwritten content) (p ∷ ps)
            (λ e c. refl) (λ n left changes qs. rw named (changes qs))
            (walk fs "write_text" true (use_file fs "write_text" writes block (last_part p ps))
              (but_last p ps) es)
            (walk-Changes fs (overwritten content) "write_text" true
              (use_file fs "write_text" writes block (last_part p ps)) p ps
              (write-IsLeaf fs content (last_part p ps)) es))
  ]

  append-Refines :
      (path content : String)
      → Refines (appending path content) (replied wrote (append_text fs path content es))
  unfolding effect placed
  append-Refines path content = elim (append_text-cases fs path content es) [
    | inl (e, h) ↦
        refused-Refines (appending path content) _ e es (λ qs. refl) (ap (replied wrote) h)
    | inr (fits, inl (e, h)) ↦
        refused-Refines (appending path content) _ e es (λ qs. refl) (ap (replied wrote) h)
    | inr (fits, inr (p, ps, at, h)) ↦
        let named = (writable-parts fs path "append_text" at).1 in
        subst (Refines (appending path content)) (sym (ap (replied wrote) h)) (
          settled-Refines (appending path content) "append_text" wrote (lengthened content) (p ∷ ps)
            (λ e c. refl) (λ n left changes qs. rw named (changes qs))
            (walk fs "append_text" true
              (use_file fs "append_text" appends (append_handle fs content) (last_part p ps))
              (but_last p ps) es)
            (walk-Changes fs (lengthened content) "append_text" true
              (use_file fs "append_text" appends (append_handle fs content) (last_part p ps)) p ps
              (append-IsLeaf fs content (last_part p ps) fits) es))
  ]

  -- what `delete` makes of an `OSError`: it raises another error, or answers that nothing was there
  unlinked-err :
      (missing_ok : Bool) (e : Error) (left : Entries)
      → Refused left (unlinked fs missing_ok (err e, left))
        ⊎ (unlinked fs missing_ok (err e, left) ≡ (ok false, left))
  unlinked-err true (os_error no_entry) left = inr refl
  unlinked-err false (os_error no_entry) left = inl (_, refl)
  unlinked-err true (os_error not_directory) left = inr refl
  unlinked-err false (os_error not_directory) left = inl (_, refl)
  unlinked-err missing_ok (os_error e) left = inl (_, refl)
  unlinked-err missing_ok e left = inl (_, refl)

  unlinked-Refines :
      (path : String) (missing_ok : Bool) (ps : List String)
      → parts fs path "delete" ≡ ok ps
      → (r : Result {0} Unit × Entries)
      → ((qs : List String)
          → contents r.1 qs
            ≡ (if same_path ps qs then erased r.0 (contents es qs) else contents es qs))
      → Refines (deleting path missing_ok) (replied answer (unlinked fs missing_ok r))
  unfolding effect placed
  unlinked-Refines path missing_ok ps named (ok done, left) changes = λ qs. rw named (changes qs)
  unlinked-Refines path missing_ok ps named (err e, left) changes =
      let same : (qs : List String) → contents left qs ≡ contents es qs =
        λ qs. changes qs ∙ if_same (same_path ps qs) in
      elim (unlinked-err missing_ok e left) [
        | inl (e', h) ↦
            refused-Refines (deleting path missing_ok) _ e' left same (ap (replied answer) h)
        | inr h ↦ subst (Refines (deleting path missing_ok)) (sym (ap (replied answer) h)) same
      ]

  delete-Refines :
      (path : String) (missing_ok : Bool)
      → Refines (deleting path missing_ok) (replied answer (delete fs path missing_ok es))
  delete-Refines path missing_ok = elim (delete-cases fs path missing_ok es) [
    | inl (e, h) ↦
        refused-Refines (deleting path missing_ok) _ e es (λ qs. refl) (ap (replied answer) h)
    | inr (p, ps, at, h) ↦
        subst (Refines (deleting path missing_ok)) (sym (ap (replied answer) h)) (
          unlinked-Refines path missing_ok (p ∷ ps) (writable-parts fs path "delete" at).1
            (walk fs "delete" false (unlink (last_part p ps)) (but_last p ps) es)
            (walk-Changes fs erased "delete" false (unlink (last_part p ps)) p ps
              (unlink-IsLeaf (last_part p ps)) es))
  ]

  -- The operations as changes of a table from paths to file contents: whatever an operation answers,
  -- the files it leaves are those that the table's own operation gives for that answer. A write
  -- replaces the content at its path, an append adds to it, a delete that answers true removes it;
  -- every other file stays, and after an error, a read, a listing or a test all of them do.
  pub contents-perform :
      (o : Operation) → contents (perform fs o es).1 ≡ effect fs o (perform fs o es).0 (contents es)
  unfolding perform effect
  contents-perform (writing path content) = fun_ext (write-Refines path content)
  contents-perform (appending path content) = fun_ext (append-Refines path content)
  contents-perform (deleting path missing_ok) = fun_ext (delete-Refines path missing_ok)
  contents-perform (reading path) = ap contents (perform_unchanged fs (reading path) es refl)
  contents-perform (listing path) = ap contents (perform_unchanged fs (listing path) es refl)
  contents-perform (testing path) = ap contents (perform_unchanged fs (testing path) es refl)
