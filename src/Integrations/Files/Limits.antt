-- ===== src/Integrations/Files/Limits.antt =====
-- The bound of titoos/integrations/files.py on the size of a file.
use Prim.Native.String.{len, count}
use tito_os.Prelude.{
  String, Bool, true, false, List, ◌∷◌, Option, none, some, if◌then◌else◌, ◌≡◌, refl, ap, sym, ◌∙◌,
  arith, ltb, subst, Bool-cases, inl, inr, ℕ, ◌+◌, ◌≤◌,
}
use tito_os.Strings.{concat_empty, len-concat}
use tito_os.Errors.{Result, ok, err, Exec, os_error, no_entry, not_directory}
use tito_os.Integrations.Folders.{
  Entries, Node, Flags, Content, text, binary, size, extended, file, directory, symlink, opened,
  unlink,
}
use tito_os.Integrations.Files.{FileSystem, walk, use_file, but_last, last_part}
use tito_os.Integrations.Files.Operations.{
  Operation, reading, writing, appending, listing, testing, deleting, perform, unlinked, writes,
  appends, append_handle, write_text, append_text, delete, wrote, answer,
}
use tito_os.Integrations.Files.Cases.{Writes, write_text-cases, append_text-cases, delete-cases}
use tito_os.Integrations.Files.Reading.{left_by, perform_unchanged}
use tito_os.Integrations.Files.Contents.{contents, filed, same_path, walk-Changes, IsLeaf}
use tito_os.Integrations.Files.Leaves.{
  overwritten, grown, erased, use_file-IsLeaf, write-IsLeaf, unlink-IsLeaf,
}

module _ (fs : FileSystem) where
  -- what a path holds is no larger than `max_bytes`
  abbrev Fits : Option Content → Type 0
  Fits none = Unit
  Fits (some c) = size c ≤ fs.max_bytes

  -- Every file of the tree is no larger than `max_bytes`.
  unfoldable pub IsLimited : Entries → Type 0
  unfolding contents size
  IsLimited es = (path : List String) → Fits (contents es path)

  -- an append that has grown a file has measured it
  abbrev measured : String → Result ℕ → Option Content → Option Content
  measured content (ok _) old =
      if ltb fs.max_bytes (size (grown content old)) then old else some (grown content old)
  measured content (err _) old = old

  size-extended : (c : Content) (more : String) → size (extended c more) ≡ size c + len more
  unfolding size extended
  size-extended (text s) more = len-concat s more
  size-extended (binary n) more = refl

  extended_empty : (content : String) → some (extended (text "") content) ≡ some (text content)
  unfolding extended
  extended_empty content = ap (λ s. some (text s)) (concat_empty content)

  size_text : (s : String) → size (text s) ≡ len s
  unfolding size
  size_text s = refl

  empty_size : size (text "") ≡ 0
  unfolding size
  empty_size = refl

  measured-IsLeaf :
      (content name : String)
      → len content ≤ fs.max_bytes
      → IsLeaf
          (measured content)
          name
          (use_file fs "append_text" appends (append_handle fs content) name)
  unfolding append_handle
  measured-IsLeaf content name fits =
      use_file-IsLeaf fs "append_text" appends (append_handle fs content) name (measured content)
        (λ e c. refl) longer
    where
      Grows : Option Content → Content → Type 0
      Grows old c =
          some (append_handle fs content c).1 ≡ measured content (append_handle fs content c).0 old

      longer_new : size (text "") ≡ 0 → size (text content) ≡ len content → Grows none (text "")
      longer_new zero_size whole =
          let under : ltb fs.max_bytes (size (text "") + len content) ≡ false = ground arith in
          let stays : ltb fs.max_bytes (size (text content)) ≡ false = ground arith in
          rw (append_handle, under, stays) (extended_empty content)

      longer_old : (d : Content) → Grows (some d) d
      longer_old d = elim (Bool-cases (ltb fs.max_bytes (size d + len content))) [
        | inl over ↦ rw (append_handle, over) refl
        | inr under ↦
            let stays : ltb fs.max_bytes (size (extended d content)) ≡ false =
              ap (ltb fs.max_bytes) (size-extended d content) ∙ under in
            rw (append_handle, under, stays) refl
      ]

      longer : (o : Option Node) (c : Content) → opened appends o ≡ ok c → Grows (filed o) c
      longer none c h =
          let e : text "" ≡ c = cc in
          subst (Grows none) e (longer_new empty_size (size_text content))
      longer (some (file d)) c h = let e : d ≡ c = cc in subst (Grows (some d)) e (longer_old d)
      longer (some (directory d)) c h = absurd cc
      longer (some (symlink d)) c h = absurd cc

  if_Fits : (b : Bool) (x y : Option Content) → Fits x → Fits y → Fits (if b then x else y)
  if_Fits true x y p q = p
  if_Fits false x y p q = q

  walk-IsLimited :
      {A : Type 0} (change : Result A → Option Content → Option Content) (operation : String)
      (create : Bool) (body : Exec Entries A) (p : String) (ps : List String)
      → IsLeaf change (last_part p ps) body
      → ((r : Result A) (old : Option Content) → Fits old → Fits (change r old))
      → (es : Entries) → IsLimited es
      → IsLimited (walk fs operation create body (but_last p ps) es).1
  unfolding IsLimited
  walk-IsLimited change operation create body p ps leaf fitting es limited path =
      let left = walk fs operation create body (but_last p ps) es in
      subst Fits (sym (walk-Changes fs change operation create body p ps leaf es path)) (
        if_Fits (same_path (p ∷ ps) path) _ _ (fitting left.0 (contents es path) (limited path))
          (limited path))

  overwritten-Fits :
      (content : String)
      → len content ≤ fs.max_bytes
      → (r : Result ℕ) (old : Option Content) → Fits old
      → Fits (overwritten content r old)
  unfolding size
  overwritten-Fits content fits (ok n) old h = fits
  overwritten-Fits content fits (err e) old h = h

  measured-Fits :
      (content : String) (r : Result ℕ) (old : Option Content)
      → Fits old
      → Fits (measured content r old)
  measured-Fits content (err e) old h = h
  measured-Fits content (ok n) old h =
      elim (Bool-cases (ltb fs.max_bytes (size (grown content old)))) [
        | inl over ↦ rw over h
        | inr under ↦ rw under (ground arith)
      ]

  erased-Fits : (r : Result {0} Unit) (old : Option Content) → Fits old → Fits (erased r old)
  erased-Fits (ok done) old h = tt
  erased-Fits (err e) old h = h

  -- a refused operation and one that walked, with a block on a file that it opens
  Writes-IsLimited :
      (path operation : String) (flags : Flags) (block : Content → Result ℕ × Content)
      (change : Result ℕ → Option Content → Option Content)
      → ((name : String) → IsLeaf change name (use_file fs operation flags block name))
      → ((r : Result ℕ) (old : Option Content) → Fits old → Fits (change r old))
      → (es : Entries) (r : Result ℕ × Entries) → IsLimited es
      → Writes fs path operation flags block es r
      → IsLimited r.1
  Writes-IsLimited path operation flags block change leaf fitting es r limited (inl (e, h)) =
      subst IsLimited (sym (ap (λ x. x.1) h)) limited
  Writes-IsLimited path operation flags block change leaf fitting es r limited
        (inr (p, ps, at, h)) =
      subst IsLimited (sym (ap (λ x. x.1) h)) (
        walk-IsLimited change operation true (use_file fs operation flags block (last_part p ps)) p
          ps (leaf (last_part p ps)) fitting es limited)

  write_text-IsLimited :
      (path content : String) (es : Entries)
      → IsLimited es
      → IsLimited (write_text fs path content es).1
  write_text-IsLimited path content es limited = elim (write_text-cases fs path content es) [
    | inl (e, h) ↦ subst IsLimited (sym (ap (λ x. x.1) h)) limited
    | inr (fits, ways) ↦
        Writes-IsLimited path "write_text" writes (λ c. (ok (count content), extended c content))
          (overwritten content) (write-IsLeaf fs content) (overwritten-Fits content fits) es
          (write_text fs path content es) limited ways
  ]

  append_text-IsLimited :
      (path content : String) (es : Entries)
      → IsLimited es
      → IsLimited (append_text fs path content es).1
  append_text-IsLimited path content es limited = elim (append_text-cases fs path content es) [
    | inl (e, h) ↦ subst IsLimited (sym (ap (λ x. x.1) h)) limited
    | inr (fits, ways) ↦
        Writes-IsLimited path "append_text" appends (append_handle fs content) (measured content)
          (λ name. measured-IsLeaf content name fits) (measured-Fits content) es
          (append_text fs path content es) limited ways
  ]

  left_by_unlinked :
      (missing_ok : Bool) (r : Result {0} Unit × Entries) → (unlinked fs missing_ok r).1 ≡ r.1
  left_by_unlinked missing_ok (ok done, es) = refl
  left_by_unlinked missing_ok (err (os_error no_entry), es) = refl
  left_by_unlinked missing_ok (err (os_error not_directory), es) = refl
  left_by_unlinked missing_ok (err (os_error e), es) = refl
  left_by_unlinked missing_ok (err e, es) = refl

  delete-IsLimited :
      (path : String) (missing_ok : Bool) (es : Entries)
      → IsLimited es
      → IsLimited (delete fs path missing_ok es).1
  delete-IsLimited path missing_ok es limited = elim (delete-cases fs path missing_ok es) [
    | inl (e, h) ↦ subst IsLimited (sym (ap (λ x. x.1) h)) limited
    | inr (p, ps, at, h) ↦
        let walked = walk fs "delete" false (unlink (last_part p ps)) (but_last p ps) es in
        subst IsLimited (sym (ap (λ x. x.1) h ∙ left_by_unlinked missing_ok walked)) (
          walk-IsLimited erased "delete" false (unlink (last_part p ps)) p ps
            (unlink-IsLeaf (last_part p ps)) erased-Fits es limited)
  ]

  -- In a tree where no file is larger than `max_bytes`, none is after any operation either, whatever
  -- it answers.
  pub perform-IsLimited :
      (o : Operation) (es : Entries) → IsLimited es → IsLimited (perform fs o es).1
  unfolding perform
  perform-IsLimited (writing path content) es limited =
      subst IsLimited (sym (left_by wrote (write_text fs path content es)))
        (write_text-IsLimited path content es limited)
  perform-IsLimited (appending path content) es limited =
      subst IsLimited (sym (left_by wrote (append_text fs path content es)))
        (append_text-IsLimited path content es limited)
  perform-IsLimited (deleting path missing_ok) es limited =
      subst IsLimited (sym (left_by answer (delete fs path missing_ok es)))
        (delete-IsLimited path missing_ok es limited)
  perform-IsLimited (reading path) es limited =
      subst IsLimited (sym (perform_unchanged fs (reading path) es refl)) limited
  perform-IsLimited (listing path) es limited =
      subst IsLimited (sym (perform_unchanged fs (listing path) es refl)) limited
  perform-IsLimited (testing path) es limited =
      subst IsLimited (sym (perform_unchanged fs (testing path) es refl)) limited
