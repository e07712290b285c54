-- ===== src/Integrations/Files/Cases.antt =====
-- The ways through an operation of titoos/integrations/files.py: it is refused before it touches the
-- tree, or it walks.
use Prim.Native.String.{len, count}
use tito_os.Prelude.{
  String, Bool, true, false, List, [], ◌∷◌, ◌≡◌, refl, ap, arith, inl, inr, ◌⊎◌, Bool-cases, ltb,
  ◌≤◌, sym, subst, ◌∙◌,
}
use tito_os.Errors.{Result, ok, err, Error, os_error, Result-cases, too_large, not_file, file_fault}
use tito_os.Integrations.Folders.{Entries, Content, extended, unlink, Flags}
use tito_os.Integrations.Files.{
  FileSystem, parts, writable, walk, use_file, open_path, but_last, last_part,
}
use tito_os.Integrations.Files.Operations.{
  write_text, append_text, append_handle, delete, writes, appends, wrapped, unlinked,
}

-- what the operation answered and left, refused before it walked
abbrev pub Refused : {A : Type 0} → Entries → Result A × Entries → Type 0
Refused es r = (e : Error) × (r ≡ (err e, es))

module _ (fs : FileSystem) where
  pub writable-parts :
      (path operation : String) {ps : List String}
      → writable fs path operation ≡ ok ps
      → (fs.read_only ≡ false) × (parts fs path operation ≡ ok ps)
  unfolding writable
  writable-parts path operation h = elim (Bool-cases fs.read_only) [
    | inl shut ↦ absurd (ground arith)
    | inr free ↦ (free, ground arith)
  ]

  pub writable-free :
      (path operation : String) {ps : List String}
      → fs.read_only ≡ false
      → parts fs path operation ≡ ok ps
      → writable fs path operation ≡ ok ps
  unfolding writable
  writable-free path operation free h = rw (writable, free) h

  pub open_path-walk :
      {A : Type 0} (path operation : String) (flags : Flags) (block : Content → Result A × Content)
      (es : Entries) {p : String} {ps : List String}
      → writable fs path operation ≡ ok (p ∷ ps)
      → open_path fs path operation flags true block es
        ≡ walk fs operation true
            (use_file fs operation flags block (last_part p ps))
            (but_last p ps)
            es
  unfolding open_path
  open_path-walk path operation flags block es h = rw (open_path, h) refl

  open_path-no_parts :
      {A : Type 0} (path operation : String) (flags : Flags) (block : Content → Result A × Content)
      (es : Entries)
      → writable fs path operation ≡ ok []
      → Refused es (open_path fs path operation flags true block es)
  unfolding open_path
  open_path-no_parts path operation flags block es h =
      (file_fault fs.name not_file operation, rw (open_path, h) refl)

  pub wrapped-err :
      {A : Type 0} (operation : String) (e : Error) (es : Entries)
      → Refused es (wrapped fs {A = A} operation (err e, es))
  wrapped-err operation (os_error e) es = (_, refl)
  wrapped-err operation e es = (_, refl)

  -- an operation with a block on the file that it opens to write
  abbrev pub Writes :
      {A : Type 0}
      → String
      → String
      → Flags
      → (Content → Result A × Content)
      → Entries
      → Result A × Entries
      → Type 0
  Writes path operation flags block es r =
      Refused es r
      ⊎ ((p : String) × (ps : List String) × (writable fs path operation ≡ ok (p ∷ ps))
          × (r
              ≡ wrapped fs operation (
                  walk fs operation true (use_file fs operation flags block (last_part p ps))
                    (but_last p ps) es)))

  Writes-cases :
      {A : Type 0} (path operation : String) (flags : Flags) (block : Content → Result A × Content)
      (es : Entries) (ps : List String)
      → writable fs path operation ≡ ok ps
      → Writes path operation flags block es
          (wrapped fs operation (open_path fs path operation flags true block es))
  Writes-cases path operation flags block es [] h =
      let (e, refused) = open_path-no_parts path operation flags block es h in
      let (e', wrapped_up) = wrapped-err operation e es in
      inl (e', ap (wrapped fs operation) refused ∙ wrapped_up)
  Writes-cases path operation flags block es (p ∷ ps) h =
      inr (p, ps, h, ap (wrapped fs operation) (open_path-walk path operation flags block es h))

  pub write_text-cases :
      (path content : String) (es : Entries)
      → Refused es (write_text fs path content es)
        ⊎ ((len content ≤ fs.max_bytes)
            × Writes path "write_text" writes
                (λ c. (ok (count content), extended c content))
                es
                (write_text fs path content es))
  unfolding write_text
  write_text-cases path content es = elim (Result-cases (writable fs path "write_text")) [
    | inr (e, h) ↦ inl (e, rw (write_text, h) refl)
    | inl (ps, h) ↦ elim (Bool-cases (ltb fs.max_bytes (len content))) [
      | inl over ↦ inl (file_fault fs.name too_large "write_text", rw (write_text, h, over) refl)
      | inr under ↦
          let runs : write_text fs path content es
              ≡ wrapped fs "write_text" (
                  open_path fs path "write_text" writes true
                    (λ c. (ok (count content), extended c content)) es) =
            rw (write_text, h, under) refl in
          inr (
            ground arith,
            subst
                (Writes path "write_text" writes (λ c. (ok (count content), extended c content)) es)
                (sym runs)
                (Writes-cases path "write_text" writes
                  (λ c. (ok (count content), extended c content)) es ps h),
          )
    ]
  ]

  pub append_text-cases :
      (path content : String) (es : Entries)
      → Refused es (append_text fs path content es)
        ⊎ ((len content ≤ fs.max_bytes)
            × Writes path "append_text" appends
                (append_handle fs content)
                es
                (append_text fs path content es))
  unfolding append_text
  append_text-cases path content es = elim (Result-cases (writable fs path "append_text")) [
    | inr (e, h) ↦ inl (e, rw (append_text, h) refl)
    | inl (ps, h) ↦ elim (Bool-cases (ltb fs.max_bytes (len content))) [
      | inl over ↦ inl (file_fault fs.name too_large "append_text", rw (append_text, h, over) refl)
      | inr under ↦
          let runs : append_text fs path content es
              ≡ wrapped fs "append_text"
                  (open_path fs path "append_text" appends true (append_handle fs content) es) =
            rw (append_text, h, under) refl in
          inr (
            ground arith,
            subst (Writes path "append_text" appends (append_handle fs content) es) (sym runs)
                (Writes-cases path "append_text" appends (append_handle fs content) es ps h),
          )
    ]
  ]

  pub delete-cases :
      (path : String) (missing_ok : Bool) (es : Entries)
      → Refused es (delete fs path missing_ok es)
        ⊎ ((p : String) × (ps : List String) × (writable fs path "delete" ≡ ok (p ∷ ps))
            × (delete fs path missing_ok es
                ≡ unlinked fs missing_ok
                    (walk fs "delete" false (unlink (last_part p ps)) (but_last p ps) es)))
  unfolding delete
  delete-cases path missing_ok es = split (writable fs path "delete") refl
    where
      split :
          (o : Result (List String))
          → writable fs path "delete" ≡ o
          → Refused es (delete fs path missing_ok es)
            ⊎ ((p : String) × (ps : List String) × (writable fs path "delete" ≡ ok (p ∷ ps))
                × (delete fs path missing_ok es
                    ≡ unlinked fs missing_ok
                        (walk fs "delete" false (unlink (last_part p ps)) (but_last p ps) es)))
      split (err e) h = inl (e, rw (delete, h) refl)
      split (ok []) h = inl (file_fault fs.name not_file "delete", rw (delete, h) refl)
      split (ok (p ∷ ps)) h = inr (p, ps, h, rw (delete, h) refl)
