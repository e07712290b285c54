-- ===== src/Integrations/Files/Reading.antt =====
-- The operations of titoos/integrations/files.py that only look: what they leave, and what
-- `read_text` answers for a file that is there.
use tito_os.Prelude.{
  String, Bool, true, false, List, [], ◌∷◌, Option, none, some, ◌≡◌, refl, ap, ◌∙◌, inl, inr,
}
use tito_os.Errors.{Result, ok, err, os_error, Result-cases, no_entry, not_directory}
use tito_os.Integrations.Folders.{
  Entries, Node, Content, file, directory, symlink, lookup, put, opened, listdir, lstat,
}
use tito_os.Integrations.Folders.Laws.{put_same}
use tito_os.Integrations.Files.{FileSystem, parts, walk, use_file, but_last, last_part, open_path}
use tito_os.Integrations.Files.Operations.{
  reads, read_handle, read_text, list_dir, exists, listed, stated, wrapped, Reply, Operation,
  reading, writing, appending, listing, testing, deleting, perform, replied, read, names, answer,
}
use tito_os.Integrations.Files.Walking.{walk_unchanged}
use tito_os.Integrations.Files.Leaves.{use_file-opened, use_file-refused}

opened-reads : (o : Option Node) {c : Content} → opened reads o ≡ ok c → o ≡ some (file c)
opened-reads none h = absurd cc
opened-reads (some (file d)) h = cc
opened-reads (some (directory ds)) h = absurd cc
opened-reads (some (symlink t)) h = absurd cc

module _ (fs : FileSystem) where
  -- a file that is opened and read
  use_file_unchanged :
      (name : String) (here : Entries)
      → (use_file fs "read_text" reads (read_handle fs) name here).1 ≡ here
  unfolding read_handle
  use_file_unchanged name here = elim (Result-cases (opened reads (lookup name here))) [
    | inr (e, h) ↦
        ap (λ r. r.1) (use_file-refused fs "read_text" reads (read_handle fs) name here h)
    | inl (c, h) ↦
        let there = opened-reads (lookup name here) h in
        let kept = put_same name (file c) here there in
        ap (λ r. r.1) (use_file-opened fs "read_text" reads (read_handle fs) name here h)
        ∙ ap (put name (file c)) kept
        ∙ kept
  ]

  pub read_text_unchanged : (path : String) (es : Entries) → (read_text fs path es).1 ≡ es
  unfolding read_text open_path
  read_text_unchanged path es = split (parts fs path "read_text") refl
    where
      split :
          (o : Result (List String)) → parts fs path "read_text" ≡ o → (read_text fs path es).1 ≡ es
      split (err e) h = rw (read_text, open_path, h) refl
      split (ok []) h = rw (read_text, open_path, h) refl
      split (ok (p ∷ ps)) h =
          rw (read_text, open_path, h)
            (walk_unchanged fs "read_text"
              (use_file fs "read_text" reads (read_handle fs) (last_part p ps))
              (use_file_unchanged (last_part p ps)) (but_last p ps) es)

  listed_unchanged :
      (prefix : List String) (r : Result (List String) × Entries) → (listed fs prefix r).1 ≡ r.1
  unfolding listed
  listed_unchanged prefix (ok found, es) = refl
  listed_unchanged prefix (err e, es) = refl

  pub list_dir_unchanged : (path : String) (es : Entries) → (list_dir fs path es).1 ≡ es
  unfolding list_dir
  list_dir_unchanged path es = elim (Result-cases (parts fs path "list_dir")) [
    | inr (e, h) ↦ rw (list_dir, h) refl
    | inl (ps, h) ↦
        rw (list_dir, h)
          (listed_unchanged ps (
              wrapped fs "list_dir"
                (walk fs "list_dir" false (λ here. (ok (listdir here), here)) ps es))
            ∙ walk_unchanged fs "list_dir" (λ here. (ok (listdir here), here)) (λ here. refl) ps es)
  ]

  stated_unchanged : (r : Result Node × Entries) → (stated fs r).1 ≡ r.1
  stated_unchanged (ok n, es) = refl
  stated_unchanged (err (os_error no_entry), es) = refl
  stated_unchanged (err (os_error not_directory), es) = refl
  stated_unchanged (err (os_error e), es) = refl
  stated_unchanged (err e, es) = refl

  pub exists_unchanged : (path : String) (es : Entries) → (exists fs path es).1 ≡ es
  unfolding exists
  exists_unchanged path es = split (parts fs path "exists") refl
    where
      split : (o : Result (List String)) → parts fs path "exists" ≡ o → (exists fs path es).1 ≡ es
      split (err e) h = rw (exists, h) refl
      split (ok []) h = rw (exists, h) refl
      split (ok (p ∷ ps)) h =
          rw (exists, h)
            (stated_unchanged (
                walk fs "exists" false (λ here. (lstat (last_part p ps) here, here)) (but_last p ps)
                  es)
              ∙ walk_unchanged fs "exists" (λ here. (lstat (last_part p ps) here, here))
                  (λ here. refl) (but_last p ps) es)

pub left_by : {A : Type 0} (f : A → Reply) (r : Result A × Entries) → (replied f r).1 ≡ r.1
left_by f (ok a, left) = refl
left_by f (err e, left) = refl

-- whether an operation is one that writes
abbrev pub changing : Operation → Bool
changing (reading path) = false
changing (listing path) = false
changing (testing path) = false
changing o = true

pub perform_unchanged :
    (fs : FileSystem) (o : Operation) (es : Entries) → changing o ≡ false → (perform fs o es).1 ≡ es
unfolding perform
perform_unchanged fs (reading path) es h =
    left_by read (read_text fs path es) ∙ read_text_unchanged fs path es
perform_unchanged fs (listing path) es h =
    left_by names (list_dir fs path es) ∙ list_dir_unchanged fs path es
perform_unchanged fs (testing path) es h =
    left_by answer (exists fs path es) ∙ exists_unchanged fs path es
perform_unchanged fs (writing path content) es h = absurd cc
perform_unchanged fs (appending path content) es h = absurd cc
perform_unchanged fs (deleting path missing_ok) es h = absurd cc
