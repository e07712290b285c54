-- ===== src/Integrations/Files/Links.antt =====
-- The operations of titoos/integrations/files.py on a path that meets a symbolic link.
use Prim.Native.String.{len, count}
use tito_os.Prelude.{
  String, Bool, true, false, List, ◌∷◌, some, ◌≡◌, refl, ap, ◌∙◌, arith, if◌then◌else◌, ltb,
}
use tito_os.Errors.{Result, ok, err, file_fault, escapes}
use tito_os.Integrations.Folders.{
  Entries, Content, symlink, lookup, opened, listdir, lstat, unlink, extended, Flags,
}
use tito_os.Integrations.Files.{
  FileSystem, parts, writable, use_file, but_last, last_part, open_path, describe_oserror,
}
use tito_os.Integrations.Files.Operations.{
  reads, writes, appends, read_handle, append_handle, Operation, reading, writing, appending,
  listing, testing, deleting, perform, read_text, write_text, append_text, list_dir, exists, delete,
  listed, wrapped, replied, read, wrote, names, answer, stated, unlinked,
}
use tito_os.Integrations.Files.Cases.{writable-free}
use tito_os.Integrations.Files.Leaves.{use_file-refused}
use tito_os.Integrations.Files.Sandbox.{
  crossing, walk-crossing, walk-ending, name_of, path_of, walked, admitted,
}

module _ (fs : FileSystem) (es : Entries) (p : String) (ps : List String) where
  abbrev escaped : {A : Type 0} → String → Result A × Entries
  escaped operation = (err (file_fault fs.name escapes operation), es)

  -- the file of a path that meets a link is not opened
  open_path-crossing :
      {A : Type 0} (path operation : String) (flags : Flags) (create : Bool)
      (block : Content → Result A × Content)
      → (if create then writable fs path operation else parts fs path operation) ≡ ok (p ∷ ps)
      → crossing (p ∷ ps) es ≡ true
      → open_path fs path operation flags create block es ≡ escaped operation
  unfolding open_path describe_oserror
  open_path-crossing {A = A} path operation flags create block h link =
      let (r, same, ends) =
        walk-ending fs operation create (use_file fs operation flags block (last_part p ps))
          (λ r. r ≡ err (file_fault fs.name escapes operation)) p ps linked refl es link in
      rw (open_path, h) (ends ∙ ap (λ x. (x, es)) same)
    where
      linked :
          (here : Entries) (target : String)
          → lookup (last_part p ps) here ≡ some (symlink target)
          → (r : Result A) × (r ≡ err (file_fault fs.name escapes operation))
            × (use_file fs operation flags block (last_part p ps) here ≡ (r, here))
      linked here target at = (
        err (file_fault fs.name escapes operation),
        refl,
        use_file-refused fs operation flags block (last_part p ps) here (ap (opened flags) at),
      )

  -- An operation on a path that meets a symbolic link raises the sandbox error and leaves the tree as
  -- it was, wherever the link points. Three conditions are in the hypotheses: `admitted`, the operation
  -- does not write to a driver that is read-only, nor a text of more than `max_bytes`; the path is one
  -- that `parts` accepts; and for a delete, which removes a link that is the last part of the path, a
  -- part before the last one is a link (`walked`).
  pub perform-crossing :
      (o : Operation)
      → admitted fs o ≡ true
      → parts fs (path_of o) (name_of o) ≡ ok (p ∷ ps)
      → crossing (walked o p ps) es ≡ true
      → perform fs o es ≡ escaped (name_of o)
  unfolding perform read_text write_text append_text list_dir exists delete listed lstat walked
  perform-crossing (reading path) free h link =
      ap (λ r. replied read (wrapped fs "read_text" r))
        (open_path-crossing path "read_text" reads false (read_handle fs) h link)
  perform-crossing (writing path content) free h link =
      let w = writable-free fs path "write_text" (ground arith) h in
      let fits : ltb fs.max_bytes (len content) ≡ false = ground arith in
      rw (write_text, w, fits)
        (ap (λ r. replied wrote (wrapped fs "write_text" r))
          (open_path-crossing path "write_text" writes true
            (λ c. (ok (count content), extended c content)) w link))
  perform-crossing (appending path content) free h link =
      let w = writable-free fs path "append_text" (ground arith) h in
      let fits : ltb fs.max_bytes (len content) ≡ false = ground arith in
      rw (append_text, w, fits)
        (ap (λ r. replied wrote (wrapped fs "append_text" r))
          (open_path-crossing path "append_text" appends true (append_handle fs content) w link))
  perform-crossing (listing path) free h link =
      rw (list_dir, h)
        (ap (λ r. replied names (listed fs (p ∷ ps) (wrapped fs "list_dir" r)))
          (walk-crossing fs "list_dir" false (λ here. (ok (listdir here), here)) (p ∷ ps) es link))
  perform-crossing (testing path) free h link =
      let (r, same, ends) =
        walk-ending fs "exists" false (λ here. (lstat (last_part p ps) here, here))
          (λ r. stated fs (r, es) ≡ escaped "exists") p ps
          (λ here target at. (ok (symlink target), refl, rw (lstat, at) refl)) refl es link in
      rw (exists, h) (ap (λ r. replied answer (stated fs r)) ends ∙ ap (replied answer) same)
  perform-crossing (deleting path missing_ok) free h link =
      let w = writable-free fs path "delete" (ground arith) h in
      rw (delete, w)
        (ap (λ r. replied answer (unlinked fs missing_ok r))
          (walk-crossing fs "delete" false (unlink (last_part p ps)) (but_last p ps) es link))
