-- ===== src/Integrations/Files/Contents.antt =====
-- What a change of one entry, made through the walk of titoos/integrations/files.py, does to the
-- files of the whole tree.
use tito_os.Prelude.{
  String, Bool, true, false, List, [], ◌∷◌, Option, none, some, ◌==◌, if◌then◌else◌, ◌&&◌, ◌≡◌,
  refl, ap, sym, arith, eq_iff, eq_refl, inl, inr, Bool-cases, Option-cases, subst,
}
use tito_os.Errors.{Result, ok, err, Error, Exec, Result-cases}
use tito_os.Integrations.Folders.{
  Entries, end, Node, Content, directory, file, as_directory, lookup, put, mkdir,
}
use tito_os.Integrations.Folders.Laws.{lookup-put}
use tito_os.Integrations.Files.{
  FileSystem, walk, ready, but_last, last_part, within, describe_oserror,
}
use tito_os.Integrations.Files.Walking.{node_at, directory-some, walk-entered, walk-refused}

abbrev pub filed : Option Node → Option Content
filed (some (file c)) = some c
filed _ = none

-- The files of a tree: the content at each path, as far as there is a file.
unfoldable pub contents : Entries → List String → Option Content
unfolding node_at
contents es [] = none
contents es (p ∷ ps) = filed (node_at p ps es)

unfoldable pub same_path : List String → List String → Bool
same_path [] [] = true
same_path (p ∷ ps) (q ∷ qs) = p == q && same_path ps qs
same_path _ _ = false

pub node_at-lookup :
    (q : String) (qs : List String) (es es' : Entries)
    → lookup q es ≡ lookup q es'
    → node_at q qs es ≡ node_at q qs es'
unfolding node_at
node_at-lookup q [] es es' h = h
node_at-lookup q (r ∷ rs) es es' h = rw (node_at, h) refl

pub node_at-put :
    (p r : String) (rs : List String) (ds es : Entries)
    → node_at p (r ∷ rs) (put p (directory ds) es) ≡ node_at r rs ds
unfolding node_at
node_at-put p r rs ds es = rw (node_at, lookup-put p p (directory ds) es, eq_refl p) refl

-- an empty directory holds no file
filed-missing :
    (q : String) (qs : List String) (es : Entries)
    → lookup q es ≡ none
    → filed (node_at q qs (put q (directory end) es)) ≡ filed (node_at q qs es)
unfolding node_at lookup
filed-missing q [] es h = rw (node_at, lookup-put q q (directory end) es, eq_refl q, h) refl
filed-missing q (r ∷ []) es h = rw (node_at, lookup-put q q (directory end) es, eq_refl q, h) refl
filed-missing q (r ∷ s ∷ ss) es h =
    rw (node_at, lookup-put q q (directory end) es, eq_refl q, h) refl

filed-put_other :
    (p q : String) (qs : List String) (n : Node) (es : Entries)
    → (p == q) ≡ false
    → filed (node_at q qs (put p n es)) ≡ filed (node_at q qs es)
filed-put_other p q qs n es other =
    ap filed (node_at-lookup q qs (put p n es) es (ground (arith, lookup-put p q n es)))

filed-made :
    (part q : String) (qs : List String) (es : Entries)
    → lookup part es ≡ none
    → filed (node_at q qs (put part (directory end) es)) ≡ filed (node_at q qs es)
filed-made part q qs es h = elim (Bool-cases (part == q)) [
  | inl same ↦
      subst (λ x. filed (node_at x qs (put part (directory end) es)) ≡ filed (node_at x qs es))
        ((eq_iff part q).0 same) (filed-missing part qs es h)
  | inr other ↦ filed-put_other part q qs (directory end) es other
]

-- making a directory that is missing leaves the files as they are
filed-ready :
    (create : Bool) (part : String) (es : Entries)
    → (here : Entries) × (ready create part es ≡ ok here)
      × ((q : String) (qs : List String) → filed (node_at q qs here) ≡ filed (node_at q qs es))
unfolding ready mkdir
filed-ready false part es = (es, refl, λ q qs. refl)
filed-ready true part es = elim (Option-cases (lookup part es)) [
  | inr (n, e) ↦ (es, rw (mkdir, e) refl, λ q qs. refl)
  | inl e ↦ (put part (directory end) es, rw (mkdir, e) refl, λ q qs. filed-made part q qs es e)
]

-- A block that changes the entry `name` of a directory at most, and its content as `change` says.
pub record IsLeaf {A : Type 0} (change : Result A → Option Content → Option Content) (name : String)
    (body : Exec Entries A) : Type 0 where
  pub others :
      (es : Entries) (m : String) → (name == m) ≡ false → lookup m (body es).1 ≡ lookup m es
  pub below :
      (es : Entries) (q : String) (qs : List String)
      → node_at name (q ∷ qs) (body es).1 ≡ node_at name (q ∷ qs) es
  pub own :
      (es : Entries) → filed (lookup name (body es).1) ≡ change (body es).0 (filed (lookup name es))
  pub on_error : (e : Error) (c : Option Content) → change (err e) c ≡ c

module _ (fs : FileSystem) {A : Type 0} (change : Result A → Option Content → Option Content)
    (operation : String) (create : Bool) (body : Exec Entries A) where
  -- what the walk does with the file at a path
  abbrev pub Changes : List String → List String → Entries → Result A × Entries → Type 0
  Changes ps qs es r =
      contents r.1 qs ≡ (if same_path ps qs then change r.0 (contents es qs) else contents es qs)

  -- the part is no directory: nothing but missing directories has been made
  failed-Changes :
      (p : String) (ps : List String) (here es : Entries) (e : Error)
      → ((e : Error) (c : Option Content) → change (err e) c ≡ c)
      → ((q : String) (qs : List String) → filed (node_at q qs here) ≡ filed (node_at q qs es))
      → (q : String) (qs : List String) → Changes (p ∷ ps) (q ∷ qs) es (err e, here)
  unfolding contents
  failed-Changes p ps here es e on_error kept q qs =
      ground (arith, kept q qs, on_error e (filed (node_at q qs es)))

  -- the block has run below the part
  below-Changes :
      (p r : String) (rs : List String) (here es ds : Entries) (done : Result A × Entries)
      → lookup p here ≡ some (directory ds)
      → ((q : String) (qs : List String) → filed (node_at q qs here) ≡ filed (node_at q qs es))
      → ((q : String) (qs : List String) → Changes (r ∷ rs) (q ∷ qs) ds done)
      → (qs : List String) → Changes (p ∷ r ∷ rs) (p ∷ qs) es (within p here done)
  unfolding contents node_at same_path
  below-Changes p r rs here es ds (res, sub) at kept ih [] =
      ground (arith, lookup-put p p (directory sub) here, eq_refl p, kept p [])
  below-Changes p r rs here es ds (res, sub) at kept ih (q ∷ qs) =
      ground (arith, node_at-put p q qs sub here, eq_refl p, kept p (q ∷ qs), ih q qs)

  within-Changes :
      (p r : String) (rs : List String) (here es ds : Entries) (done : Result A × Entries)
      → lookup p here ≡ some (directory ds)
      → ((q : String) (qs : List String) → filed (node_at q qs here) ≡ filed (node_at q qs es))
      → ((q : String) (qs : List String) → Changes (r ∷ rs) (q ∷ qs) ds done)
      → (q : String) (qs : List String) → Changes (p ∷ r ∷ rs) (q ∷ qs) es (within p here done)
  unfolding contents same_path
  within-Changes p r rs here es ds (res, sub) at kept ih q qs = elim (Bool-cases (p == q)) [
    | inr other ↦ ground (arith, filed-put_other p q qs (directory sub) here other, kept q qs)
    | inl same ↦
        subst (λ x. Changes (p ∷ r ∷ rs) (x ∷ qs) es (within p here (res, sub)))
          ((eq_iff p q).0 same) (below-Changes p r rs here es ds (res, sub) at kept ih qs)
  ]

  -- the block runs on the directory that the walk starts from
  leaf-Changes :
      (p : String)
      → IsLeaf change p body
      → (es : Entries) (q : String) (qs : List String) → Changes (p ∷ []) (q ∷ qs) es (body es)
  unfolding contents same_path node_at
  leaf-Changes p leaf es q qs = elim (Bool-cases (p == q)) [
    | inr other ↦
        ground (arith, ap filed (node_at-lookup q qs (body es).1 es (leaf.others es q other)))
    | inl same ↦
        subst (λ x. Changes (p ∷ []) (x ∷ qs) es (body es)) ((eq_iff p q).0 same) (at_name qs)
  ]
    where
      at_name : (qs : List String) → Changes (p ∷ []) (p ∷ qs) es (body es)
      at_name [] = ground (arith, leaf.own es, eq_refl p)
      at_name (r ∷ rs) = ground (arith, leaf.below es r rs, eq_refl p)

  walk-file :
      (p : String) (ps : List String)
      → IsLeaf change (last_part p ps) body
      → (es : Entries) (q : String) (qs : List String)
      → Changes (p ∷ ps) (q ∷ qs) es (walk fs operation create body (but_last p ps) es)
  unfolding but_last last_part
  walk-file p [] leaf es q qs = (unfold walk in leaf-Changes p leaf es q qs)
  walk-file p (r ∷ rs) leaf es q qs =
      let (here, made, kept) = filed-ready create p es in
      elim (Result-cases (as_directory (lookup p here))) [
        | inr (e, stops) ↦
            subst (Changes (p ∷ r ∷ rs) (q ∷ qs) es)
              (sym (walk-refused fs operation create body p (but_last r rs) es made stops))
              (failed-Changes p (r ∷ rs) here es (describe_oserror fs e operation (some (p, here)))
                leaf.on_error kept q qs)
        | inl (ds, goes) ↦
            subst (Changes (p ∷ r ∷ rs) (q ∷ qs) es)
              (sym (walk-entered fs operation create body p (but_last r rs) es made goes))
              (within-Changes p r rs here es ds (walk fs operation create body (but_last r rs) ds)
                (directory-some (lookup p here) goes) kept (walk-file r rs leaf ds) q qs)
      ]

  -- The walk to a path and a block that changes its entry: the path's file is changed, no other is.
  pub walk-Changes :
      (p : String) (ps : List String)
      → IsLeaf change (last_part p ps) body
      → (es : Entries) (qs : List String)
      → Changes (p ∷ ps) qs es (walk fs operation create body (but_last p ps) es)
  unfolding contents same_path
  walk-Changes p ps leaf es [] = refl
  walk-Changes p ps leaf es (q ∷ qs) = walk-file p ps leaf es q qs
