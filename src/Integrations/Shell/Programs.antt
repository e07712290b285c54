-- ===== src/Integrations/Shell/Programs.antt =====
-- Which programs a shell integration can start.
use tito_os.Prelude.{
  Bool, String, true, List, [], ◌∷◌, map, Option, none, some, ◌==◌, ◌≡◌, refl, sym, ap, ◌∙◌, elem,
  arith, inl, inr, eq_refl, ◌||◌,
}
use tito_os.Strings.{lower, strip}
use tito_os.Errors.{Result, ok, err}
use tito_os.Dict
use tito_os.Dict.{Dict}
use tito_os.Dict.Laws.{get-set_inv}
use tito_os.Integrations.Allowlist.{normalize_allowlist}
use tito_os.Integrations.Shell.{
  insert, sorted, is_bare, resolve_names, resolve_allowlist, Settings, Shell, make_shell, Command,
  line, words, resolve,
}

elem-insert : (n x : String) (xs : List String) → elem n (insert x xs) ≡ (x == n || elem n xs)
unfolding insert
elem-insert n x [] = refl
elem-insert n x (y ∷ ys) = ground (arith, elem-insert n x ys)

elem-sorted : (n : String) (xs : List String) → elem n (sorted xs) ≡ elem n xs
unfolding sorted
elem-sorted n [] = refl
elem-sorted n (x ∷ xs) = elem-insert n x (sorted xs) ∙ ap (λ b. x == n || b) (elem-sorted n xs)

-- `path` is what was found for a name of the allowlist that reads `key` in small letters.
pub record IsListed (which : String → Option String) (names : List String) (key path : String)
    : Type 0 where
  pub name : String
  pub listed : elem name names ≡ true
  pub reads : lower name ≡ key
  pub found : which name ≡ some path
  pub bare : is_bare name ≡ true

abbrev AllListed : (String → Option String) → List String → Dict String → Type 0
AllListed which names table =
    (key path : String) → Dict.get key table ≡ some path → IsListed which names key path

module _ (which : String → Option String) (names : List String) where
  -- the loop went past `name`
  resolve_names-cons :
      (name : String) (todo : List String) (table result : Dict String)
      → resolve_names which (name ∷ todo) table ≡ ok result
      → (path : String) × (which name ≡ some path)
        × (is_bare name ≡ true)
        × (resolve_names which todo (Dict.set (lower name) path table) ≡ ok result)
  resolve_names-cons name todo table result e = by_path (which name) refl
    where
      by_path :
          (o : Option String)
          → which name ≡ o
          → (path : String) × (which name ≡ some path)
            × (is_bare name ≡ true)
            × (resolve_names which todo (Dict.set (lower name) path table) ≡ ok result)
      by_path none missing = absurd (unfold resolve_names in ground arith)
      by_path (some path) found =
          (path, found, unfold resolve_names in ground arith, unfold resolve_names in ground arith)

  listed_more :
      (name path : String) (table : Dict String)
      → elem name names ≡ true
      → which name ≡ some path
      → is_bare name ≡ true
      → AllListed which names table
      → AllListed which names (Dict.set (lower name) path table)
  listed_more name path table inside found bare listed key path' e =
      elim (get-set_inv (lower name) key path table e) [
        | inl (same_key, same_path) ↦ record {
          name = name;
          listed = inside;
          reads = same_key;
          found = found ∙ ap some (sym same_path);
          bare = bare;
        }
        | inr (_, old) ↦ listed key path' old
      ]

  resolve_names-AllListed :
      (todo : List String) (table result : Dict String)
      → ((n : String) → elem n todo ≡ true → elem n names ≡ true)
      → AllListed which names table
      → resolve_names which todo table ≡ ok result
      → AllListed which names result
  resolve_names-AllListed [] table result inside listed e =
      rw (sym (same (unfold resolve_names in e))) listed
    where
      same : ◌≡◌ {A = Result (Dict String)} (ok table) (ok result) → table ≡ result
      same e = cc
  resolve_names-AllListed (name ∷ todo) table result inside listed e =
      let (path, found, bare, rest) = resolve_names-cons name todo table result e in
      resolve_names-AllListed todo (Dict.set (lower name) path table) result
        (λ n h. inside n (ground arith))
        (listed_more name path table (inside name (ground (arith, eq_refl name))) found bare listed)
        rest

resolve_allowlist-AllListed :
    (which : String → Option String) (names : List String) (table : Dict String)
    → resolve_allowlist which names ≡ ok table
    → AllListed which (map strip names) table
resolve_allowlist-AllListed which names table e =
    resolve_names-AllListed which (map strip names) (sorted (map strip names)) [] table
      (λ n h. sym (elem-sorted n (map strip names)) ∙ h)
      (λ key path found. absurd (unfold Dict.get in ground arith)) (unfold resolve_allowlist in e)

-- the table of a shell is that of its allowlist
executables_of :
    (which : String → Option String) (is_dir : String → Bool) (commands : List String)
    → (given : Settings) (s : Shell) → make_shell which is_dir commands given ≡ ok s
    → resolve_allowlist which (map strip commands) ≡ ok s.executables
executables_of which is_dir commands given s e =
    by_list (normalize_allowlist (map strip commands) "allowed_commands") refl
      (resolve_allowlist which (map strip commands)) refl
  where
    by_list :
        (l : Result (List String))
        → normalize_allowlist (map strip commands) "allowed_commands" ≡ l
        → (t : Result (Dict String)) → resolve_allowlist which (map strip commands) ≡ t
        → resolve_allowlist which (map strip commands) ≡ ok s.executables
    by_list (err x) a t b = absurd (unfold make_shell in ground arith)
    by_list (ok allowed) a (err x) b = absurd (unfold make_shell in ground arith)
    by_list (ok allowed) a (ok table) b = unfold make_shell in ground arith

-- What a command starts: the program that `which` found for a name of the allowlist, which the
-- command's first word spells, in any case of its letters and without a path; the arguments are the
-- other words as they are. A string, and a command without words, start nothing.
pub resolve-IsListed :
    (which : String → Option String) (is_dir : String → Bool) (commands : List String)
    → (given : Settings) (s : Shell) (command : Command) (argv : List String)
    → make_shell which is_dir commands given ≡ ok s
    → resolve s command ≡ ok argv
    → (program : String) × (arguments : List String) × (executable : String) × (command
        ≡ words (program ∷ arguments))
      × (argv ≡ executable ∷ arguments)
      × (is_bare program ≡ true)
      × IsListed which (map strip (map strip commands)) (lower program) executable
resolve-IsListed which is_dir commands given s (line l) argv made e =
    absurd (unfold resolve in ground arith)
resolve-IsListed which is_dir commands given s (words []) argv made e =
    absurd (unfold resolve in ground arith)
resolve-IsListed which is_dir commands given s (words (program ∷ arguments)) argv made e =
    by_entry (Dict.get (lower program) s.executables) refl
  where
    by_entry :
        (o : Option String)
        → Dict.get (lower program) s.executables ≡ o
        → (program' : String) × (arguments' : List String) × (executable : String) × (words
              (program ∷ arguments)
            ≡ words (program' ∷ arguments'))
          × (argv ≡ executable ∷ arguments')
          × (is_bare program' ≡ true)
          × IsListed which (map strip (map strip commands)) (lower program') executable
    by_entry none missing = absurd (unfold resolve in ground arith)
    by_entry (some executable) found = (
      program,
      arguments,
      executable,
      refl,
      unfold resolve in ground arith,
      unfold resolve in ground arith,
      resolve_allowlist-AllListed which (map strip commands) s.executables
          (executables_of which is_dir commands given s made) (lower program) executable found,
    )
