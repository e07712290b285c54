-- ===== src/Platforms/Registry.antt =====
-- titoos/platforms/base.py: `PlatformRegistry`. `modules` is what `import_module` and `getattr` find,
-- and `call` what a factory builds: none where that is no `PlatformAdapter`.
use tito_os.Prelude.{
  String, Bool, List, Option, none, some, not, ◌==◌, ◌&&◌, ◌||◌, if◌then◌else◌, ◌≡◌, refl, sym,
  arith, eq_refl,
}
use tito_os.Strings.{partition}
use tito_os.Errors.{
  Result, ok, err, Exec, proceed, empty_name, already_registered, platform_failed,
  missing_dependency, ok-path,
}
use tito_os.Dict
use tito_os.Dict.{Dict}
use tito_os.Dict.Laws.{get-set}

-- `AdapterFactory`: a callable, or the `module:attribute` that is imported for it
pub data Factory (F : Type 0) : Type 0 where
  callable : F → Factory F
  target : String → Factory F

abbrev pub Platforms : Type 0 → Type 0
Platforms F = Dict (Factory F)

-- a module's attributes, for the modules that can be imported
abbrev pub Modules : Type 0 → Type 0
Modules F = String → Option (String → Option F)

abbrev pub adapter_or : {A : Type 0} → String → Result (Option A) → Result A
adapter_or name (err e) = err e
adapter_or name (ok none) = err (platform_failed name "")
adapter_or name (ok (some a)) = ok a

module _ {F : Type 0} where
  -- `PlatformRegistry.register`
  unfoldable pub register_factory : String → Factory F → Bool → Platforms F → Result (Platforms F)
  register_factory name factory replace registry =
      if name == ""
      then err empty_name
      else if Dict.contains name registry && not replace
      then err (already_registered name)
      else ok (Dict.set name factory registry)

  -- `PlatformRegistry.unregister`
  unfoldable pub unregister_factory : String → Platforms F → Platforms F
  unregister_factory name registry = Dict.pop name registry

  abbrev pub attribute_of : String → String → Option (String → Option F) → Result F
  attribute_of name attribute none = err (missing_dependency name)
  attribute_of name attribute (some attributes) = elim (attributes attribute) [
    | none ↦ err (platform_failed name "")
    | some f ↦ ok f
  ]

  -- `PlatformRegistry._import`
  unfoldable pub import_factory : Modules F → String → String → Result F
  unfolding partition
  import_factory modules name location =
      let (module_name, attribute) = partition ":" location in
      if module_name == "" || attribute == ""
      then err (platform_failed name "")
      else attribute_of name attribute (modules module_name)

  abbrev pub imported : String → Platforms F → Result F → Result F × Platforms F
  imported name registry (err e) = (err e, registry)
  imported name registry (ok f) = (ok f, Dict.set name (callable f) registry)

  abbrev pub resolved :
      Modules F → String → Platforms F → Option (Factory F) → Result F × Platforms F
  resolved modules name registry none = (err (platform_failed name ""), registry)
  resolved modules name registry (some (callable f)) = (ok f, registry)
  resolved modules name registry (some (target location)) =
      imported name registry (import_factory modules name location)

  -- `PlatformRegistry.get`: a factory that was imported is kept.
  unfoldable pub get_factory : Modules F → String → Exec (Platforms F) F
  unfolding import_factory
  get_factory modules name registry = resolved modules name registry (Dict.get name registry)

  -- `PlatformRegistry.create`
  unfoldable pub create_adapter :
      {A : Type 0} → (F → Result (Option A)) → Modules F → String → Exec (Platforms F) A
  unfolding get_factory
  create_adapter call modules name registry =
      proceed (get_factory modules name registry)
        λ f registry'. (adapter_or name (call f), registry')

  -- `PlatformRegistry.names` sorts what this lists.
  unfoldable pub factory_names : Platforms F → List String
  factory_names = Dict.keys

  kept :
      (modules' : Modules F) (name : String) (r : Platforms F) (f : F)
      → Dict.get name r ≡ some (callable f)
      → get_factory modules' name r ≡ (ok f, r)
  unfolding get_factory
  kept modules' name r f e = rw (e, get_factory)

  imported-found :
      (name : String) (r r' : Platforms F) (f : F) (i : Result F)
      → imported name r i ≡ (ok f, r')
      → Dict.get name r' ≡ some (callable f)
  imported-found name r r' f (err e) h = absurd (ground arith)
  imported-found name r r' f (ok g) h =
      let (same, written) = ok-path h in rw (sym written, get-set name name, eq_refl name, same)

  resolved-found :
      (modules : Modules F) (name : String) (r r' : Platforms F) (f : F) (o : Option (Factory F))
      → Dict.get name r ≡ o
      → resolved modules name r o ≡ (ok f, r')
      → Dict.get name r' ≡ some (callable f)
  resolved-found modules name r r' f none e h = absurd (ground arith)
  resolved-found modules name r r' f (some (callable g)) e h =
      let (same, written) = ok-path h in rw (sym written, e, same)
  resolved-found modules name r r' f (some (target location)) e h =
      imported-found name r r' f (import_factory modules name location) h

  -- What `get` returned is found again without an import: whatever can be imported later, the next
  -- `get` of that name returns the same factory and changes nothing.
  pub get_factory_again :
      (modules modules' : Modules F) (name : String) (r r' : Platforms F) (f : F)
      → get_factory modules name r ≡ (ok f, r')
      → get_factory modules' name r' ≡ (ok f, r')
  get_factory_again modules modules' name r r' f h =
      kept modules' name r' f
        (unfold get_factory in resolved-found modules name r r' f (Dict.get name r) refl h)
