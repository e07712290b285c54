-- ===== src/Integrations.antt =====
-- titoos/integrations/base.py: the drivers that agents call, and the registry that holds them. What
-- a driver does is not this code's: a device has a state, and `perform` and `close` stand for the
-- methods of its class.
pub mod Closing
pub mod Allowlist
pub mod Http
pub mod Clock
pub mod Proxy
pub mod Shell
pub mod Folders
pub mod Paths
pub mod Files
mod Tests
use tito_os.Prelude.{
  String, Bool, true, false, List, [], ◌∷◌, map, Option, none, some, not, ◌==◌, if◌then◌else◌, elem,
}
use tito_os.Errors.{
  Result, ok, err, Error, empty_name, already_installed, not_installed, unknown_operation, ◌>>=◌,
}
use tito_os.Dict
use tito_os.Dict.{Dict}
use tito_os.Message.{Value}

-- An `Integration` object: what its class declares, and the state of its device.
pub record Integration (D : Type 0) : Type 0 where
  pub name : String
  pub operations : List String
  pub device : D

abbrev pub Registry : Type 0 → Type 0
Registry D = Dict (Integration D)

-- `errors[0]`, if there is one
abbrev pub first_raised : List Error → Option Error
first_raised [] = none
first_raised (e ∷ _) = some e

module _ {D : Type 0} where
  -- `Integration.__init__`, with the class's own name and operations
  unfoldable pub make_integration :
      String → List String → Option String → D → Result (Integration D)
  make_integration class_name operations name device =
      let chosen : String = elim name [ none ↦ class_name | some n ↦ n ] in
      if chosen == ""
      then err empty_name
      else ok (record { name = chosen; operations = operations; device = device })

  -- `Integration.call`. `perform` is the method that `getattr` finds.
  unfoldable pub call :
      (D → String → Value → Result Value × D)
      → Integration D
      → String
      → Value
      → Result Value × Integration D
  call perform i operation arguments =
      if not (elem operation i.operations)
      then (err (unknown_operation i.name operation), i)
      else (let (reply, device) = perform i.device operation arguments in
          (reply, record i { device = device }))

  -- `IntegrationRegistry.install`
  unfoldable pub install : Integration D → Registry D → Result (Registry D)
  install i registry =
      if Dict.contains i.name registry
      then err (already_installed i.name)
      else ok (Dict.set i.name i registry)

  -- `IntegrationRegistry.get`
  unfoldable pub get : String → Registry D → Result (Integration D)
  get name registry = elim (Dict.get name registry) [
    | none ↦ err (not_installed name)
    | some i ↦ ok i
  ]

  abbrev called : String → Registry D → Result Value × Integration D → Result Value × Registry D
  called name registry (reply, i) = (reply, Dict.set name i registry)

  -- `IntegrationRegistry.call`; the device's new state is written back to the registry.
  unfoldable pub call_named :
      (D → String → Value → Result Value × D)
      → String
      → String
      → Value
      → Registry D
      → Result Value × Registry D
  unfolding get
  call_named perform name operation arguments registry = elim (get name registry) [
    | err e ↦ (err e, registry)
    | ok i ↦ called name registry (call perform i operation arguments)
  ]

  -- `IntegrationRegistry.uninstall`: the integration leaves the registry first and is closed then,
  -- so a `close` that raises leaves it out too.
  unfoldable pub uninstall :
      (D → Option Error × D) → String → Registry D → Option Error × Registry D
  uninstall close name registry = elim (Dict.get name registry) [
    | none ↦ (none, registry)
    | some i ↦ ((close i.device).0, Dict.pop name registry)
  ]

  unfoldable pub names : Registry D → List String
  names = Dict.keys

  -- The loop of `close` over all integrations: the errors in order, the names of those whose `close`
  -- was called, and the devices that it left.
  unfoldable pub close_each :
      (D → Option Error × D) → Registry D → List Error × List String × Registry D
  close_each close [] = ([], [], [])
  close_each close ((name, i) ∷ rest) =
      let (e, device) = close i.device in
      let (errors, names, closed) = close_each close rest in
      (
        elim e [ none ↦ errors | some x ↦ x ∷ errors ],
        name ∷ names,
        (name, record i { device = device }) ∷ closed,
      )

  -- `IntegrationRegistry.close`: the first error is raised, after every integration has been closed.
  unfoldable pub close_all :
      (D → Option Error × D) → Registry D → Option Error × List String × Registry D
  unfolding close_each
  close_all close registry =
      let (errors, names, closed) = close_each close registry in
      (first_raised errors, names, closed)
