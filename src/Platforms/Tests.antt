-- ===== src/Platforms/Tests.antt =====
-- The registry of platforms on small inputs.
use tito_os.Prelude.{ℕ, [], ◌∷◌, none, some, ◌≡◌, refl, ◌==◌, if◌then◌else◌}
use tito_os.Strings.{partition}
use tito_os.Errors.{ok, err, missing_dependency}
use tito_os.Dict
use tito_os.Platforms.Registry.{Platforms, Modules, callable, target, import_factory, get_factory}

abbrev sdk : Modules ℕ
sdk name =
    if name == "echo.sdk"
    then some (λ attribute. if attribute == "Echo" then some 7 else none)
    else none

abbrev nothing : Modules ℕ
nothing name = none

abbrev known : Platforms ℕ
known = ("echo", target "echo.sdk:Echo") ∷ []

abbrev loaded : Platforms ℕ
loaded = ("echo", callable 7) ∷ []

imports : get_factory sdk "echo" known ≡ (ok 7, loaded)
unfolding get_factory import_factory partition Dict.get Dict.set
imports = refl

not_installed : get_factory nothing "echo" known ≡ (err (missing_dependency "echo"), known)
unfolding get_factory import_factory partition Dict.get
not_installed = refl
