-- ===== src/Errors.antt =====
-- Exceptions as values. A constructor for each place that raises, with what its message names.
-- `custom` is any exception that code outside the repository (an agent, a driver, a hook) raises.
use tito_os.Prelude.{String, List, Option, ℕ, ◌≡◌, refl, ◌⊎◌, inl, inr}

-- what a `GUIError` of titoos/gui/server.py says
pub data Refusal : Type 0 where
  ticks_not_integer ticks_out_of_range empty_recipient metadata_not_object : Refusal
  nobody_named : String → Refusal

-- an `OSError` of a call on a directory or a file, by its errno
pub data OsError : Type 0 where
  no_entry entry_exists not_directory is_directory symlink_loop : OsError

-- what an `IntegrationError` of titoos/integrations/files.py says
pub data FileFault : Type 0 where
  not_relative escapes is_read_only not_file too_large no_such_file : FileFault
  cannot : OsError → FileFault

pub data Error : Type 0 where
  -- ValueError
  empty_name : Error
  already_registered : String → Error
  already_installed : String → Error
  out_of_range : Error
  wrong_name : String → String → Error
  unsupported_version : Error
  both_destinations : Error
  empty_allowlist : String → Error
  not_a_state : String → Error
  no_sandbox no_root not_utf8 : Error
  no_directory : Option String → Error
  -- KeyError
  unknown_recipient : String → Error
  no_agent : String → Error
  no_factory : List String → Error
  missing_key : String → Error
  -- TypeError
  async_unsupported : String → Error
  -- RuntimeError
  agents_running : List String → Error
  cannot_run_again : String → Error
  transient_failure : Error
  -- ZeroDivisionError
  division_by_zero : Error
  -- IntegrationError
  not_installed : String → Error
  unknown_operation : String → String → Error
  -- IntegrationError by `_fail`, of an integration and an operation
  call_failed : String → String → Error
  file_fault : String → FileFault → String → Error
  -- OSError
  os_error : OsError → Error
  broken_pipe : Error
  -- PlatformError, of a platform and an operation
  platform_failed : String → String → Error
  -- MissingDependency, a PlatformError
  missing_dependency : String → Error
  -- GUIError
  refused : Refusal → Error
  -- AttributeError, of an integration and an attribute
  not_advertised : String → String → Error
  not_writable : String → Error
  -- a field holds a value that is not of its declared type
  undeclared : Error
  custom : ℕ → Error

pub data Result {ℓ} (A : Type ℓ) : Type ℓ where
  ok : A → Result A
  err : Error → Result A

pub Result-cases {ℓ} :
    {A : Type ℓ} (r : Result A) → ((a : A) × (r ≡ ok a)) ⊎ ((e : Error) × (r ≡ err e))
Result-cases (ok a) = inl (a, refl)
Result-cases (err e) = inr (e, refl)

-- The rest of a computation, run on a result.
infixl 10 ◌>>=◌
abbrev pub ◌>>=◌ {ℓ κ} : {A : Type ℓ} {B : Type κ} → Result A → (A → Result B) → Result B
ok a >>= f = f a
err e >>= f = err e

-- A method that changes an object and may raise: what was written before a raise stays written.
abbrev pub Exec {ℓ} : Type ℓ → Type ℓ → Type ℓ
Exec S A = S → Result A × S

-- The rest of a method, which sees the state that the raise or the return left.
abbrev pub proceed {ℓ} : {S A B : Type ℓ} → Result A × S → (A → Exec S B) → Result B × S
proceed (ok a, s) f = f a s
proceed (err e, s) f = (err e, s)

-- A method that returned: its first part returned, and the rest did from the state that this left.
pub proceed-eq-ok {ℓ} :
    {S A B : Type ℓ} (r : Result A × S) (f : A → Exec S B) {b : B} {s' : S}
    → proceed r f ≡ (ok b, s')
    → (a : A) × (s : S) × (r ≡ (ok a, s)) × (f a s ≡ (ok b, s'))
proceed-eq-ok (ok a, s) f h = (a, s, refl, h)
proceed-eq-ok (err e, s) f h = cc

pub ok-path :
    {A S : Type 0} {a b : A} {s t : S}
    → ◌≡◌ {A = Result A × S} (ok a, s) (ok b, t)
    → (a ≡ b) × (s ≡ t)
ok-path e = (cc, cc)
