-- ===== src/Kernel/ShutdownTests.antt =====
-- Shutting down a small kernel.
use tito_os.Prelude.{ℕ, [], ◌∷◌, none, some, ◌≡◌, if◌then◌else◌, nat_eq}
use tito_os.Errors.{custom}
use tito_os.Kernel.Shutdown.{
  raised, pool, driver, adapter, Resources, shared_once, close_each_adapter, shutdown_blocking,
}
use tito_os.Kernel.Closing.{shutdown_blocking_lem}

-- two drivers, the first of which cannot be closed, and two agents that share an adapter
abbrev held : Resources ℕ
held = record {
  pool_error = none;
  registry =
      ("http", record { name = "http"; operations = []; device = 1 })
      ∷ ("clock", record { name = "clock"; operations = []; device = 2 })
      ∷ [];
  close = λ n. (if nat_eq n 1 then some (custom 1) else none, n);
  adapters = some 4 ∷ none ∷ some 5 ∷ some 4 ∷ [];
  close_adapter = λ a. some (custom a);
}

shutdown_blocking_lem_example :
    shutdown_blocking held
    ≡ (some (raised (custom 1)), pool ∷ driver "http" ∷ driver "clock" ∷ adapter 4 ∷ adapter 5 ∷ [])
unfolding shared_once close_each_adapter
shutdown_blocking_lem_example = shutdown_blocking_lem held
