-- ===== src/Kernel/Shutdown.antt =====
-- titoos/kernel.py: `Kernel.shutdown` and what it closes. An adapter is known by its identity; the
-- pool of the backend, the drivers and the adapters close themselves, or raise.
use tito_os.Prelude.{
  ℕ, Bool, true, false, String, List, [], ◌∷◌, ◌++◌, map, Option, none, some, if◌then◌else◌, nat_eq,
  ◌||◌,
}
use tito_os.Errors.{Error}
use tito_os.Integrations.{Registry, close_all}

-- What was closed, in order.
pub data Closing : Type 0 where
  pool : Closing
  driver : String → Closing
  adapter : ℕ → Closing

-- What a shutdown raises: an exception of the pool or of a driver, or `_PlatformAdapterCloseError`.
pub data Raised : Type 0 where
  raised : Error → Raised
  adapters_failed : List Error → Raised

-- What a kernel has to close: the error of its pool's shutdown, its drivers, and the adapter of each
-- agent that has one with a `close`.
pub record Resources (D : Type 0) : Type 0 where
  pub pool_error : Option Error
  pub registry : Registry D
  pub close : D → Option Error × D
  pub adapters : List (Option ℕ)
  pub close_adapter : ℕ → Option Error

abbrev pub nat_elem : ℕ → List ℕ → Bool
nat_elem n [] = false
nat_elem n (m ∷ ms) = nat_eq m n || nat_elem n ms

-- The first loop of `_close_platform_adapters`: each adapter once, as the agents that share it are
-- registered.
unfoldable pub shared_once : List (Option ℕ) → List ℕ → List ℕ
shared_once [] seen = []
shared_once (none ∷ rest) seen = shared_once rest seen
shared_once (some a ∷ rest) seen =
    let again = shared_once rest seen in
    let fresh = a ∷ shared_once rest (a ∷ seen) in if nat_elem a seen then again else fresh

-- Its second loop: the errors in order, and the adapters whose `close` was called.
unfoldable pub close_each_adapter : (ℕ → Option Error) → List ℕ → List Error × List ℕ
close_each_adapter close [] = ([], [])
close_each_adapter close (a ∷ rest) =
    let (errors, closed) = close_each_adapter close rest in
    (elim (close a) [ none ↦ errors | some e ↦ e ∷ errors ], a ∷ closed)

abbrev pub as_raised : Option Error → Option Raised
as_raised none = none
as_raised (some e) = some (raised e)

abbrev pub or_later : Option Raised → Option Raised → Option Raised
or_later none later = later
or_later (some e) later = some e

abbrev pub as_one : List Error → Option Raised
as_one [] = none
as_one (e ∷ rest) = some (adapters_failed (e ∷ rest))

module _ {D : Type 0} where
  -- `_close_platform_adapters`
  unfoldable pub close_adapters : Resources D → Option Raised × List Closing
  unfolding shared_once close_each_adapter
  close_adapters r =
      let (errors, closed) = close_each_adapter r.close_adapter (shared_once r.adapters []) in
      (as_one errors, map adapter closed)

  -- `IntegrationRegistry.close`, with its closings
  unfoldable pub close_drivers : Resources D → Option Raised × List Closing
  close_drivers r =
      let (e, names, closed) = close_all r.close r.registry in (as_raised e, map driver names)

  -- `_close_resources`: the error of the drivers hides that of the adapters, which are closed anyway.
  unfoldable pub close_resources : Bool → Resources D → Option Raised × List Closing
  close_resources suppress r =
      let (driver_error, drivers) = close_drivers r in
      let (adapter_error, adapters) = close_adapters r in
      (if suppress then none else or_later driver_error adapter_error, drivers ++ adapters)

  abbrev pub after_pool : Option Error → Resources D → Option Raised × List Closing
  after_pool none r = let (e, closed) = close_resources false r in (e, pool ∷ closed)
  after_pool (some e) r = (some (raised e), pool ∷ (close_resources true r).1)

  -- `_shutdown_blocking`
  unfoldable pub shutdown_blocking : Resources D → Option Raised × List Closing
  unfolding close_resources
  shutdown_blocking r = after_pool r.pool_error r

-- `shutdown_thread`, none or alive or over, and what was closed so far
pub data Deferred : Type 0 where
  absent alive over : Deferred

pub record Lifetime : Type 0 where
  pub thread : Deferred
  pub closed : List Closing

module _ {D : Type 0} where
  abbrev pub blocking : Resources D → Lifetime → Option Raised × Lifetime
  blocking r life =
      let (e, closed) = shutdown_blocking r in
      (e, record { thread = absent; closed = life.closed ++ closed })

  -- The deferred thread runs to its end; its error goes to the thread's own hook.
  unfoldable pub run_deferred : Resources D → Lifetime → Lifetime
  run_deferred r life = elim life.thread [
    | absent ↦ life
    | over ↦ life
    | alive ↦ record { thread = over; closed = life.closed ++ (shutdown_blocking r).1 }
  ]

  -- `shutdown(wait=True)`: joining a thread that is alive lets it run to its end.
  unfoldable pub shutdown_wait : Resources D → Lifetime → Option Raised × Lifetime
  unfolding run_deferred
  shutdown_wait r life = elim life.thread [
    | absent ↦ blocking r life
    | over ↦ blocking r life
    | alive ↦ (none, record (run_deferred r life) { thread = absent })
  ]

-- `shutdown(wait=False)`
unfoldable pub shutdown_later : Lifetime → Lifetime
shutdown_later life = elim life.thread [
  | absent ↦ record life { thread = alive }
  | over ↦ record life { thread = alive }
  | alive ↦ life
]
