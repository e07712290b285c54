-- ===== src/Kernel/Pools.antt =====
-- titoos/backends.py: the thread pool of `ThreadBackend` and the event loop of `AsyncBackend`, which
-- are made when a tick needs one and released by `shutdown`. Pools and loops are numbered as they
-- are made.
pub mod Tidy
mod Tests
use tito_os.Prelude.{
  ℕ, zero, suc, ◌+◌, Bool, true, false, List, [], ◌∷◌, Option, none, some, if◌then◌else◌, leb,
}
use tito_os.Errors.{Result, ok, err, out_of_range}

-- A backend's `_pool` or `_loop`, how many were made, and those that were shut, the last one first.
pub record Pools : Type 0 where
  pub current : Option ℕ
  pub made : ℕ
  pub shut : List ℕ

abbrev pub no_pools : Pools
no_pools = record { current = none; made = 0; shut = [] }

-- `ThreadBackend.__init__`
unfoldable pub make_thread_backend : ℕ → Result Pools
make_thread_backend max_workers = if leb 1 max_workers then ok no_pools else err out_of_range

abbrev pub chosen : Option ℕ → Pools → ℕ × Pools
chosen (some i) p = (i, p)
chosen none p = (p.made, record p { current = some p.made; made = suc p.made })

-- `_executor`, and `_get_loop`: the only loop that is closed is one that `shutdown` has taken away.
unfoldable pub executor : Pools → ℕ × Pools
executor p = chosen p.current p

-- the loop over the agents of a tick, each submitted to `self._executor()`
unfoldable pub submit_all : ℕ → Pools → List ℕ × Pools
unfolding executor
submit_all zero p = ([], p)
submit_all (suc n) p =
    let (i, p') = executor p in let (used, left) = submit_all n p' in (i ∷ used, left)

-- `ThreadBackend.run_tick` for that many agents: the pools that they are submitted to
unfoldable pub run_in_threads : ℕ → Pools → List ℕ × Pools
unfolding submit_all
run_in_threads n p = if leb 2 n then submit_all n p else ([], p)

-- `AsyncBackend.run_tick`: all agents are gathered on one loop.
unfoldable pub run_in_loop : ℕ → Pools → List ℕ × Pools
unfolding executor
run_in_loop zero p = ([], p)
run_in_loop (suc n) p = let (i, p') = executor p in (i ∷ [], p')

abbrev pub released : Option ℕ → Pools → Pools
released none p = p
released (some i) p = record p { current = none; shut = i ∷ p.shut }

-- `shutdown` of both backends
unfoldable pub release : Pools → Pools
release p = released p.current p

-- what a kernel does with its backend: a tick of that many agents, or a shutdown
pub data Use : Type 0 where
  in_threads in_loop : ℕ → Use
  shutdown : Use

unfoldable pub use_pools : Use → Pools → List ℕ × Pools
unfolding run_in_threads run_in_loop release
use_pools (in_threads n) p = run_in_threads n p
use_pools (in_loop n) p = run_in_loop n p
use_pools shutdown p = ([], release p)

unfoldable pub use_all : List Use → Pools → Pools
unfolding use_pools
use_all [] p = p
use_all (u ∷ uses) p = use_all uses (use_pools u p).1
