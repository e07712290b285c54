-- ===== src/Kernel/Pools/Tests.antt =====
-- A backend's pools in a few ticks, and the theorem at a concrete use.
use tito_os.Prelude.{List, [], ◌∷◌, some, ◌≡◌, refl}
use tito_os.Kernel.Pools.{
  no_pools, executor, submit_all, run_in_threads, release, Use, in_threads, shutdown, use_pools,
  use_all,
}
use tito_os.Kernel.Pools.Tidy.{below, IsTidy, IsOpen, use_all-IsOpen}

abbrev busy : List Use
busy = in_threads 1 ∷ in_threads 3 ∷ shutdown ∷ shutdown ∷ in_threads 2 ∷ []

busy_runs : use_all busy no_pools ≡ record { current = some 1; made = 2; shut = 0 ∷ [] }
unfolding use_all use_pools run_in_threads submit_all executor release
busy_runs = refl

use_all-IsOpen_example :
    IsTidy (use_all busy no_pools)
    × IsOpen (use_pools (in_threads 2) (use_all busy no_pools))
    × ((release (use_all busy no_pools)).shut ≡ below (release (use_all busy no_pools)).made)
use_all-IsOpen_example = use_all-IsOpen busy (in_threads 2)
