-- ===== src/Gui/Demo/Sharing.antt =====
-- titoos/gui/__main__.py: how the dispatcher's jobs are shared among its workers.
use Prim.Native.Nat.{◌%◌, ◌/◌}
use tito_os.Prelude.{
  ℕ, ◌+◌, ◌≤◌, String, List, [], ◌∷◌, some, ◌≡◌, ltb, if◌then◌else◌, ◌==◌, get_elem?, length,
}
use tito_os.Dict.{Distinct}
use tito_os.Message.{Message}
use tito_os.Agent.Traces.{sent, returned, raised}
use tito_os.Gui.Demo.{dispatching}
use tito_os.Gui.Demo.Handing.{Requests, Law}

-- how many of the first `k` turns go to the worker at `i`, of `n` workers
abbrev pub share : ℕ → ℕ → ℕ → ℕ
share n k i = k / n + (if ltb i (k % n) then 1 else 0)

-- the requests of a step that send to `worker`
abbrev pub sent_to : String → Requests → ℕ
sent_to worker [] = 0
sent_to worker (sent to payload metadata ∷ acts) =
    (if to == worker then 1 else 0) + sent_to worker acts
sent_to worker (_ ∷ acts) = sent_to worker acts

module _ (workers : List String) (distinct : Distinct workers) where
  -- how the jobs of one step are shared
  abbrev pub ShareLaw : ℕ → List Message → Law
  ShareLaw next inbox acts (returned m) =
      (m ≡ dispatching workers (next + length inbox))
      × ((i : ℕ) (worker : String)
          → get_elem? workers i ≡ some worker
          → sent_to worker acts + share (length workers) next i
            ≡ share (length workers) (next + length inbox) i)
      × ((i j : ℕ) (worker other : String)
          → get_elem? workers i ≡ some worker
          → get_elem? workers j ≡ some other
          → sent_to worker acts ≤ sent_to other acts + 1)
  ShareLaw next inbox acts (raised e m) = Unit
