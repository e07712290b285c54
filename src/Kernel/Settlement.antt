-- ===== src/Kernel/Settlement.antt =====
-- A tick keeps the invariant of the kernel.
use tito_os.Prelude.{ℕ, String, true, List, [], ◌∷◌, Option, none, some, ◌≡◌, refl, All}
use tito_os.Errors.{Error}
use tito_os.Dict
use tito_os.Dict.{Dict}
use tito_os.Dict.Laws.{All-entries}
use tito_os.Message.{Message}
use tito_os.Bus
use tito_os.Bus.{MessageBus}
use tito_os.Agent.{Agent, ready, Program, is_alive}
use tito_os.Kernel.{Kernel, update_agent, live_snapshot, restart_result, with_state, restarted_once}
use tito_os.Kernel.Planning.{plan-All, filter_alive-All}
use tito_os.Kernel.Barrier.{Holds, Mailed, update-Holds, requests-Stable}
use tito_os.Kernel.Settles.{Settles, step-keeps}
use tito_os.Kernel.Soundness.{
  IsSound, Grows, Grows-send, Grows-requeue, Grows-receive_many, same_agents-IsSound,
  unregister_finished_mailbox-IsSound,
}
use tito_os.Kernel.Tick.{step, drained}

module _ {P : Program} (bus : MessageBus) where
  grown-Holds :
      (k : Kernel P) (bus' : MessageBus)
      → Grows k.bus bus'
      → Holds bus k
      → Holds bus (record k { bus = bus' })
  grown-Holds k bus' more (s, g) =
      (same_agents-IsSound k (record k { bus = bus' }) refl more s, λ n h. more n (g n h))

  restart-Holds :
      (name : String) (inbox : List Message) (r : P.Memory × Option Error) (k : Kernel P)
      → Mailed bus name
      → Holds bus k
      → Holds bus (restart_result name inbox r k).1
  restart-Holds name inbox (m, some e) k q h = update-Holds bus name _ k (λ a. refl) q h
  restart-Holds name inbox (m, none) k q h =
      let k' = update_agent name (λ a. with_state ready (restarted_once m a)) k in
      grown-Holds k' (Bus.requeue name inbox k'.bus) (Grows-requeue name inbox k'.bus)
        (update-Holds bus name _ k (λ a. refl) q h)

  tick-Settles : Settles {P = P} (Holds bus) IsSound (Mailed bus)
  tick-Settles = record {
    restarts = λ name inbox a k found may q h. restart-Holds name inbox (P.on_restart _) k q h;
    posts = λ m k b e h. grown-Holds k b (Grows-send m k.bus b e) h;
    weakens = λ k h. h.0;
    drops = unregister_finished_mailbox-IsSound;
  }

-- the live agents of a sound kernel have mailboxes
pub live_snapshot-All :
    {P : Program} (k : Kernel P) → IsSound k → All (λ a. Mailed k.bus a.name) (live_snapshot k)
unfolding live_snapshot
live_snapshot-All {P} k s =
    filter_alive-All (λ a. Mailed k.bus a.name) k.agents
      (each k.agents (All-entries k.agents s.distinct))
  where
    each :
        (d : Dict (Agent P.Memory))
        → All (λ x. Dict.get x.0 k.agents ≡ some x.1) d
        → All (λ x. is_alive x.1 ≡ true → Mailed k.bus x.1.name) d
    each [] all = tt
    each ((n, a) ∷ d) all =
        (λ alive. rw (s.named n a all.0) (s.reachable n a all.0 alive), each d all.1)

-- Whatever the agents do, and whatever the schedule of their workers, a tick keeps the invariant:
-- also where it raises for an asynchronous agent or out of `on_restart`.
pub step-IsSound :
    {P : Program} (schedule : List ℕ) (k : Kernel P) → IsSound k → IsSound (step schedule k).1
step-IsSound schedule k s =
    let grows : Grows k.bus (drained k).bus = Grows-receive_many _ k.bus in
    step-keeps (tick-Settles k.bus) (requests-Stable k.bus) schedule k
      (plan-All (Mailed k.bus) (live_snapshot k) _ (live_snapshot-All k s))
      (same_agents-IsSound k (drained k) refl grows s, grows)
