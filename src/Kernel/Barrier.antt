-- ===== src/Kernel/Barrier.antt =====
-- Every request of a running step keeps the invariant of the kernel and every mailbox.
use tito_os.Prelude.{String, true, Option, some, ◌≡◌, refl}
use tito_os.Errors.{Result, ok, err, Error, ◌>>=◌}
use tito_os.Message.{Message}
use tito_os.Bus
use tito_os.Bus.{MessageBus, has_mailbox}
use tito_os.Agent.{Agent, Program, Spec, make_agent}
use tito_os.Kernel.{Kernel, register, update_agent}
use tito_os.Kernel.Context.{
  ctx_send, ctx_broadcast, ctx_spawn, ctx_call, ctx_wait, ctx_exit, begin_step, end_step,
  record_failure, sent, spawned, after_raise,
}
use tito_os.Kernel.Stable.{Stable}
use tito_os.Kernel.Soundness.{
  IsSound, Grows, Grows-send, same_agents-IsSound, update_agent-IsSound, register-IsSound,
  register-Grows,
}

abbrev pub Mailed : MessageBus → String → Type 0
Mailed bus me = has_mailbox me bus ≡ true

module _ {P : Program} (bus : MessageBus) where
  -- the invariant, and no mailbox of `bus` is gone
  abbrev pub Holds : Kernel P → Type 0
  Holds k = IsSound k × Grows bus k.bus

  pub update-Holds :
      (me : String) (f : Agent P.Memory → Agent P.Memory) (k : Kernel P)
      → ((a : Agent P.Memory) → (f a).name ≡ a.name)
      → Mailed bus me
      → Holds k
      → Holds (update_agent me f k)
  update-Holds me f k keeps q (s, g) =
      (update_agent-IsSound me f k keeps (g me q) s, unfold update_agent in g)

  sent-Holds :
      (m : Message) (k : Kernel P)
      → Holds k
      → Holds (sent k (Bus.send m k.bus >>= λ b. ok (m, b))).1
  sent-Holds m k (s, g) = split (Bus.send m k.bus) refl
    where
      split :
          (r : Result MessageBus)
          → Bus.send m k.bus ≡ r
          → Holds (sent k (Bus.send m k.bus >>= λ b. ok (m, b))).1
      split (ok b) e =
          let more : Grows k.bus b = Grows-send m k.bus b e in
          rw e (same_agents-IsSound k (record k { bus = b }) refl more s, λ n h. more n (g n h))
      split (err x) e = rw e (s, g)

  spawned-Holds :
      (a a' : Agent P.Memory) (parent : Option String) (k : Kernel P)
      → Holds k
      → Holds (spawned k a' (register a parent k)).1
  spawned-Holds a a' parent k (s, g) = split (register a parent k) refl
    where
      split :
          (r : Result (Kernel P))
          → register a parent k ≡ r
          → Holds (spawned k a' (register a parent k)).1
      split (ok k') e =
          rw e (register-IsSound a parent k k' e s, λ n h. register-Grows a parent k k' e n (g n h))
      split (err x) e = rw e (s, g)

  ctx_spawn-Holds :
      (me : String) (spec : Spec P.Memory) (k : Kernel P) → Holds k → Holds (ctx_spawn me spec k).1
  ctx_spawn-Holds me spec k h = split (make_agent spec) refl
    where
      split : (r : Result (Agent P.Memory)) → make_agent spec ≡ r → Holds (ctx_spawn me spec k).1
      split (ok a) e =
          unfold ctx_spawn in
          rw (e, ctx_spawn) (spawned-Holds a (record a { parent = some me }) (some me) k h)
      split (err x) e = unfold ctx_spawn in rw (e, ctx_spawn) h

  logged :
      (me : String) (e : Error) (m : P.Memory) (k : Kernel P)
      → Holds (update_agent me (after_raise m) k)
      → Holds (record_failure me e m k)
  unfolding record_failure
  logged me e m k (s, g) =
      let k' = update_agent me (after_raise m) k in (same_agents-IsSound k' _ refl (λ n h. h) s, g)

  pub requests-Stable : Stable Holds (Mailed bus)
  requests-Stable = record {
    sends = λ me to payload metadata k q h. unfold ctx_send Bus.post in sent-Holds _ k h;
    broadcasts = λ me payload metadata k q h.
        unfold ctx_broadcast Bus.broadcast Bus.post in sent-Holds _ k h;
    spawns = λ me spec k q h. ctx_spawn-Holds me spec k h;
    calls = λ name operation arguments k (s, g).
        unfold ctx_call in (same_agents-IsSound k _ refl (λ n m. m) s, g);
    waits = λ me k q h. unfold ctx_wait in update-Holds me _ k (λ a. refl) q h;
    exits = λ me k q h. unfold ctx_exit in update-Holds me _ k (λ a. refl) q h;
    begins = λ me k q h. unfold begin_step in update-Holds me _ k (λ a. refl) q h;
    returns = λ me m k q h. unfold end_step in update-Holds me _ k (λ a. refl) q h;
    raises = λ me e m k q h. logged me e m k (update-Holds me (after_raise m) k (λ a. refl) q h);
  }
