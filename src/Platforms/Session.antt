-- ===== src/Platforms/Session.antt =====
-- titoos/platforms/base.py: `PlatformAgent`, as the class of an agent: what its step asks of the
-- context, and its state.
pub mod Outcomes
pub mod Turns
pub mod Saved
pub mod Awaiting
mod Tests
use tito_os.Prelude.{
  ℕ, ◌+◌, String, Bool, true, false, List, [], ◌∷◌, Option, none, some, not, ◌==◌, ◌&&◌, ◌||◌,
  if◌then◌else◌, is_empty, leb,
}
use tito_os.Errors.{Result, ok, err, Error, both_destinations, out_of_range, platform_failed}
use tito_os.Dict
use tito_os.Dict.{Dict}
use tito_os.Message.{Value, null, bool, int, obj, Message}
use tito_os.Message.Codec.{to_fields, of_fields, truthy}
use tito_os.Agent.{Agent, Script}
use tito_os.Platforms.{
  PlatformTurn, turn_sender, Outbound, Answer, one, many, awaitable, plain, Adapter, normalized,
}

-- What `PlatformAgent.__init__` adds to an agent. `device` is the state of the adapter.
pub record Session (S : Type 0) : Type 0 where
  pub seed : Value
  pub reply_to : Option String
  pub broadcast : Bool
  pub max_turns : Option ℕ
  pub turns : ℕ
  pub seeded : Bool
  pub device : S

unfoldable pub is_null : Value → Bool
is_null null = true
is_null _ = false

-- the truth value of a `str | None`
unfoldable pub nonblank : Option String → Bool
nonblank none = false
nonblank (some s) = not (s == "")

abbrev pub too_few : Option ℕ → Bool
too_few none = false
too_few (some n) = not (leb 1 n)

-- `PlatformAgent.__init__`, after `Agent.__init__`
unfoldable pub make_session :
    {S : Type 0} → Value → Option String → Bool → Option ℕ → S → Result (Session S)
make_session seed reply_to broadcast max_turns device =
    if nonblank reply_to && broadcast
    then err both_destinations
    else if too_few max_turns
    then err out_of_range
    else ok (record {
      seed = seed;
      reply_to = reply_to;
      broadcast = broadcast;
      max_turns = max_turns;
      turns = 0;
      seeded = is_null seed;
      device = device;
    })

-- Where `_dispatch` sends a reply.
pub data Address : Type 0 where
  everyone nowhere : Address
  agent_named : String → Address

-- `a or b`, of `str | None`
abbrev pub or_else : Option String → Option String → Option String
or_else none b = b
or_else (some s) b = if s == "" then b else some s

abbrev pub destination : Option String → Address
destination none = nowhere
destination (some s) = if s == "" then nowhere else agent_named s

-- what `load_state` reads
abbrev pub saved_turns : Option Value → ℕ
saved_turns (some (int false n)) = n
saved_turns _ = 0

abbrev pub saved_seeded : Value → Option Value → Bool
saved_seeded seed none = is_null seed
saved_seeded seed (some v) = truthy v

abbrev pub saved_platform : Option Value → Dict Value
saved_platform (some (obj fs)) = of_fields fs
saved_platform _ = []

module _ {S : Type 0} where
  unfoldable pub address : Session S → Outbound → PlatformTurn → Address
  address m reply turn =
      let unaddressed : Bool = elim reply.to [ none ↦ m.broadcast | some _ ↦ false ] in
      if reply.broadcast || unaddressed
      then everyone
      else destination (or_else reply.to (or_else m.reply_to (turn_sender turn)))

  -- an exception of a context method leaves the step
  abbrev pub continue : Session S → Script (Session S) → Result Message → Script (Session S)
  continue m rest (ok _) = rest
  continue m rest (err e) = Script.raise e m

  -- `_dispatch`, and then the rest of the step
  abbrev pub dispatch_to :
      String → Address → Outbound → Session S → Script (Session S) → Script (Session S)
  dispatch_to platform everyone reply m rest =
      Script.broadcast reply.payload reply.metadata (continue m rest)
  dispatch_to platform nowhere reply m rest = Script.raise (platform_failed platform "dispatch") m
  dispatch_to platform (agent_named name) reply m rest =
      Script.send name reply.payload reply.metadata (continue m rest)

  -- the loop of `_finish` over the replies
  unfoldable pub dispatch_all :
      String → List Outbound → PlatformTurn → Session S → Script (Session S) → Script (Session S)
  dispatch_all platform [] turn m rest = rest
  dispatch_all platform (reply ∷ replies) turn m rest =
      dispatch_to platform (address m reply turn) reply m
        (dispatch_all platform replies turn m rest)

  -- `self.max_turns is not None and self.turns >= self.max_turns`
  unfoldable pub is_spent : Session S → Bool
  is_spent m = elim m.max_turns [ none ↦ false | some n ↦ leb n m.turns ]

  abbrev pub counted : Session S → Session S
  counted m = record m { seeded = true; turns = m.turns + 1 }

  -- the end of `_finish`
  unfoldable pub close_turn : Session S → Script (Session S)
  unfolding is_spent
  close_turn m =
      let m' : Session S = counted m in
      if is_spent m' then Script.exit (Script.return m') else Script.wait (Script.return m')

  abbrev pub finished :
      String → PlatformTurn → Session S → Result (List Outbound) × S → Script (Session S)
  finished platform turn m (err e, device) =
      Script.raise (normalized platform "from_platform" e) (record m { device = device })
  finished platform turn m (ok replies, device) =
      let m' : Session S = record m { device = device } in
      dispatch_all platform replies turn m' (close_turn m')

  -- `_finish`
  unfoldable pub finish : Adapter S → Answer → PlatformTurn → Session S → Script (Session S)
  unfolding dispatch_all close_turn
  finish adapter answer turn m =
      finished adapter.name turn m (adapter.from_platform m.device answer turn)

  -- An agent that cannot await refuses an awaitable.
  abbrev pub answered :
      Adapter S → PlatformTurn → Session S → Result Answer × S → Script (Session S)
  answered adapter turn m (err e, device) =
      Script.raise (normalized adapter.name "invoke" e) (record m { device = device })
  answered adapter turn m (ok (awaitable n), device) =
      Script.raise (platform_failed adapter.name "invoke") (record m { device = device })
  answered adapter turn m (ok (one o), device) =
      finish adapter (one o) turn (record m { device = device })
  answered adapter turn m (ok (many o os), device) =
      finish adapter (many o os) turn (record m { device = device })
  answered adapter turn m (ok (plain v), device) =
      finish adapter (plain v) turn (record m { device = device })

  abbrev pub requested :
      Adapter S → PlatformTurn → Session S → Result Value × S → Script (Session S)
  requested adapter turn m (err e, device) =
      Script.raise (normalized adapter.name "to_platform" e) (record m { device = device })
  requested adapter turn m (ok request, device) =
      answered adapter turn (record m { device = device }) (adapter.invoke device request turn)

  -- `_begin`, where there is a turn
  unfoldable pub turn_of : Agent (Session S) → ℕ → List Message → PlatformTurn
  turn_of a tick inbox = record {
    agent = a.name;
    tick = tick;
    messages = inbox;
    seed = if a.memory.seeded then null else a.memory.seed;
  }

  -- `PlatformAgent.step`
  unfoldable pub platform_step :
      Adapter S → Agent (Session S) → ℕ → List Message → Script (Session S)
  unfolding finish turn_of
  platform_step adapter a tick inbox =
      if is_empty inbox && a.memory.seeded
      then Script.wait (Script.return a.memory)
      else requested adapter (turn_of a tick inbox) a.memory
          (adapter.to_platform a.memory.device (turn_of a tick inbox))

  -- `PlatformAgent.save_state`
  unfoldable pub save_session : Adapter S → Session S → Dict Value
  save_session adapter m =
      ("turns", int false m.turns)
      ∷ ("seeded", bool m.seeded)
      ∷ ("platform", obj (to_fields (adapter.save_state m.device)))
      ∷ []

  -- `PlatformAgent.load_state`, of values of the types that `save_state` writes
  unfoldable pub load_session : Adapter S → Session S → Dict Value → Session S
  load_session adapter m state = record m {
    turns = saved_turns (Dict.get "turns" state);
    seeded = saved_seeded m.seed (Dict.get "seeded" state);
    device = adapter.load_state m.device (saved_platform (Dict.get "platform" state));
  }
