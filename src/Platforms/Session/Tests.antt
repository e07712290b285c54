-- ===== src/Platforms/Session/Tests.antt =====
-- A platform agent that echoes its mail, and each theorem at a concrete input.
use tito_os.Prelude.{ℕ, ◌+◌, true, false, List, [], ◌∷◌, none, some, ◌≡◌, refl}
use tito_os.Errors.{Result, ok, err, Error, undeclared, platform_failed}
use tito_os.Message.{text, Message}
use tito_os.Agent.{Agent, ready, never, Script}
use tito_os.Agent.Traces.{Traced}
use tito_os.Platforms.{
  is_platform_error, normalized, Await, Adapter, plain, default_ainvoke, default_to_platform,
  default_from_platform, payloads, turn_sender,
}
use tito_os.Platforms.Session.{
  Session, address, dispatch_all, is_spent, close_turn, finish, turn_of, platform_step,
  save_session, load_session,
}
use tito_os.Platforms.Session.Outcomes.{by_invoke, TurnLaw}
use tito_os.Platforms.Session.Turns.{platform_step-Traced}
use tito_os.Platforms.Session.Awaiting.{async_platform_step, agent_step, agent_step-settled}
use tito_os.Platforms.Session.Saved.{load_session-save_session}

-- the device counts the calls
abbrev echo : Adapter ℕ
echo = record {
  name = "echo";
  is_async = false;
  to_platform = λ n turn. (ok (default_to_platform turn), n);
  invoke = λ n request turn. (ok (plain request), n + 1);
  ainvoke = default_ainvoke (λ n request turn. (ok (plain request), n + 1));
  from_platform = λ n answer turn. (ok (default_from_platform answer), n);
  save_state = λ n. [];
  load_state = λ n state. n;
}

abbrev bot : Agent (Session ℕ)
bot = record {
  name = "bot";
  kind = "PlatformAgent";
  state = ready;
  parent = none;
  restarts = 0;
  restart_policy = never;
  max_restarts = 3;
  is_async = false;
  memory = record {
    seed = text "hello";
    reply_to = none;
    broadcast = false;
    max_turns = some 2;
    turns = 1;
    seeded = true;
    device = 5;
  };
  saved = none;
}

abbrev mail : List Message
mail = record { sender = "user"; to = "bot"; payload = text "hi"; metadata = [] } ∷ []

abbrev after : Session ℕ
after = record bot.memory { turns = 2; device = 6 }

-- the last turn of its budget: a reply to the sender, and the end
last_turn :
    platform_step echo bot 4 mail
    ≡ Script.send "user" (text "hi") [] (λ r. elim r [
      | ok _ ↦ Script.exit (Script.return after)
      | Result.err e ↦ Script.raise e (record bot.memory { device = 6 })
    ])
unfolding platform_step default_to_platform default_from_platform payloads turn_sender address
    dispatch_all is_spent close_turn finish turn_of
last_turn = refl

platform_step-Traced_example :
    Traced (TurnLaw echo (by_invoke echo) bot 4 mail) (platform_step echo bot 4 mail)
platform_step-Traced_example = platform_step-Traced echo bot 4 mail

load_session-save_session_example :
    load_session echo bot.memory (save_session echo after)
    ≡ record bot.memory { turns = 2; seeded = true; device = 5 }
load_session-save_session_example = load_session-save_session echo after bot.memory

-- an event loop in which nothing can be awaited
abbrev no_loop : Await ℕ
no_loop device n = (err undeclared, device)

-- an adapter that has only `ainvoke`
abbrev awaits : Adapter ℕ
awaits = record echo {
  is_async = true;
  invoke = λ n request turn. (err (Error.custom 1), n);
  ainvoke = λ await n request turn. (ok (plain request), n + 1);
}

-- Of the two classes of agents, only the one that awaits can run it.
needs_loop :
    (platform_step awaits bot 4 mail
      ≡ Script.raise (platform_failed "echo" "invoke") (record bot.memory { device = 5 }))
    × (agent_step awaits no_loop bot 4 mail ≡ platform_step echo bot 4 mail)
unfolding platform_step async_platform_step agent_step default_to_platform default_from_platform
    payloads turn_sender address dispatch_all is_spent close_turn finish turn_of is_platform_error
    normalized
needs_loop = (refl, refl)

agent_step-settled_example :
    (async_platform_step echo no_loop bot 4 mail ≡ platform_step echo bot 4 mail)
    × (agent_step echo no_loop bot 4 mail ≡ platform_step echo bot 4 mail)
agent_step-settled_example =
    agent_step-settled echo no_loop bot 4 mail (λ await device request turn. refl)
      (λ device request turn n same. cc)
