-- ===== src/Lib.antt =====
-- TitoOS, a kernel that runs agents cooperatively (titoos/): agents, the bus that carries their
-- messages, the tick with its supervision, and the drivers that agents call.
--
-- How the parts interact. A `Kernel` owns a `MessageBus`, a registry of integrations and a table
-- of agents. `Kernel.step` drains the mailboxes of the live agents, hands the agents that have
-- mail or do not wait to an execution backend, which runs `Agent.step` of each with a `Context`,
-- and then, at the barrier, restarts failed agents, tells their parents and reclaims mailboxes.
-- `Kernel.run` repeats that until nobody is alive, nobody can move, or its budget is used up.
--
-- Which file models which part.
--   Prelude, Errors, Dict: shared names, exceptions as values, Python's string-keyed `dict`.
--   Message, Message/Codec: titoos/message.py. `Value` is a JSON value or an opaque object.
--   Bus: titoos/bus.py, `MessageBus` as a table of mailboxes, each a list with its oldest message
--     first. Bus/Mailboxes has the effect of each operation on every mailbox; Bus/Delivery and
--     Bus/Draining have the properties.
--   Integrations: titoos/integrations/base.py, `Integration.call` and `IntegrationRegistry`. Its
--     children have the drivers: Integrations/Clock, Integrations/Files, Integrations/Http and
--     Integrations/Shell (the file of that name in titoos/integrations), Integrations/Proxy
--     `IntegrationProxy`, and Integrations/Allowlist `normalize_allowlist` and `redact`. What
--     `urllib` and `shutil.which` say is a parameter. The directories that the files driver works
--     on are those of Integrations/Folders, with one definition for each call of the `os` module;
--     Integrations/Paths has what it uses of `pathlib`.
--   Agent: titoos/agent.py, states, policies and construction. `Program` is what a caller
--     supplies: the classes of agents and drivers. `Script` is one run of `Agent.step`, as its
--     requests to the context, each with the rest of the step for every answer.
--   Kernel: titoos/kernel.py, the state and the operations on it (`register`, `unregister`,
--     `_supervise`, `_escalate`, ...). Kernel/Context has `Context` and `_run_agent`, Kernel/Tick
--     the backends of titoos/backends.py and `Kernel.step`, Kernel/Pools the pools that the backends
--     make and release, Kernel/Run `Kernel.run`. Kernel/Stable
--     and Kernel/Settles are proof rules for a tick, Kernel/Schedules compares the schedules
--     of a tick; the other children hold properties.
--   Persistence, Persistence/Codec: titoos/persistence.py, the persisted form of a kernel and its
--     dictionary form. Kernel/Saving has `Kernel.snapshot`, `Kernel.restore` and `FinishedAgent`;
--     Kernel/Shutdown has `Kernel.shutdown` and what it closes. Kernel/Reloading, Kernel/Restoring
--     and Kernel/Roundtrip lead to their round trip.
--   Platforms: titoos/platforms/base.py, turns, outbound messages and the default translation.
--     Platforms/Registry has `PlatformRegistry`, Platforms/Session `PlatformAgent`, whose step is
--     a `Script` like that of any other agent, and Platforms/Session/Awaiting `AsyncPlatformAgent`
--     and `CallableAdapter`; Agent/Traces has what a step asks for on every way that it can go.
--   Gui: titoos/gui/server.py, `KernelGUI`; Gui/Requests has the handler of requests,
--     Gui/Json its answers as JSON values, Gui/Lifecycle the threads of `start`, `serve_forever`
--     and `stop`, Gui/Demo the agents and the kernel of titoos/gui/__main__.py. Strings has the
--     methods of `str` that the code calls.
--
-- How code becomes definitions. A method that changes an object takes the object and returns the
-- new one; a method that may raise returns a `Result`, or `Exec` where what it wrote before the
-- raise stays. An agent object is known by the name that it is registered under, which is unique.
-- Python's locks make each operation of the bus and the kernel one step. A tick of ThreadBackend
-- or AsyncBackend takes a schedule: a list of positions in the pool, each of which lets that
-- worker make one request more. What the schedule leaves is run out in registration order, so the
-- schedules are all the interleavings, and the empty one is SerialBackend's order.
--
-- An adapter of a platform has all its hooks, `ainvoke` too, which a class may override. What `run` of
-- the shell driver answers is an `Option`: none where it never comes back.
--
-- Bounds. The GUI takes bodies of at most 65536 bytes and runs of at most 10000 ticks, as
-- `MAX_BODY` and `MAX_RUN_TICKS` say. A step is a finite tree of requests, so every step ends. The
-- loop of `run` recurs on the ticks that are left. No function runs on fuel.
--
-- Not modelled: what others do to a directory between two calls of the files driver, special
-- files, missing permissions and encodings other than UTF-8; the text and headers of an HTTP
-- response; a `stop` that the GUI's serving thread calls, and that its `shutdown` asks the
-- server's loop to end (a loop may end at any step); that an agent reaches past its
-- context, into `ctx.kernel` or into the objects that `children()` returns; exceptions that are
-- no `Exception` (KeyboardInterrupt); the texts of error messages; `run` with a negative budget,
-- which raises ValueError; letters outside ASCII in `lower` and `strip`; AsyncBackend called from inside a running event loop; the memo of
-- `_is_async_agent`; the state of an adapter that several agents share, which is kept for each. A Python value that is not of the type which a dataclass declares for it
-- ends in the error `undeclared`.
pub mod Prelude
pub mod Strings
pub mod Errors
pub mod Dict
pub mod Message
pub mod Bus
pub mod Integrations
pub mod Agent
pub mod Kernel
pub mod Persistence
pub mod Platforms
pub mod Gui
