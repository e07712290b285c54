-- ===== src/Platforms/Session/Saved.antt =====
-- `save_state` and `load_state` of a platform agent.
use tito_os.Prelude.{◌≡◌}
use tito_os.Dict
use tito_os.Message.Codec.{of_fields-to_fields, truthy}
use tito_os.Platforms.{Adapter}
use tito_os.Platforms.Session.{Session, save_session, load_session}

-- A platform agent that loads what another one saved has its count of turns and knows whether the
-- seed is used; its adapter has loaded what the other's adapter saved; its settings are its own.
pub load_session-save_session :
    {S : Type 0} (adapter : Adapter S) (m fresh : Session S)
    → load_session adapter fresh (save_session adapter m) ≡ record fresh {
      turns = m.turns;
      seeded = m.seeded;
      device = adapter.load_state fresh.device (adapter.save_state m.device);
    }
unfolding load_session save_session Dict.get truthy
load_session-save_session adapter m fresh = rw (of_fields-to_fields (adapter.save_state m.device))
