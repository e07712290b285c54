-- ===== src/Persistence/Tests.antt =====
-- The dictionary form of small snapshots, and each theorem at a concrete one.
use tito_os.Prelude.{◌≡◌, refl, false, [], ◌∷◌, some}
use tito_os.Errors.{ok}
use tito_os.Message.{text, int}
use tito_os.Persistence.{Snapshot, snapshot_to_dict, snapshot_from_dict}
use tito_os.Persistence.Codec.{snapshot_from_dict-snapshot_to_dict}

abbrev saved : Snapshot
saved = record {
  tick = 3;
  agents =
      record {
        name = "worker";
        kind = "Worker";
        state = "waiting";
        parent = some "boss";
        restarts = 1;
        saved = ("memory", int false 4) ∷ [];
      }
      ∷ [];
  mailboxes =
      (
        "worker",
        record { sender = "boss"; to = "worker"; payload = text "job"; metadata = [] } ∷ [],
      )
      ∷ [];
  version = 1;
}

snapshot_from_dict-snapshot_to_dict_example : snapshot_from_dict (snapshot_to_dict saved) ≡ ok saved
snapshot_from_dict-snapshot_to_dict_example = snapshot_from_dict-snapshot_to_dict saved refl
