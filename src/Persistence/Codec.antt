-- ===== src/Persistence/Codec.antt =====
-- The dictionary form of a snapshot, read back.
use tito_os.Prelude.{
  ℕ, String, false, List, [], ◌∷◌, Option, none, some, ◌≡◌, refl, sym, if◌then◌else◌, ◌≢◌, arith,
}
use tito_os.Errors.{Result, ok, err, unsupported_version}
use tito_os.Dict.{Dict}
use tito_os.Message.{int, obj, Fields, field, Message}
use tito_os.Message.Codec.{
  truthy, mapping_or_empty, metadata_round, from_dict-to_dict, message_to_dict, message_from_dict,
}
use tito_os.Agent.{AgentState, ready, running, waiting, done, failed}
use tito_os.Persistence.{
  AgentRecord, Snapshot, snapshot_version, state_value, state_of, record_to_dict, record_from_dict,
  to_items, of_items, boxes_to_dict, boxes_from_dict, as_boxes, snapshot_to_dict,
  snapshot_from_dict, of_option, as_option,
}

pub state_of-state_value : (s : AgentState) → state_of (state_value s) ≡ ok s
unfolding state_of state_value
state_of-state_value ready = refl
state_of-state_value running = refl
state_of-state_value waiting = refl
state_of-state_value done = refl
state_of-state_value failed = refl

option_round : (o : Option String) → as_option (some (of_option o)) ≡ ok o
option_round none = refl
option_round (some s) = refl

record_round : (r : AgentRecord) → record_from_dict (record_to_dict r) ≡ ok r
unfolding record_from_dict record_to_dict mapping_or_empty
record_round r = rw (option_round r.parent, metadata_round r.saved)

items_round :
    {A : Type 0} (f : A → Fields) (g : Fields → Result A)
    → ((a : A) → g (f a) ≡ ok a)
    → (l : List A) → of_items g (to_items f l) ≡ ok l
unfolding to_items of_items
items_round f g round [] = refl
items_round f g round (a ∷ l) = rw (round a, items_round f g round l)

boxes_round : (d : Dict (List Message)) → boxes_from_dict (boxes_to_dict d) ≡ ok d
unfolding boxes_to_dict boxes_from_dict
boxes_round [] = refl
boxes_round ((name, box) ∷ d) =
    rw (items_round message_to_dict message_from_dict from_dict-to_dict box, boxes_round d)

boxes_or :
    (d : Dict (List Message))
    → (if truthy (obj (boxes_to_dict d)) then as_boxes (obj (boxes_to_dict d)) else ok []) ≡ ok d
unfolding boxes_to_dict boxes_from_dict
boxes_or [] = unfold truthy in refl
boxes_or ((name, box) ∷ d) = unfold truthy in rw (sym (boxes_round ((name, box) ∷ d)))

-- Reading back the dictionary form of a snapshot of this version gives the snapshot: every agent
-- record with its saved state, and every mailbox with its messages in order.
pub snapshot_from_dict-snapshot_to_dict :
    (s : Snapshot) → s.version ≡ snapshot_version → snapshot_from_dict (snapshot_to_dict s) ≡ ok s
unfolding snapshot_from_dict snapshot_to_dict
snapshot_from_dict-snapshot_to_dict s v =
    rw (v, items_round record_to_dict record_from_dict record_round s.agents, boxes_or s.mailboxes)

-- A snapshot of another version is refused, whatever else it holds.
pub snapshot_from_dict_other :
    (n : ℕ) (rest : Fields)
    → n ≢ snapshot_version
    → snapshot_from_dict (field "version" (int false n) rest) ≡ err unsupported_version
unfolding snapshot_from_dict
snapshot_from_dict_other n rest other = ground arith
