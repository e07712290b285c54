-- ===== src/Persistence.antt =====
-- titoos/persistence.py: the persisted form of a kernel, and its dictionary form. JSON text is the
-- standard library's: a dictionary is what `json` writes and reads.
pub mod Codec
mod Tests
use tito_os.Prelude.{
  ℕ, String, Bool, true, false, List, [], ◌∷◌, Option, none, some, ◌==◌, if◌then◌else◌, nat_eq, not,
}
use tito_os.Errors.{Result, ok, err, Error, unsupported_version, not_a_state, undeclared, ◌>>=◌}
use tito_os.Dict
use tito_os.Dict.{Dict}
use tito_os.Message.{
  Value, null, int, text, arr, obj, Items, nil, item, Fields, end, field, Message,
}
use tito_os.Message.Codec.{
  to_fields, of_fields, lookup, required, truthy, as_text, as_mapping, mapping_or_empty,
  message_to_dict, message_from_dict,
}
use tito_os.Agent.{AgentState, ready, running, waiting, done, failed}

-- `SNAPSHOT_VERSION`
abbrev pub snapshot_version : ℕ
snapshot_version = 1

-- `AgentState.value` and `AgentState(value)`
unfoldable pub state_value : AgentState → String
state_value ready = "ready"
state_value running = "running"
state_value waiting = "waiting"
state_value done = "done"
state_value failed = "failed"

unfoldable pub state_of : String → Result AgentState
state_of s =
    if s == "ready"
    then ok ready
    else if s == "running"
    then ok running
    else if s == "waiting"
    then ok waiting
    else if s == "done"
    then ok done
    else if s == "failed"
    then ok failed
    else err (not_a_state s)

pub record AgentRecord : Type 0 where
  pub name : String
  pub kind : String
  pub state : String
  pub parent : Option String
  pub restarts : ℕ
  pub saved : Dict Value

pub record Snapshot : Type 0 where
  pub tick : ℕ
  pub agents : List AgentRecord
  pub mailboxes : Dict (List Message)
  pub version : ℕ

abbrev pub of_option : Option String → Value
of_option none = null
of_option (some s) = text s

-- `data.get(key)` where the declaration says `str | None`
abbrev pub as_option : Option Value → Result (Option String)
as_option none = ok none
as_option (some null) = ok none
as_option (some (text s)) = ok (some s)
as_option (some _) = err undeclared

-- A value where the declaration says `int`, for the counters, which are not negative.
abbrev pub as_count : Value → Result ℕ
as_count (int false n) = ok n
as_count _ = err undeclared

-- `data.get(key, default)` of such a counter
abbrev pub count_or : ℕ → Option Value → Result ℕ
count_or default none = ok default
count_or default (some v) = as_count v

-- `AgentRecord.to_dict`
unfoldable pub record_to_dict : AgentRecord → Fields
record_to_dict r = field "name" (text r.name) (
    field "kind" (text r.kind) (
      field "state" (text r.state) (
        field "parent" (of_option r.parent)
          (field "restarts" (int false r.restarts) (field "data" (obj (to_fields r.saved)) end)))))

-- `AgentRecord.from_dict`
unfoldable pub record_from_dict : Fields → Result AgentRecord
unfolding required lookup
record_from_dict fs = required "name" fs >>= as_text >>= λ name.
    required "kind" fs >>= as_text >>= λ kind. required "state" fs >>= as_text >>= λ state.
    as_option (lookup "parent" fs) >>= λ parent. count_or 0 (lookup "restarts" fs) >>= λ restarts.
    mapping_or_empty "data" fs >>= λ saved. ok (record {
      name = name;
      kind = kind;
      state = state;
      parent = parent;
      restarts = restarts;
      saved = saved;
    })

-- A list in the dictionary form, and a list read from it.
module _ {A : Type 0} where
  unfoldable pub to_items : (A → Fields) → List A → Items
  to_items f [] = nil
  to_items f (a ∷ rest) = item (obj (f a)) (to_items f rest)

  unfoldable pub of_items : (Fields → Result A) → Items → Result (List A)
  of_items g nil = ok []
  of_items g (item (obj fs) rest) = g fs >>= λ a. of_items g rest >>= λ more. ok (a ∷ more)
  of_items g (item _ rest) = err undeclared

  abbrev pub as_list : (Fields → Result A) → Value → Result (List A)
  as_list g (arr items) = of_items g items
  as_list g _ = err undeclared

-- the mailboxes in the dictionary form
unfoldable pub boxes_to_dict : Dict (List Message) → Fields
unfolding to_items
boxes_to_dict [] = end
boxes_to_dict ((name, box) ∷ rest) =
    field name (arr (to_items message_to_dict box)) (boxes_to_dict rest)

unfoldable pub boxes_from_dict : Fields → Result (Dict (List Message))
unfolding of_items
boxes_from_dict end = ok []
boxes_from_dict (field name v rest) = as_list message_from_dict v >>= λ box.
    boxes_from_dict rest >>= λ boxes. ok ((name, box) ∷ boxes)

abbrev pub as_boxes : Value → Result (Dict (List Message))
as_boxes (obj fs) = boxes_from_dict fs
as_boxes _ = err undeclared

-- `data.get("mailboxes") or {}`, read
abbrev pub boxes_or_empty : Option Value → Result (Dict (List Message))
boxes_or_empty none = ok []
boxes_or_empty (some v) = if truthy v then as_boxes v else ok []

-- `Snapshot.to_dict`
unfoldable pub snapshot_to_dict : Snapshot → Fields
snapshot_to_dict s = field "version" (int false s.version) (
    field "tick" (int false s.tick) (
      field "agents" (arr (to_items record_to_dict s.agents))
        (field "mailboxes" (obj (boxes_to_dict s.mailboxes)) end)))

-- `Snapshot.from_dict`: the version is tested before anything else is read.
unfoldable pub snapshot_from_dict : Fields → Result Snapshot
unfolding required lookup
snapshot_from_dict fs = count_or snapshot_version (lookup "version" fs) >>= λ version.
    if not (nat_eq version snapshot_version)
    then err unsupported_version
    else (required "tick" fs >>= as_count >>= λ tick.
        required "agents" fs >>= as_list record_from_dict >>= λ agents.
        boxes_or_empty (lookup "mailboxes" fs) >>= λ mailboxes.
        ok (record { tick = tick; agents = agents; mailboxes = mailboxes; version = version }))

-- `Snapshot.agent_states`
unfoldable pub agent_states : List AgentRecord → Result (Dict AgentState)
agent_states [] = ok []
agent_states (r ∷ rest) =
    state_of r.state >>= λ state. agent_states rest >>= λ states. ok ((r.name, state) ∷ states)
