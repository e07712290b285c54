-- ===== src/Gui/Json.antt =====
-- titoos/gui/server.py: what the API's answers are as JSON. `json` is the standard library's: of an
-- object that is no JSON value here (a float, say), `encode` is what `json.loads(json.dumps(object,
-- allow_nan=False))` gives, and none where that raises. `repr` and `str` are Python's.
pub mod Plain
pub mod Answers
mod Tests
use mathlib.Core.Option
use tito_os.Prelude.{
  ℕ, String, Bool, true, false, List, [], ◌∷◌, map, Option, none, some, if◌then◌else◌, nat_eq,
}
use tito_os.Strings.{concat}
use tito_os.Errors.{Error, refused}
use tito_os.Dict.{Dict}
use tito_os.Message.{
  Value, null, bool, int, text, arr, obj, opaque, Items, nil, item, Fields, end, field, Message,
}
use tito_os.Message.Codec.{to_fields}
use tito_os.Agent.{AgentState}
use tito_os.Persistence.{state_value}
use tito_os.Kernel.{Backend, serial, thread, async, StopReason, finished, quiescent, max_ticks}
use tito_os.Kernel.Tick.{TickReport}
use tito_os.Gui.Requests.{
  AgentView, View, Answer, page, view, saved, report, ran, posted, failure, refusal,
}

abbrev pub both : {A B C : Type 0} → (A → B → C) → Option A → Option B → Option C
both f none b = none
both f (some a) none = none
both f (some a) (some b) = some (f a b)

-- `json.loads(json.dumps(value, allow_nan=False))`
unfoldable mutual
  pub encoded : (ℕ → Option Value) → Value → Option Value
  encoded encode null = some null
  encoded encode (bool b) = some (bool b)
  encoded encode (int negative n) = some (int negative n)
  encoded encode (text s) = some (text s)
  encoded encode (arr items) = Option.map arr (encoded_items encode items)
  encoded encode (obj fields) = Option.map obj (encoded_fields encode fields)
  encoded encode (opaque n) = encode n

  pub encoded_items : (ℕ → Option Value) → Items → Option Items
  encoded_items encode nil = some nil
  encoded_items encode (item v items) = both item (encoded encode v) (encoded_items encode items)

  pub encoded_fields : (ℕ → Option Value) → Fields → Option Fields
  encoded_fields encode end = some end
  encoded_fields encode (field k v fields) =
      both (field k) (encoded encode v) (encoded_fields encode fields)

-- a list as a JSON array
unfoldable pub array : List Value → Items
array [] = nil
array (v ∷ vs) = item v (array vs)

abbrev pub text_array : List String → Value
text_array ss = arr (array (map text ss))

abbrev pub number : ℕ → Value
number n = int false n

abbrev pub text_or_null : Option String → Value
text_or_null none = null
text_or_null (some s) = text s

abbrev pub reason_value : Option StopReason → Value
reason_value none = null
reason_value (some finished) = text "finished"
reason_value (some quiescent) = text "quiescent"
reason_value (some max_ticks) = text "max_ticks"

-- `type(kernel.backend).__name__`
abbrev pub backend_name : Backend → String
backend_name serial = "SerialBackend"
backend_name (thread _) = "ThreadBackend"
backend_name async = "AsyncBackend"

-- `_report`
unfoldable pub report_json : TickReport → Value
report_json r = obj (
    field "tick" (number r.tick) (
      field "ran" (text_array r.ran) (
        field "failed" (text_array r.failed) (
          field "waiting" (text_array r.waiting)
            (field "restarted" (text_array r.restarted) end)))))

-- an agent in `state`
unfoldable pub agent_json : AgentView → Value
unfolding state_value
agent_json a = obj (
    field "name" (text a.name) (
      field "kind" (text a.kind) (
        field "state" (text (state_value a.state)) (
          field "alive" (bool a.alive) (
            field "parent" (text_or_null a.parent)
              (field "restarts" (number a.restarts) (field "pending" (number a.pending) end)))))))

-- the answer of `run`
unfoldable pub run_json : List TickReport → Option StopReason → Value
unfolding report_json array
run_json reports reason = obj (
    field "reports" (arr (array (map report_json reports)))
      (field "stop_reason" (reason_value reason) end))

-- `{"error": message}`
abbrev pub error_json : String → Value
error_json message = obj (field "error" (text message) end)

module _ (encode : ℕ → Option Value) (repr : Value → String) where
  -- `_jsonable`
  unfoldable pub jsonable : Value → Value
  unfolding encoded
  jsonable v = elim (encoded encode v) [ none ↦ text (repr v) | some w ↦ w ]

  -- `_message`
  unfoldable pub message_json : Message → Value
  unfolding jsonable to_fields
  message_json m = obj (
      field "sender" (text m.sender) (
        field "to" (text m.to) (
          field "payload" (jsonable m.payload)
            (field "metadata" (obj (to_fields (map (λ e. (e.0, jsonable e.1)) m.metadata))) end))))

  abbrev pub mailbox_json : ℕ × List Message → Value
  mailbox_json (count, shown) =
      obj
        (field "count" (number count) (field "messages" (arr (array (map message_json shown))) end))

-- `type_name` and `str` are `type(exc).__name__` and `str(exc)`.
module _ (type_name str : Error → String) where
  abbrev pub failure_json : String × Error → Value
  failure_json (name, e) = obj (
      field "agent" (text name)
        (field "type" (text (type_name e)) (field "error" (text (str e)) end)))

  -- the text of an error response, by the handler's `except` clauses
  abbrev pub error_text : ℕ → Error → String
  error_text status (refused why) = str (refused why)
  error_text status e =
      if nat_eq status 409
      then concat "cannot snapshot: " (str e)
      else concat (type_name e) (concat ": " (str e))

module _ (encode : ℕ → Option Value) (repr : Value → String) (type_name str : Error → String) where
  -- the dictionary that `KernelGUI.state` returns
  unfoldable pub state_json : View → Value
  unfolding array agent_json report_json message_json to_fields
  state_json v = obj (
      field "tick" (number v.tick) (
        field "stop_reason" (reason_value v.stop_reason) (
          field "quiescent" (bool v.quiescent) (
            field "backend" (text (backend_name v.backend)) (
              field "sender" (text v.sender) (
                field "agents" (arr (array (map agent_json v.agents))) (
                  field "mailboxes"
                    (obj (to_fields (map (λ e. (e.0, mailbox_json encode repr e.1)) v.mailboxes)))
                    (field "errors" (arr (array (map (failure_json type_name str) v.errors))) (
                      field "integrations" (text_array v.integrations)
                        (field "reports" (arr (array (map report_json v.reports))) end))))))))))

  -- The argument of `_json` in the handler, and none where it sends a page or a snapshot's own text.
  unfoldable pub body_json : ℕ → Answer → Option Value
  unfolding state_json report_json run_json message_json
  body_json status page = none
  body_json status (view v) = some (state_json v)
  body_json status (saved s) = none
  body_json status (report r) = some (report_json r)
  body_json status (ran reports reason) = some (run_json reports reason)
  body_json status (posted m) = some (message_json encode repr m)
  body_json status (failure e) = some (error_json (error_text type_name str status e))
  body_json status (refusal s) = some (error_json s)
