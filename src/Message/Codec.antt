-- ===== src/Message/Codec.antt =====
-- `to_dict` and `from_dict` of messages.
use tito_os.Prelude.{
  String, Bool, true, false, [], ◌∷◌, Option, none, some, ◌==◌, if◌then◌else◌, ◌≡◌, refl, ap, zero,
  suc,
}
use tito_os.Errors.{Result, ok, err, missing_key, undeclared, ◌>>=◌}
use tito_os.Dict.{Dict}
use tito_os.Message.{
  Value, null, bool, int, text, arr, obj, opaque, nil, item, Fields, end, field, Message,
}

-- `dict(mapping)` as a JSON object, and back.
unfoldable pub to_fields : Dict Value → Fields
to_fields [] = end
to_fields ((k, v) ∷ d) = field k v (to_fields d)

unfoldable pub of_fields : Fields → Dict Value
of_fields end = []
of_fields (field k v fs) = (k, v) ∷ of_fields fs

pub of_fields-to_fields : (d : Dict Value) → of_fields (to_fields d) ≡ d
unfolding to_fields of_fields
of_fields-to_fields [] = refl
of_fields-to_fields ((k, v) ∷ d) = ap (◌∷◌ (k, v)) (of_fields-to_fields d)

-- `data.get(key)`
unfoldable pub lookup : String → Fields → Option Value
lookup key end = none
lookup key (field k v fs) = if k == key then some v else lookup key fs

-- `data[key]`
unfoldable pub required : String → Fields → Result Value
required key fs = elim (lookup key fs) [ none ↦ err (missing_key key) | some v ↦ ok v ]

-- Python's truth value
unfoldable pub truthy : Value → Bool
truthy null = false
truthy (bool b) = b
truthy (int negative zero) = false
truthy (int negative (suc n)) = true
truthy (text s) = if s == "" then false else true
truthy (arr nil) = false
truthy (arr (item v vs)) = true
truthy (obj end) = false
truthy (obj (field k v fs)) = true
truthy (opaque n) = true

-- A value where the declaration says `str`.
abbrev pub as_text : Value → Result String
as_text (text s) = ok s
as_text _ = err undeclared

-- A value where the declaration says `Mapping`.
abbrev pub as_mapping : Value → Result (Dict Value)
as_mapping (obj fs) = ok (of_fields fs)
as_mapping _ = err undeclared

-- `data.get(key) or {}`
unfoldable pub mapping_or_empty : String → Fields → Result (Dict Value)
unfolding truthy lookup of_fields
mapping_or_empty key fs = elim (lookup key fs) [
  | none ↦ ok []
  | some v ↦ if truthy v then as_mapping v else ok []
]

abbrev pub or_null : Option Value → Value
or_null none = null
or_null (some v) = v

unfoldable pub message_to_dict : Message → Fields
message_to_dict m = field "sender" (text m.sender) (
    field "to" (text m.to)
      (field "payload" m.payload (field "metadata" (obj (to_fields m.metadata)) end)))

unfoldable pub message_from_dict : Fields → Result Message
unfolding required lookup mapping_or_empty
message_from_dict fs = required "sender" fs >>= as_text >>= λ sender.
    required "to" fs >>= as_text >>= λ to. mapping_or_empty "metadata" fs >>= λ metadata.
    ok (record {
      sender = sender;
      to = to;
      payload = or_null (lookup "payload" fs);
      metadata = metadata;
    })

pub metadata_round :
    (d : Dict Value)
    → (if truthy (obj (to_fields d)) then as_mapping (obj (to_fields d)) else ok []) ≡ ok d
metadata_round [] = unfold truthy to_fields in refl
metadata_round ((k, v) ∷ d) = unfold truthy to_fields of_fields in rw (of_fields-to_fields d)

-- Reading back the dictionary form of a message gives the message, whatever its payload and
-- metadata.
pub from_dict-to_dict : (m : Message) → message_from_dict (message_to_dict m) ≡ ok m
unfolding message_from_dict message_to_dict
from_dict-to_dict m = rw (metadata_round m.metadata)
