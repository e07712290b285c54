-- ===== src/Gui/Json/Tests.antt =====
-- The GUI's answers as JSON, and each theorem at a concrete input.
use tito_os.Prelude.{
  Bool, nat_eq, ℕ, zero, suc, String, true, false, [], ◌∷◌, Option, none, some, ◌≡◌, refl,
}
use tito_os.Errors.{Error, ok, refused, empty_recipient}
use tito_os.Message.{
  Value, null, bool, int, text, arr, obj, opaque, nil, item, Fields, end, field, Message,
}
use tito_os.Message.Codec.{message_to_dict, message_from_dict}
use tito_os.Gui.Requests.{failure}
use tito_os.Gui.Json.{encoded, jsonable, message_json, body_json}
use tito_os.Gui.Json.Plain.{is_plain, message_json-to_dict}

-- The object 0 is of a subclass of `int`, 1 is a float, and all others do not encode.
abbrev encode : ℕ → Option Value
encode zero = some (int false 7)
encode (suc zero) = some (opaque 1)
encode (suc (suc n)) = none

abbrev is_float : ℕ → Bool
is_float n = nat_eq n 1

abbrev repr : Value → String
repr v = "<object>"

abbrev name_of : Error → String
name_of e = "GUIError"

abbrev text_of : Error → String
text_of e = "no recipient"

abbrev letter : Value → Message
letter payload = record {
  sender = "a";
  to = "b";
  payload = payload;
  metadata = ("k", bool true) ∷ [];
}

encodes :
    jsonable encode repr (arr (item (opaque 0) (item (text "x") nil)))
    ≡ arr (item (int false 7) (item (text "x") nil))
unfolding jsonable encoded
encodes = refl

stands_as_text :
    jsonable encode repr (arr (item (opaque 0) (item (opaque 3) nil))) ≡ text "<object>"
unfolding jsonable encoded
stands_as_text = refl

error_answer :
    body_json encode repr name_of text_of 400 (failure (refused empty_recipient))
    ≡ some (obj (field "error" (text "no recipient") end))
unfolding body_json
error_answer = refl

message_json-to_dict_example :
    (fs : Fields) × (message_json encode repr (letter null) ≡ obj fs)
    × (fs ≡ message_to_dict (letter null))
    × (message_from_dict fs ≡ ok (letter null))
unfolding is_plain
message_json-to_dict_example = message_json-to_dict encode repr (letter null) (refl, (refl, tt))
