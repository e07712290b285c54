-- ===== src/Message/Tests.antt =====
-- Messages on small inputs.
use tito_os.Prelude.{true, [], ◌∷◌, ◌≡◌, refl}
use tito_os.Errors.{ok, err, missing_key}
use tito_os.Message.{bool, text, Message, end, field}
use tito_os.Message.Codec.{message_to_dict, message_from_dict, from_dict-to_dict}

abbrev greeting : Message
greeting = record {
  sender = "a";
  to = "b";
  payload = text "hi";
  metadata = ("urgent", bool true) ∷ [];
}

from_dict_incomplete : message_from_dict (field "sender" (text "a") end) ≡ err (missing_key "to")
unfolding message_from_dict
from_dict_incomplete = refl

from_dict-to_dict_example : message_from_dict (message_to_dict greeting) ≡ ok greeting
from_dict-to_dict_example = from_dict-to_dict greeting
