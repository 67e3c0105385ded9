-- ===== src/Command/Examples.antt =====
-- The commands at concrete inputs.
use pmb.Base.{String, ◌≡◌, refl, false, none, [], ◌∷◌, inr}
use pmb.Base.Go.{done}
use pmb.Base.Trim.{trim_space}
use pmb.Json.{Fields, str, end, field, get}
use pmb.Keys.{parse_keys, find_all, key_at, is_key_char}
use pmb.Run.{join_words}
use pmb.Client.{incoming, sends, is_reply}
use pmb.Connect.{amqp, transport_of}
use pmb.Command.{Bus, execute_remote_copy}
use pmb.Command.Copied.{execute_remote_copy-First}

abbrev key : String
key = "0123456789abcdef0123456789abcdef"

abbrev reply : String → Fields
reply type = field "type" (str type) (field "origin" (str "ann") end)

abbrev bus : Bus
bus = record {
  config = record { broker = "amqp://host"; key = key };
  id = "ann";
  trust_key = false;
  outside = record {
    dial = λ t uri id sub. none;
    events = incoming (reply "AuthValid") ∷ [];
    rounds = [];
  };
}

execute_remote_copy-First_example :
    execute_remote_copy bus (" a" ∷ "b" ∷ []) (inr "") (incoming (reply "DataCopied") ∷ [])
    ≡ done
        (sends (key ∷ []) (field "type" (str "TestAuth") end)
          ∷ sends (key ∷ []) (
              field "type"
                (str "CopyData")
                (field "data" (str (trim_space (join_words (" a" ∷ "b" ∷ [])))) end))
          ∷ [])
        tt
unfolding transport_of parse_keys find_all key_at is_key_char is_reply get
execute_remote_copy-First_example =
    execute_remote_copy-First bus " a" ("b" ∷ []) (inr "") (incoming (reply "DataCopied") ∷ [])
      (key ∷ []) amqp (reply "AuthValid") (reply "DataCopied") refl refl refl refl refl refl
      (refl, refl) ([], [], refl, tt) (refl, refl) ([], [], refl, tt)
