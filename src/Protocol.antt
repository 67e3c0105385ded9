-- ===== src/Protocol.antt =====
-- The messages of the bus by their types: what the commands of this program send, and what their
-- readers assert of a message without a test. Those of type Stream stand in Stream.
pub mod Done
pub mod Introducers
pub mod Readers
pub mod Senders
pub mod Replies
mod Examples
use pmb.Base.{String, Bool, ◌≡◌, ◌⊎◌, some}
use pmb.Base.Float.{Float64}
use pmb.Json.{Fields, get, text_at, as_num, as_bool}

abbrev pub HasText : String → Fields → Type 0
HasText k m = (t : String) × (text_at k m ≡ some t)

abbrev pub HasNum : String → Fields → Type 0
HasNum k m = (x : Float64) × (as_num (get k m) ≡ some x)

abbrev pub HasBool : String → Fields → Type 0
HasBool k m = (b : Bool) × (as_bool (get k m) ≡ some b)

abbrev pub HasType : String → Fields → Type 0
HasType t m = text_at "type" m ≡ some t

-- A message of one of the program's types, with the fields of that type.
pub data IsProper (m : Fields) : Type 0 where
  asks_copy : HasType "CopyData" m → HasText "data" m → HasText "id" m → IsProper m
  asks_open :
      HasType "OpenURL" m → HasText "data" m → HasBool "is_html" m → HasText "id" m → IsProper m
  asks_test : HasType "TestAuth" m → HasText "id" m → IsProper m
  asks_key : HasType "RequestAuth" m → IsProper m
  notifies :
      HasType "Notification" m
      → HasText "notification-id" m
      → HasText "message" m
      → HasNum "level" m
      → HasText "id" m
      → IsProper m
  displays :
      HasType "NotificationDisplayed" m
      → HasText "origin" m
      → HasText "notification-id" m
      → HasText "message" m
      → HasNum "level" m
      → HasBool "screenSaverOn" m
      → IsProper m
  copies : HasType "DataCopied" m → HasText "origin" m → IsProper m
  opens : HasType "URLOpened" m → HasText "origin" m → IsProper m
  confirms : HasType "AuthValid" m → HasText "origin" m → IsProper m
  ranks : HasType "IntroducerPresent" m → HasNum "level" m → IsProper m
  calls_roll : HasType "IntroducerRollCall" m → IsProper m
  triggers :
      HasType "Trigger" m
      → HasText "from" m
      → HasText "trigger" m
      → HasBool "success" m
      → IsProper m

-- A type of reply that some command waits for.
abbrev pub IsReplyType : String → Type 0
IsReplyType t =
    (t ≡ "DataCopied") ⊎ (t ≡ "URLOpened") ⊎ (t ≡ "AuthValid") ⊎ (t ≡ "NotificationDisplayed")
