-- ===== src/Protocol/Senders.antt =====
-- What the commands and introducers send: messages of the program's types.
use pmb.Base.{String, ◌≡◌, refl, ap, ◌∙◌, Bool, false, List, All, ◌==◌}
use pmb.Base.Go.{◌>>◌, emit, trace, All-trace}
use pmb.Base.Float.{Float64}
use pmb.Json.{Fields, str, num, bool, end, field, get, get-put, as_text, as_num, as_bool}
use pmb.Wire.{Host, tag}
use pmb.Wire.Sent.{tag-id, tag-type}
use pmb.Client.{
  Effect, sends, stores, runs, Event, Connection, Notification, await, test_auth, send_notification,
  run_remote_copy, run_open_url,
}
use pmb.Connect.Secrecy.{await-silent}
use pmb.Protocol.{IsProper, HasText, HasNum, HasBool}
use pmb.Protocol

-- The keys that tag does not write.
abbrev IsOwn : String → Type 0
IsOwn k =
    (("sent" == k) ≡ false)
    × (("ip" == k) ≡ false)
    × (("hostname" == k) ≡ false)
    × (("id" == k) ≡ false)

get-tag :
    (h : Host) (now id : String) (m : Fields) (k : String)
    → IsOwn k
    → get k (tag h now id m) ≡ get k m
unfolding tag
get-tag h now id m k (a, b, c, d) = simp (get-put, a, b, c, d)

-- Once it is tagged by whoever sends it, `m` is of one of the program's types.
abbrev pub IsSendable : Fields → Type 0
IsSendable m = (h : Host) (now id : String) → IsProper (tag h now id m)

module _ (h : Host) (now id : String) (m : Fields) (k : String) (o : IsOwn k) where
  pub own_text : HasText k m → HasText k (tag h now id m)
  own_text (t, e) = (t, ap as_text (get-tag h now id m k o) ∙ e)

  pub own_num : HasNum k m → HasNum k (tag h now id m)
  own_num (x, e) = (x, ap as_num (get-tag h now id m k o) ∙ e)

  pub own_bool : HasBool k m → HasBool k (tag h now id m)
  own_bool (b, e) = (b, ap as_bool (get-tag h now id m k o) ∙ e)

copy_data-IsSendable :
    (text : String) → IsSendable (field "type" (str "CopyData") (field "data" (str text) end))
unfolding get
copy_data-IsSendable text h now id =
    let m = field "type" (str "CopyData") (field "data" (str text) end) in
    Protocol.asks_copy (tag-type h now id m)
      (own_text h now id m "data" (refl, refl, refl, refl) (text, refl)) (id, tag-id h now id m)

open_url-IsSendable :
    (text : String) (html : Bool)
    → IsSendable
        (field "type" (str "OpenURL") (field "data" (str text) (field "is_html" (bool html) end)))
unfolding get
open_url-IsSendable text html h now id =
    let m =
      field "type" (str "OpenURL") (field "data" (str text) (field "is_html" (bool html) end)) in
    Protocol.asks_open (tag-type h now id m)
      (own_text h now id m "data" (refl, refl, refl, refl) (text, refl))
      (own_bool h now id m "is_html" (refl, refl, refl, refl) (html, refl)) (id, tag-id h now id m)

test_auth-IsSendable : IsSendable (field "type" (str "TestAuth") end)
unfolding get
test_auth-IsSendable h now id =
    let m = field "type" (str "TestAuth") end in
    Protocol.asks_test (tag-type h now id m) (id, tag-id h now id m)

notification-IsSendable :
    (n text url : String) (level : Float64)
    → IsSendable (
        field "type" (str "Notification") (
          field "notification-id"
            (str n)
            (field "message" (str text) (field "level" (num level) (field "url" (str url) end)))))
unfolding get
notification-IsSendable n text url level h now id =
    let m = field "type" (str "Notification") (
      field "notification-id" (str n)
        (field "message" (str text) (field "level" (num level) (field "url" (str url) end)))) in
    Protocol.notifies (tag-type h now id m)
      (own_text h now id m "notification-id" (refl, refl, refl, refl) (n, refl))
      (own_text h now id m "message" (refl, refl, refl, refl) (text, refl))
      (own_num h now id m "level" (refl, refl, refl, refl) (level, refl)) (id, tag-id h now id m)

abbrev pub Sends : Effect → Type 0
Sends (sends keys m) = IsSendable m
Sends (stores key) = Unit
Sends (runs argv) = Unit

request-Sends :
    (keys : List String) (m : Fields) (type id problem : String) (es : List Event)
    → IsSendable m
    → All Sends (trace (emit (sends keys m) >> await type id problem es))
request-Sends keys m type id problem es h =
    All-trace Sends (emit (sends keys m)) (λ _. await type id problem es) (h, tt)
      (λ u a e. rw (await-silent type id problem es) tt)

-- What remotecopy, openurl, the test of a key and notify send, whatever comes in meanwhile, are messages of
-- the program's types once they are tagged.
pub clients-Sends :
    (conn : Connection) (id text : String) (html : Bool) (n : String) (note : Notification)
    (keys : List String) (es : List Event)
    → All Sends (trace (run_remote_copy conn id text es))
      × All Sends (trace (run_open_url conn id text html es))
      × All Sends (trace (test_auth keys id es))
      × All Sends (trace (send_notification n conn note es))
unfolding run_remote_copy run_open_url test_auth send_notification
clients-Sends conn id text html n note keys es = (
  request-Sends conn.keys _ "DataCopied" id _ es (copy_data-IsSendable text),
  request-Sends conn.keys _ "URLOpened" id _ es (open_url-IsSendable text html),
  request-Sends keys _ "AuthValid" id _ es test_auth-IsSendable,
  request-Sends conn.keys _ "NotificationDisplayed" conn.id _ es
      (notification-IsSendable n note.message note.url note.level),
)
