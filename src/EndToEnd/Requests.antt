-- ===== src/EndToEnd/Requests.antt =====
-- remotecopy.go and testAuth of api/pmb.go on one side of the broker, runIntroducer of introducer.go on the
-- other.
use pmb.Base.{String, ◌≡◌, refl, inl, true, some, List, [], ◌∷◌, ◌++◌, Any, All, Bytes, map}
use pmb.Base.Go.{done, trace}
use pmb.Json.{Fields, str, end, field, get, text_at}
use pmb.Wire.{Codec, IsCodec, Message, tag}
use pmb.Wire.Sent.{tag-type, tag-id}
use pmb.Wire.RoundTrip.{received}
use pmb.Broker.Relay.Frames.{Visible}
use pmb.Client.{incoming, await, test_auth}
use pmb.Client.Await.{IsOther}
use pmb.Client
use pmb.Connect.Connects.{await-reply}
use pmb.Desktop.{sends, runs}
use pmb.Introducer.{Setup, message, reply, serve_test, serve, on_message, step}
use pmb.Introducer.Replies.{tag-origin}
use pmb.EndToEnd.{End, Link, Arrives, Link-Arrives}

-- What runRemoteCopy and testAuth send.
abbrev pub copy_data : String → Fields
copy_data text = field "type" (str "CopyData") (field "data" (str text) end)

abbrev pub test : Fields
test = field "type" (str "TestAuth") end

-- Among the effects the text is handed to a program, and the reply is sent.
abbrev pub Copies : Setup → String → String → Message → Type 0
Copies s text id n =
    Any (λ a. (argv : List String) × (a ≡ runs argv text))
      (trace (step s true (message n.contents)))
    × Any (λ a. a ≡ sends (reply "DataCopied" id)) (trace (step s true (message n.contents)))

serves_test :
    (s : Setup) (m : Fields) (id : String)
    → text_at "type" m ≡ some "TestAuth"
    → text_at "id" m ≡ some id
    → Any (λ a. a ≡ sends (reply "AuthValid" id)) (trace (step s true (message m)))
unfolding step on_message serve serve_test get
serves_test s m id e f = rw (e, f) (inl refl)

-- A reply, tagged by whoever sends it, ends the wait.
await-answer :
    (type problem now : String) (client desktop : End) (json : Bytes) (others : List Fields)
    (rest : List Client.Event)
    → All (IsOther type client.id) others
    → await type client.id problem (
        map incoming others
        ++ incoming (tag desktop.host now desktop.id (reply type client.id)) ∷ rest)
      ≡ done [] tt
unfolding get
await-answer type problem now client desktop json others rest a =
    await-reply type client.id problem (tag desktop.host now desktop.id (reply type client.id))
      others rest
      (
        tag-type desktop.host now desktop.id (reply type client.id),
        tag-origin desktop.host now desktop.id (reply type client.id),
      )
      a

module _ (c : Codec) (l : IsCodec c) (visible : (b : Bytes) → All Visible (c.base64_encode b))
    (s : Setup) (client desktop : End) (sent answered : String) (ask answer : Bytes) where
  -- A client whose key an active introducer has, too, is confirmed over the broker: the TestAuth of
  -- testAuth arrives as a message to which the introducer sends a reply, which arrives at the client
  -- as a message that, behind any others, ends testAuth without an error.
  pub test_auth-Arrives :
      (keys : List String) (others : List Fields) (rest : List Client.Event)
      → Link c client desktop sent test ask
      → Link c desktop client answered (reply "AuthValid" client.id) answer
      → All (IsOther "AuthValid" client.id) others
      → (n back : Message) × Arrives c client desktop sent test n
        × Any
            (λ a. a ≡ sends (reply "AuthValid" client.id))
            (trace (step s true (message n.contents)))
        × Arrives c desktop client answered (reply "AuthValid" client.id) back
        × (test_auth keys client.id (map incoming others ++ incoming back.contents ∷ rest)
            ≡ done (Client.sends keys test ∷ []) tt)
  unfolding test_auth get
  test_auth-Arrives keys others rest there home a =
      let tagged = tag client.host sent client.id test in
      let ended =
        await-answer "AuthValid" "Auth key was invalid." answered client desktop answer others rest
          a in
      (
        received tagged ask,
        received (tag desktop.host answered desktop.id (reply "AuthValid" client.id)) answer,
        Link-Arrives c l client desktop sent test ask visible there,
        serves_test s tagged client.id (tag-type client.host sent client.id test)
            (tag-id client.host sent client.id test),
        Link-Arrives c l desktop client answered (reply "AuthValid" client.id) answer visible home,
        rw (test_auth, ended) refl,
      )
