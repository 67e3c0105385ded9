-- ===== src/Connect.antt =====
-- api/pmb.go: where the broker and the key come from, how a client connects, and how its keys are
-- checked and asked for.
pub mod Secrecy
pub mod Keyed
pub mod Connects
mod Examples
use text.Mathlib.Text.{starts_with}
use pmb.Base.{
  String, Bool, true, false, not, ◌&&◌, Option, none, some, List, [], ◌∷◌, is_set, if◌then◌else◌,
}
use pmb.Base.Go.{◌>>=◌, ◌>>◌, Go, done, fails, waits, or_fail, rescue, emit}
use pmb.Json.{str, end, field}
use pmb.Keys.{parse_keys, join_keys}
use pmb.Client.{Effect, Event, test_auth, Connection, sends, stores}

-- What the user typed at requestKey, or how the prompt failed.
pub data Prompt : Type 0 where
  typed : String → Prompt
  interrupted : Prompt
  prompt_error : String → Prompt

-- requestKey: it asks with no keys set, so the request goes out in the clear.
unfoldable pub request_key : List String → Prompt → Go Effect String
request_key keys p = do
  emit (sends keys (field "type" (str "RequestAuth") end))
  elim p [
    | typed s ↦ done [] s
    | interrupted ↦ fails [] "interrupted"
    | prompt_error e ↦ fails [] e
  ]

-- One round of the loop of connectWithKey: the prompt, and what arrives while the key is tested.
pub record Round : Type 0 where
  pub prompt : Prompt
  pub events : List Event

-- What the loop of connectWithKey does with a key: `again` is the rest of the loop.
unfoldable pub try_key :
    String
    → Bool
    → String
    → List Event
    → List String
    → Go Effect (List String)
    → Go Effect (List String)
try_key id check_key inkeys es keys again =
    if check_key
    then (do
      refused ← rescue (test_auth keys id es)
      elim refused [ none ↦ done (stores inkeys ∷ []) keys | some e ↦ again ])
    else done [] keys

-- The loop of connectWithKey where no key is configured; it goes round until a key is accepted.
unfoldable pub key_loop : String → Bool → List Round → Go Effect (List String)
key_loop id check_key [] = waits []
key_loop id check_key (r ∷ rs) = do
  inkeys ← request_key [] r.prompt
  keys ← or_fail (parse_keys inkeys) "Auth key(s) invalid."
  try_key id check_key inkeys r.events keys (key_loop id check_key rs)

pub data Transport : Type 0 where
  ws amqp : Transport

-- connect: the transport by the prefix of the URI.
unfoldable pub transport_of : String → Option Transport
transport_of uri =
    if starts_with uri "ws" then some ws else if starts_with uri "amqp" then some amqp else none

-- connect. `dial` is what connectWS or connectAMQP gives for the URI, id and sub: `some` an error.
unfoldable pub connect :
    (Transport → String → String → String → Option String)
    → String
    → String
    → String
    → Go Effect Unit
unfolding transport_of
connect dial uri id sub = elim (transport_of uri) [
  | none ↦ fails [] "Unknown PMB URI"
  | some t ↦ elim (dial t uri id sub) [ none ↦ done [] tt | some e ↦ fails [] e ]
]

-- What a connection attempt meets: the transport, the events while a configured key is tested, and
-- the rounds of the key loop.
pub record Outside : Type 0 where
  pub dial : Transport → String → String → String → Option String
  pub events : List Event
  pub rounds : List Round

-- The check of a configured key in connectWithKey.
unfoldable pub verify_keys : Bool → String → List Event → List String → Go Effect (List String)
verify_keys wanted id es keys =
    if wanted then (do test_auth keys id es; done [] keys) else done [] keys

-- The keys that connectWithKey settles on, before it returns the connection.
unfoldable pub settle_keys : Outside → String → String → Bool → Bool → Go Effect (List String)
settle_keys o id key is_introducer check_key =
    if is_set key
    then (do
      keys ← or_fail (parse_keys key) "Auth key(s) invalid."
      verify_keys (not is_introducer && check_key) id o.events keys)
    else key_loop id check_key o.rounds

-- connectWithKey
unfoldable pub connect_with_key :
    Outside → String → String → String → String → Bool → Bool → Go Effect Connection
connect_with_key o uri id sub key is_introducer check_key = do
  connect o.dial uri id sub
  keys ← settle_keys o id key is_introducer check_key
  done [] (record { id = id; keys = keys })

-- GetPMB's map: the values under "broker" and "key", empty where the key is missing.
pub record Config : Type 0 where
  pub broker : String
  pub key : String

-- What getConfig looks at: two variables of the environment, the config file (`none` if it cannot
-- be read) and the credential helper (empty if it fails).
pub record Settings : Type 0 where
  pub env_broker : String
  pub conf_broker : Option String
  pub env_key : String
  pub helper_key : String

-- getConfig
unfoldable pub get_config : Settings → String → Config
get_config s broker_uri =
    let conf_broker : String = elim s.conf_broker [ none ↦ "" | some uri ↦ uri ] in
    record {
      broker =
          if is_set broker_uri
          then broker_uri
          else if is_set s.env_broker
          then s.env_broker
          else if is_set conf_broker
          then conf_broker
          else "";
      key =
          if is_set s.env_key then s.env_key else if is_set s.helper_key then s.helper_key else "";
    }

abbrev pub no_uri : String
no_uri = "No URI found, use '-p' to specify one"

-- ConnectIntroducer, ConnectClient, ConnectSubClient and GetConnection.
unfoldable pub connect_introducer : Outside → Config → String → Go Effect Connection
connect_introducer o c id =
    if is_set c.broker then connect_with_key o c.broker id "" c.key true true else fails [] no_uri

unfoldable pub connect_client : Outside → Config → String → Bool → Go Effect Connection
connect_client o c id check_key =
    if is_set c.broker
    then connect_with_key o c.broker id "" c.key false check_key
    else fails [] no_uri

unfoldable pub connect_sub_client : Outside → Config → Connection → String → Go Effect Connection
connect_sub_client o c conn sub =
    if is_set c.broker
    then connect_with_key o c.broker conn.id sub (join_keys conn.keys) false false
    else fails [] no_uri

unfoldable pub get_connection : Outside → Config → String → Bool → Go Effect Connection
get_connection o c id is_introducer =
    if is_set c.broker
    then connect_with_key o c.broker id "" c.key is_introducer true
    else fails [] no_uri

-- copyKey, behind CopyKey: ask the introducer to copy the key, and wait until the request is sent.
unfoldable pub copy_key : Outside → Config → String → Go Effect Connection
copy_key o c id =
    if is_set c.broker
    then (do
      connect o.dial c.broker id ""
      emit (sends [] (field "type" (str "RequestAuth") end))
      done [] (record { id = id; keys = [] }))
    else fails [] no_uri
