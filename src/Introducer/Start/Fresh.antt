-- ===== src/Introducer/Start/Fresh.antt =====
-- A new key of an introducer of introducer.go, from the random text to the service.
use pmb.Base.{ℕ, String, ◌≡◌, true, false, none, some, List, [], ◌∷◌, is_set, arith}
use pmb.Base.Go.{after-nil, done, lift, ◌>>=◌}
use pmb.Keys.{join_keys}
use pmb.Keys.Shape.{IsKey}
use pmb.Keys.Join.{is_set-join_keys}
use pmb.Random.{generate_random_string}
use pmb.Random.Bounds.{Draws, generate_random_string-IsRun, parse_keys-one}
use pmb.CredHelper.{Crocker}
use pmb.Connect.{
  Transport, Outside, Settings, transport_of, connect, verify_keys, settle_keys, connect_with_key,
  connect_introducer, get_config,
}
use pmb.Launchd.{Mac}
use pmb.Introducer.{Setup, Event, run_introducer}
use pmb.Introducer.Start.{
  World, choose_key, Command, serves, introducer_name, execute_with, execute,
}

is_set-key : (key : String) → IsKey key → is_set key ≡ true
unfolding join_keys
is_set-key key k = is_set-join_keys (key ∷ []) (λ e. cc e) (k, tt)

connect_introducer-key :
    (o : Outside) (broker key name : String) (via : Transport)
    → is_set broker ≡ true
    → transport_of broker ≡ some via
    → o.dial via broker name "" ≡ none
    → IsKey key
    → connect_introducer o (record { broker = broker; key = key }) name
      ≡ done [] (record { id = name; keys = key ∷ [] })
unfolding connect_introducer connect_with_key connect settle_keys verify_keys
connect_introducer-key o broker key name via b t d k =
    ground (arith, is_set-key key k, parse_keys-one key k)

with_key :
    (x : Command) (s : Settings) (key : String) (o : Outside) (mac : Mac) (setup : Setup)
    (es : List Event) (via : Transport)
    → is_set x.osx ≡ false
    → is_set x.broker_uri ≡ true
    → transport_of x.broker_uri ≡ some via
    → o.dial via x.broker_uri (introducer_name x.name x.hostname x.suffix) "" ≡ none
    → IsKey key
    → execute_with x s key o mac setup es ≡ (
        lift serves (run_introducer (record setup { keys = key ∷ [] }) es) >>= λ active. done [] tt)
unfolding execute_with get_config
with_key x s key o mac setup es via n b t d k =
    rw (n, b, is_set-key key k)
      (rw
        (connect_introducer-key o x.broker_uri key (introducer_name x.name x.hostname x.suffix) via
          b t d k)
        (after-nil _))

-- An introducer that does not persist its key, for draws below 36 and a broker that can be reached:
-- the generated key is 32 characters of [a-z0-9], and the service runs with this key and no other,
-- with nothing sent before it.
pub execute_fresh :
    {S : Type 0} (draw : ℕ → ℕ) (i : ℕ) (c : Crocker S) (x : Command) (s : Settings) (w : World S)
    (o : Outside) (mac : Mac) (setup : Setup) (es : List Event) (via : Transport)
    → Draws draw
    → x.persist ≡ false
    → is_set x.osx ≡ false
    → is_set x.broker_uri ≡ true
    → transport_of x.broker_uri ≡ some via
    → o.dial via x.broker_uri (introducer_name x.name x.hostname x.suffix) "" ≡ none
    → (key : String) × (generate_random_string draw i 32 ≡ some key)
      × IsKey key
      × ((execute c x s w key o mac setup es).1 ≡ (
          lift serves (run_introducer (record setup { keys = key ∷ [] }) es) >>= λ active.
          done [] tt))
unfolding execute choose_key execute_with
execute_fresh draw i c x s w o mac setup es via r p n b t d =
    let (key, e, k, _) = generate_random_string-IsRun draw i 32 r in
    (key, e, k, rw p (with_key x s key o mac setup es via n b t d k))
