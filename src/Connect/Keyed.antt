-- ===== src/Connect/Keyed.antt =====
-- What connectWithKey and its callers in api/pmb.go have settled when they return a connection.
use pmb.Base.{
  String, ◌≡◌, ◌≢◌, inl, inr, Bool, true, false, not, ◌&&◌, Option, none, some, List, [], ◌∷◌, All,
  Any, is_set, Bool-cases, arith,
}
use pmb.Base.Go.{Go, done, fails, panics, waits, rescue, or_fail, ◌>>=◌, >>=-eq-done, after-eq-done}
use pmb.Json.{Fields, str, end, field}
use pmb.Keys.{parse_keys}
use pmb.Keys.Shape.{IsKey, parse_keys-IsKey}
use pmb.Keys.Join.{parse_keys-join_keys, is_set-join_keys}
use pmb.Client.{Effect, sends, stores, Event, incoming, await, test_auth, Connection}
use pmb.Connect.{
  request_key, Round, try_key, key_loop, Outside, Transport, transport_of, connect, settle_keys,
  verify_keys, connect_with_key, Config, connect_sub_client,
}
use pmb.Client.Await.{IsReply, First, await-Ended}

-- Among these events an AuthValid for `id` came before the timer.
abbrev pub Verified : String → List Event → Type 0
Verified id es = (m : Fields) × IsReply "AuthValid" id m × First "AuthValid" id (incoming m) es

test_auth-Verified :
    (keys : List String) (id : String) (es : List Event) {t : List Effect}
    → test_auth keys id es ≡ done t tt
    → Verified id es
unfolding test_auth
test_auth-Verified keys id es h =
    let (v, e) =
      after-eq-done (sends keys (field "type" (str "TestAuth") end) ∷ [])
        (await "AuthValid" id "Auth key was invalid." es) h in
    rw e at (await-Ended "AuthValid" id "Auth key was invalid." es)

-- The keys are keys, and if a check was wanted, it succeeded in one of the rounds.
pub record Settled (id : String) (wanted : Bool) (tests : List (List Event)) (keys : List String)
    : Type 0 where
  pub some_key : keys ≢ []
  pub all_keys : All IsKey keys
  pub verified : wanted ≡ true → Any (Verified id) tests

abbrev pub tests_of : List Round → List (List Event)
tests_of [] = []
tests_of (r ∷ rs) = r.events ∷ tests_of rs

rescue-none :
    {A : Type 0} (g : Go Effect A) {t : List Effect}
    → rescue g ≡ done t none
    → (a : A) × (g ≡ done t a)
rescue-none (done t a) h = (a, ground arith)
rescue-none (fails t e) h = cc
rescue-none (panics t) h = cc
rescue-none (waits t) h = cc

or_fail-some :
    {A : Type 0} (o : Option A) (e : String) {u : List Effect} {a : A}
    → or_fail o e ≡ done u a
    → o ≡ some a
or_fail-some none e h = cc
or_fail-some (some a) e h = ground arith

verify_keys-Settled :
    (wanted : Bool) (id : String) (es : List Event) (keys ks : List String) {t : List Effect}
    (more : List (List Event))
    → (keys ≢ [])
    → All IsKey keys
    → verify_keys wanted id es keys ≡ done t ks
    → Settled id wanted (es ∷ more) ks
unfolding verify_keys
verify_keys-Settled true id es keys ks more n a h =
    let (u, x, e, v, g) = >>=-eq-done (test_auth keys id es) (λ _. done [] keys) h in
    let same : keys ≡ ks = ground arith in
    rw (← same)
      (record { some_key = n; all_keys = a; verified = λ _. inl (test_auth-Verified keys id es e) })
verify_keys-Settled false id es keys ks more n a h =
    let same : keys ≡ ks = ground arith in
    rw (← same) (record { some_key = n; all_keys = a; verified = λ x. cc })

Settled-more :
    (id : String) (wanted : Bool) (es : List Event) (tests : List (List Event)) (keys : List String)
    → Settled id wanted tests keys
    → Settled id wanted (es ∷ tests) keys
Settled-more id wanted es tests keys s = record {
  some_key = s.some_key;
  all_keys = s.all_keys;
  verified = λ w. inr (s.verified w);
}

try_key-Settled :
    (id : String) (check : Bool) (inkeys : String) (es : List Event) (keys ks : List String)
    (tests : List (List Event)) (again : Go Effect (List String)) {t : List Effect}
    → parse_keys inkeys ≡ some keys
    → ((v : List Effect) → again ≡ done v ks → Settled id check tests ks)
    → try_key id check inkeys es keys again ≡ done t ks
    → Settled id check (es ∷ tests) ks
unfolding try_key
try_key-Settled id false inkeys es keys ks tests again p loop h =
    let same : keys ≡ ks = ground arith in
    let (n, a, _) = parse_keys-IsKey inkeys keys p in
    rw (← same) (record { some_key = n; all_keys = a; verified = λ x. cc })
try_key-Settled id true inkeys es keys ks tests again p loop h =
    let (u, refused, e, v, g) =
      >>=-eq-done (rescue (test_auth keys id es))
        (λ refused. elim refused [ none ↦ done (stores inkeys ∷ []) keys | some e ↦ again ]) h in
    by_answer refused e g
  where
    by_answer :
        {u v : List Effect} (refused : Option String)
        → rescue (test_auth keys id es) ≡ done u refused
        → (elim refused as (λ _. Go Effect (List String)) [
          | none ↦ done (stores inkeys ∷ []) keys
          | some e ↦ again
        ])
          ≡ done v ks
        → Settled id true (es ∷ tests) ks
    by_answer none e g =
        let same : keys ≡ ks = ground arith in
        let (n, a, _) = parse_keys-IsKey inkeys keys p in
        let (x, ok) = rescue-none (test_auth keys id es) e in
        rw (← same) (record {
          some_key = n;
          all_keys = a;
          verified = λ _. inl (test_auth-Verified keys id es ok);
        })
    by_answer (some x) e g = Settled-more id true es tests ks (loop _ g)

key_loop-Settled :
    (id : String) (check : Bool) (rs : List Round) (ks : List String) {t : List Effect}
    → key_loop id check rs ≡ done t ks
    → Settled id check (tests_of rs) ks
unfolding key_loop
key_loop-Settled id check [] ks h = cc
key_loop-Settled id check (r ∷ rs) ks h =
    let (u, inkeys, e, v, g) =
      >>=-eq-done (request_key [] r.prompt)
        (λ inkeys. or_fail (parse_keys inkeys) "Auth key(s) invalid." >>= λ keys.
          try_key id check inkeys r.events keys (key_loop id check rs))
        h in
    let (u', keys, e', v', g') =
      >>=-eq-done (or_fail (parse_keys inkeys) "Auth key(s) invalid.")
        (λ keys. try_key id check inkeys r.events keys (key_loop id check rs)) g in
    try_key-Settled id check inkeys r.events keys ks (tests_of rs) (key_loop id check rs)
      (or_fail-some (parse_keys inkeys) _ e') (λ w q. key_loop-Settled id check rs ks q) g'

settle_keys-Settled :
    (o : Outside) (id key : String) (is_introducer check : Bool) (ks : List String)
    {t : List Effect}
    → settle_keys o id key is_introducer check ≡ done t ks
    → Settled id (not is_introducer && check) (o.events ∷ tests_of o.rounds) ks
unfolding settle_keys
settle_keys-Settled o id key is_introducer check ks h = elim (Bool-cases (is_set key)) [
  | inl e ↦
      let (u, keys, p, v, g) =
        >>=-eq-done (or_fail (parse_keys key) "Auth key(s) invalid.")
          (verify_keys (not is_introducer && check) id o.events) (rw (settle_keys, e) at h) in
      let (n, a, _) = parse_keys-IsKey key keys (or_fail-some (parse_keys key) _ p) in
      verify_keys-Settled (not is_introducer && check) id o.events keys ks (tests_of o.rounds) n a g
  | inr e ↦
      let s = key_loop-Settled id check o.rounds ks (rw (settle_keys, e) at h) in
      record {
        some_key = s.some_key;
        all_keys = s.all_keys;
        verified = λ w. inr (s.verified (wants_check is_introducer check w));
      }
]
  where
    wants_check : (i c : Bool) → (not i && c) ≡ true → c ≡ true
    wants_check true c w = cc
    wants_check false c w = w

-- If connectWithKey returns a connection, it has the id that was asked for and one key or more, all
-- of 32 characters from [a-z0-9]; and unless it is an introducer or no check was asked for, an
-- AuthValid for this id came, before the timer, in one of the tests of a key.
pub connect_with_key-Settled :
    (o : Outside) (uri id sub key : String) (is_introducer check : Bool) (conn : Connection)
    {t : List Effect}
    → connect_with_key o uri id sub key is_introducer check ≡ done t conn
    → (conn.id ≡ id)
      × Settled id (not is_introducer && check) (o.events ∷ tests_of o.rounds) conn.keys
unfolding connect_with_key
connect_with_key-Settled o uri id sub key is_introducer check conn h =
    let (u, x, e, v, g) =
      >>=-eq-done (connect o.dial uri id sub)
        (λ _. settle_keys o id key is_introducer check >>= named) h in
    let (u', keys, e', v', g') = >>=-eq-done (settle_keys o id key is_introducer check) named g in
    let s = settle_keys-Settled o id key is_introducer check keys e' in
    let same : keys ≡ conn.keys = ground arith in (ground arith, rw (← same) s)
  where
    named : List String → Go Effect Connection
    named keys = done [] (record { id = id; keys = keys })

-- A sub-connection of a connection with valid keys gets its id and exactly its keys, in order, with
-- nothing sent, whenever the transport of a configured broker connects.
pub connect_sub_client-keys :
    (o : Outside) (c : Config) (conn : Connection) (sub : String) (tr : Transport)
    → is_set c.broker ≡ true
    → transport_of c.broker ≡ some tr
    → o.dial tr c.broker conn.id sub ≡ none
    → conn.keys ≢ []
    → All IsKey conn.keys
    → connect_sub_client o c conn sub ≡ done [] conn
unfolding connect_sub_client connect_with_key connect settle_keys verify_keys
connect_sub_client-keys o c conn sub tr b e d n k =
    ground (arith, is_set-join_keys conn.keys n k, parse_keys-join_keys conn.keys n k)
