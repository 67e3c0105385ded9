-- ===== src/Key/Stored.antt =====
-- Keys that the commands of key.go and shell.go read, store and hand on, and what a later program makes
-- of them.
use pmb.Base.{
  String, ◌≡◌, ◌≢◌, refl, ap, Bool, true, Option, none, some, List, [], ◌∷◌, All, eq_iff, inl, inr,
  is_set, Option-cases, Bool-cases, arith,
}
use pmb.Base.Go.{done, trace}
use pmb.Base.Trim.{trim_space}
use pmb.Keys.{parse_keys, join_keys}
use pmb.Keys.Shape.{IsKey}
use pmb.Keys.Join.{parse_keys-join_keys, is_set-join_keys}
use pmb.CredHelper.{
  Crocker, IsCrocker, secret, url, get_cred_helper_key, store_cred_helper_key, secret_of,
}
use pmb.Client.{Connection}
use pmb.Connect.{Settings, Outside, get_config}
use pmb.Key.{
  Machine, Act, on_bus, prints, exports_key, starts, returns, exits, settings, get_key, stored,
  store_key, local_check, check_key, run_shell,
}
use pmb.Key.Trimmed.{parse_keys-trim_space}

-- The key that a text of the standard input gives has the keys of the same text in a file.
pub get_key-stdin :
    {S : Type 0} (c : Crocker S) (w : Machine S) (text path key_opt other_opt : String)
    → w.stdin ≡ inr text
    → w.file path ≡ some text
    → is_set path ≡ true
    → path ≢ "-"
    → (piped : String) × (read : String) × (get_key c w "-" key_opt ≡ inr piped)
      × (get_key c w path other_opt ≡ inr read)
      × (parse_keys piped ≡ parse_keys read)
unfolding get_key
get_key-stdin c w text path key_opt other_opt s f h n = (
  trim_space text,
  text,
  rw (get_key, s),
  ground (arith, eq_iff path "-"),
  parse_keys-trim_space text,
)

stored-returns :
    {S : Type 0} (c : Crocker S) (p : S × Option String) (s : S)
    → stored c p ≡ (s, done [] returns)
    → p ≡ (s, none)
stored-returns c (s', none) s h = ap (λ x. (x.0, none)) h
stored-returns c (s', some e) s h = absurd (ground arith)

store-found :
    {S : Type 0} (c : Crocker S) (l : IsCrocker c) (s s' : S) (key : String)
    → store_cred_helper_key c s key ≡ (s', none)
    → get_cred_helper_key c s' ≡ secret key
unfolding store_cred_helper_key get_cred_helper_key
store-found c l s s' key h = elim (Option-cases (c.finds s)) [
  | inl e ↦
      let (found, kept) = l.stored s s' url key (rw (store_cred_helper_key, e) at h) in
      rw (get_cred_helper_key, found) kept
  | inr (x, e) ↦ absurd (ground arith)
]

-- After `key store` has stored a key that is not empty, `key get --local-check` prints this key and exits
-- with 0, and a program with no PMB_KEY in its environment runs with it.
pub store_key-local_check :
    {S : Type 0} (c : Crocker S) (l : IsCrocker c) (w : Machine S)
    (file_opt key_opt key broker : String) (s : S)
    → get_key c w file_opt key_opt ≡ inr key
    → is_set key ≡ true
    → store_key c w file_opt key_opt ≡ (s, done [] returns)
    → (local_check c (record w { helper = s }) ≡ done (prints key ∷ []) (exits 0))
      × ((get_config (settings c (record w { helper = s; env_key = "" })) broker).key ≡ key)
unfolding store_key local_check get_config
store_key-local_check c l w file_opt key_opt key broker s g n h =
    let put : store_cred_helper_key c w.helper key ≡ (s, none) =
      stored-returns c (store_cred_helper_key c w.helper key) s (rw (store_key, g) at h) in
    let found : get_cred_helper_key c s ≡ secret key = store-found c l w.helper s key put in
    (rw (local_check, found, n), rw (found, n))

-- `key check` of a file that cannot be read is `key check` of the key in the credential helper.
pub check_key_unreadable :
    {S : Type 0} (c : Crocker S) (o : Outside) (w : Machine S) (broker id path key_opt : String)
    (trust_key : Bool)
    → is_set path ≡ true
    → path ≢ "-"
    → w.file path ≡ none
    → check_key c o w broker id trust_key path key_opt
      ≡ check_key c o w broker id trust_key "" (secret_of (get_cred_helper_key c w.helper))
unfolding check_key get_key get_config
check_key_unreadable c o w broker id path key_opt trust_key h n f =
    let empty : get_key c w path key_opt ≡ inr "" = ground (arith, eq_iff path "-") in
    rw (check_key, empty)
      (elim (Bool-cases (is_set (secret_of (get_cred_helper_key c w.helper)))) [
        | inl e ↦ rw e
        | inr e ↦ rw e
      ])

-- PMB_KEY behind these acts.
abbrev pub exported : List Act → String → String
exported [] key = key
exported (exports_key k ∷ t) key = exported t k
exported (on_bus e ∷ t) key = exported t key
exported (prints text ∷ t) key = exported t key
exported (starts command args ∷ t) key = exported t key

exported-run_shell :
    (conn : Connection) (shell : String) (failure : Option String) (key : String)
    → exported (trace (run_shell conn shell failure)) key ≡ join_keys conn.keys
unfolding run_shell
exported-run_shell conn shell none key = refl
exported-run_shell conn shell (some e) key = refl

-- In the subshell of a connection with keys, every program takes just these keys, in their order.
pub run_shell-get_config :
    (conn : Connection) (shell broker : String) (failure : Option String) (s : Settings)
    → conn.keys ≢ []
    → All IsKey conn.keys
    → parse_keys
        (get_config
          (record s { env_key = exported (trace (run_shell conn shell failure)) s.env_key })
          broker).key
      ≡ some conn.keys
unfolding run_shell get_config
run_shell-get_config conn shell broker failure s n h =
    let same : exported (trace (run_shell conn shell failure)) s.env_key ≡ join_keys conn.keys =
      exported-run_shell conn shell failure s.env_key in
    rw (same, is_set-join_keys conn.keys n h) (parse_keys-join_keys conn.keys n h)
