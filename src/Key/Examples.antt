-- ===== src/Key/Examples.antt =====
-- The commands of key.go at concrete inputs.
use pmb.Base.{String, ◌≡◌, refl, Option, none, some, [], ◌∷◌, arith, ◌==◌, inr, if◌then◌else◌}
use pmb.Base.Go.{done}
use pmb.CredHelper.{Crocker, IsCrocker, secret, refused, store_cred_helper_key}
use pmb.Connect.{get_config}
use pmb.Key.{Machine, prints, exits, settings, get_key, store_key, local_check}
use pmb.Key.Stored.{store_key-local_check}

abbrev key : String
key = "0123456789abcdef0123456789abcdef"

-- A helper that holds one secret.
abbrev crocker : Crocker (Option String)
crocker = record {
  finds = λ s. none;
  get = λ s url. elim s [ none ↦ refused "not found" | some k ↦ secret k ];
  put = λ s url k. (some k, none);
  erase = λ s url. (none, none);
}

crocker-IsCrocker : IsCrocker crocker
crocker-IsCrocker = record {
  stored = λ s s' url k e. (refl, ground arith);
  unstored = λ s s' url k x e. cc;
}

abbrev machine : Machine (Option String)
machine = record {
  helper = some key;
  file = λ path. if path == "key" then some "0123456789abcdef0123456789abcdef\n" else none;
  stdin = inr "0123456789abcdef0123456789abcdef\n";
  env_broker = "";
  env_key = "";
  conf_broker = none;
}

store_key-local_check_example :
    (local_check crocker (record machine { helper = some key }) ≡ done (prints key ∷ []) (exits 0))
    × ((get_config (settings crocker (record machine { helper = some key; env_key = "" })) "").key
        ≡ key)
unfolding get_key store_key store_cred_helper_key
store_key-local_check_example =
    store_key-local_check crocker crocker-IsCrocker machine "" key key "" (some key) refl refl refl
