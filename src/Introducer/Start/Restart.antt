-- ===== src/Introducer/Start/Restart.antt =====
-- A second start of an introducer that persists its key, in introducer.go.
use pmb.Base.{
  ap, ◌∙◌, String, ◌≡◌, refl, ◌⊎◌, inl, inr, true, false, Option, none, some, is_set, Bool-cases,
  Option-cases, arith,
}
use pmb.CredHelper.{
  Crocker, IsCrocker, secret, url, get_cred_helper_key, store_cred_helper_key, secret_of,
}
use pmb.Introducer.Start.{World, migrate_key, keep_new_key, persist_key}

module _ {S : Type 0} (c : Crocker S) where
  -- After a store, the key is found, or it failed and nothing changed.
  abbrev Kept : String → S → S × Option String → Type 0
  Kept key s (s', err) =
      ((get_cred_helper_key c s' ≡ secret key) × (err ≡ none))
      ⊎ ((e : String) × (s' ≡ s) × (err ≡ some e))

  module _ (l : IsCrocker c) where
    put-Kept : (s : S) (key : String) (r : S × Option String) → c.put s url key ≡ r → Kept key s r
    unfolding get_cred_helper_key
    put-Kept s key (s', none) e =
        let (f, g) = l.stored s s' url key e in inl (rw (get_cred_helper_key, f) g, refl)
    put-Kept s key (s', some x) e = inr (x, l.unstored s s' url key x e, refl)

    store-Kept : (s : S) (key : String) → Kept key s (store_cred_helper_key c s key)
    unfolding store_cred_helper_key
    store-Kept s key = elim (Option-cases (c.finds s)) [
      | inl f ↦ rw (store_cred_helper_key, f) (put-Kept s key (c.put s url key) refl)
      | inr (e, f) ↦ rw (store_cred_helper_key, f) (inr (e, refl, refl))
    ]

  from_helper :
      (w : World S) (g : String)
      → is_set (secret_of (get_cred_helper_key c w.helper)) ≡ true
      → persist_key c w g ≡ record w { env_key = secret_of (get_cred_helper_key c w.helper) }
  unfolding persist_key
  from_helper w g h = rw (persist_key, h)

  from_file :
      (w : World S) (key g : String)
      → is_set (secret_of (get_cred_helper_key c w.helper)) ≡ false
      → w.key_file ≡ some key
      → persist_key c w g ≡ migrate_key c w key
  unfolding persist_key
  from_file w key g h k = ground (arith, h, k)

  from_nowhere :
      (w : World S) (g : String)
      → is_set (secret_of (get_cred_helper_key c w.helper)) ≡ false
      → w.key_file ≡ none
      → persist_key c w g ≡ keep_new_key c w g
  unfolding persist_key
  from_nowhere w g h k = ground (arith, h, k)

  found :
      (w : World S) (key g : String)
      → get_cred_helper_key c w.helper ≡ secret key
      → is_set key ≡ true
      → (persist_key c w g).env_key ≡ key
  found w key g h k = ap (λ (v : World S). v.env_key) (from_helper w g (rw h k)) ∙ ap secret_of h

  in_file :
      (w : World S) (key g : String)
      → is_set (secret_of (get_cred_helper_key c w.helper)) ≡ false
      → w.key_file ≡ some key
      → (persist_key c w g).env_key ≡ key
  unfolding migrate_key
  in_file w key g h k = ap (λ (v : World S). v.env_key) (from_file w key g h k)

module _ {S : Type 0} (c : Crocker S) (l : IsCrocker c) where
  migrated :
      (w : World S) (key g : String)
      → is_set (secret_of (get_cred_helper_key c w.helper)) ≡ false
      → w.key_file ≡ some key
      → is_set key ≡ true
      → (persist_key c (migrate_key c w key) g).env_key ≡ key
  unfolding migrate_key
  migrated w key g h k n = elim (store-Kept c l w.helper key) [
    | inl (e, f) ↦ found c (migrate_key c w key) key g e n
    | inr (x, e, f) ↦ in_file c (migrate_key c w key) key g (rw e h) (rw f k)
  ]

  kept :
      (w : World S) (key g : String)
      → is_set (secret_of (get_cred_helper_key c w.helper)) ≡ false
      → w.write_fails ≡ false
      → is_set key ≡ true
      → (persist_key c (keep_new_key c w key) g).env_key ≡ key
  unfolding keep_new_key
  kept w key g h k n = elim (store-Kept c l w.helper key) [
    | inl (e, f) ↦ found c (keep_new_key c w key) key g e n
    | inr (x, e, f) ↦ in_file c (keep_new_key c w key) key g (rw e h) (rw (f, k))
  ]

-- An introducer that persists its key and can write its key file has the same key on the next start,
-- whatever key would be generated then: whether the helper had it, or it was read from the file, or
-- it was new, and whether the helper took it or not. The key of the first start is not empty.
pub persist_key-again :
    {S : Type 0} (c : Crocker S) (l : IsCrocker c) (w : World S) (first second : String)
    → w.write_fails ≡ false
    → is_set (persist_key c w first).env_key ≡ true
    → (persist_key c (persist_key c w first) second).env_key ≡ (persist_key c w first).env_key
unfolding migrate_key keep_new_key
persist_key-again c l w first second k n =
    elim (Bool-cases (is_set (secret_of (get_cred_helper_key c w.helper)))) [
      | inl h ↦
          rw (from_helper c w first h)
            (ap (λ (v : World _). v.env_key) (from_helper c (record w { env_key = _ }) second h))
      | inr h ↦ elim (Option-cases w.key_file) [
        | inl f ↦
            let e = from_nowhere c w first h f in rw e (kept c l w first second h k (rw e at n))
        | inr (key, f) ↦
            let e = from_file c w key first h f in rw e (migrated c l w key second h f (rw e at n))
      ]
    ]
