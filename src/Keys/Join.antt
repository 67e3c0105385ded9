-- ===== src/Keys/Join.antt =====
-- Keys joined by commas, as the shell, sub-connections and the clipboard pass them on, and parseKeys.
use text.Mathlib.TextLemmas.{cons-append, nil-append, append-nil}
use pmb.Base.{
  ℕ, zero, suc, String, ◌≡◌, ◌≢◌, refl, ◌∙◌, ap, true, some, List, [], ◌∷◌, ◌<>◌, is_set, All,
}
use pmb.Keys.{key_length, is_key_char, key_at, find_all, parse_keys, join_keys}
use pmb.Keys.Shape.{IsRun, IsKey}

key_at-run : (n : ℕ) (s t : String) → IsRun n s → key_at n (s <> t) ≡ some s
unfolding key_at
key_at-run zero String.[] t r = refl
key_at-run zero (String.◌∷◌ c s) t r = absurd r
key_at-run (suc n) String.[] t r = absurd r
key_at-run (suc n) (String.◌∷◌ c s) t r = rw cons-append (rw r.0 (rw (key_at-run n s t r.1)))

find_all-run : (n : ℕ) (s t : String) → IsRun n s → find_all n (s <> t) ≡ find_all zero t
unfolding find_all
find_all-run zero String.[] t r = rw nil-append
find_all-run zero (String.◌∷◌ c s) t r = absurd r
find_all-run (suc n) String.[] t r = absurd r
find_all-run (suc n) (String.◌∷◌ c s) t r = rw cons-append (find_all-run n s t r.1)

find_all-key : (key t : String) → IsKey key → find_all zero (key <> t) ≡ key ∷ find_all zero t
unfolding find_all
find_all-key String.[] t r = absurd r
find_all-key (String.◌∷◌ c s) t r =
    let hit = rw (cons-append c s t) at (key_at-run key_length (String.◌∷◌ c s) t r) in
    rw (cons-append c s t)
      (rw (find_all, hit) (ap (λ ks. String.◌∷◌ c s ∷ ks) (find_all-run 31 s t r.1)))

find_all-comma : (t : String) → find_all zero ("," <> t) ≡ find_all zero t
unfolding find_all is_key_char key_at
find_all-comma t = rw (cons-append "," "" t, nil-append t)

join_keys_lem : (keys : List String) → All IsKey keys → find_all zero (join_keys keys) ≡ keys
unfolding join_keys find_all
join_keys_lem [] h = refl
join_keys_lem (key ∷ []) h = rw (append-nil key) at (find_all-key key "" h.0)
join_keys_lem (key ∷ other ∷ keys) h =
    find_all-key key ("," <> join_keys (other ∷ keys)) h.0
    ∙ ap (λ ks. key ∷ ks)
        (find_all-comma (join_keys (other ∷ keys)) ∙ join_keys_lem (other ∷ keys) h.1)

-- What was joined is parsed back: the same keys in the same order.
pub parse_keys-join_keys :
    (keys : List String) → keys ≢ [] → All IsKey keys → parse_keys (join_keys keys) ≡ some keys
unfolding parse_keys
parse_keys-join_keys [] n h = absurd (n refl)
parse_keys-join_keys (key ∷ keys) n h = rw (join_keys_lem (key ∷ keys) h)

-- Joined keys are not the empty text.
pub is_set-join_keys :
    (keys : List String) → keys ≢ [] → All IsKey keys → is_set (join_keys keys) ≡ true
unfolding join_keys
is_set-join_keys [] n h = absurd (n refl)
is_set-join_keys (String.[] ∷ keys) n h = absurd h.0
is_set-join_keys (String.◌∷◌ c s ∷ []) n h = refl
is_set-join_keys (String.◌∷◌ c s ∷ other ∷ keys) n h =
    rw (cons-append c s ("," <> join_keys (other ∷ keys)))
