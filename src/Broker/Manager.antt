-- ===== src/Broker/Manager.antt =====
-- runBrokerManager of broker.go: brokers by realm.
use pmb.Base.{
  ◌∙◌, Bool-cases, nat_eq, ◌&&◌, ℕ, String, ◌≡◌, ◌≢◌, refl, inl, inr, Bool, suc, true, false, ◌||◌,
  some, List, [], ◌∷◌, All, ◌==◌, eq_iff, if◌then◌else◌, arith,
}
use pmb.Broker.{Broker, Brokers, contains, or_new, on_add, find, store, on_client, accept, on_tick}

find-store :
    (realm r : String) (b : Broker) (m : Brokers)
    → find r (store realm b m) ≡ (if realm == r then some b else find r m)
unfolding find store
find-store realm r b [] = refl
find-store realm r b ((k, old) ∷ m) =
    ground (arith, eq_iff realm r, eq_iff k r, eq_iff k realm, find-store realm r b m)

on_add-contains :
    (c d : ℕ) (b : Broker) → contains d (on_add c b).clients ≡ (nat_eq c d || contains d b.clients)
unfolding on_add
on_add-contains c d b = ground arith

-- The client stands in the map of the realm's broker.
abbrev pub has_client : String → ℕ → Brokers → Bool
has_client realm c m = contains c (or_new (find realm m)).clients

-- When a client of a realm arrives, the clients of every realm are those that were there, with the
-- new one in its own realm and nowhere else.
pub on_client-has_client :
    (realm r : String) (c d : ℕ) (m : Brokers)
    → has_client r d (on_client realm c m) ≡ ((realm == r && nat_eq c d) || has_client r d m)
unfolding on_client
on_client-has_client realm r c d m = elim (Bool-cases (realm == r)) [
  | inl e ↦
      rw (find-store realm r (on_add c (or_new (find realm m))) m, e)
        (on_add-contains c d (or_new (find realm m)) ∙ rw ((eq_iff realm r).0 e))
  | inr e ↦ rw (find-store realm r (on_add c (or_new (find realm m))) m, e)
]

or_swap : (a b c : Bool) → (a || (b || c)) ≡ ((b || a) || c)
or_swap true true c = refl
or_swap true false c = refl
or_swap false true c = refl
or_swap false false c = refl

-- The client number `d` was made for a request of this path, the next number being `n`.
abbrev pub made_for : String → ℕ → ℕ → List (String × Bool) → Bool
made_for r d n [] = false
made_for r d n ((path, upgraded) ∷ rs) =
    (upgraded && (path == r && nat_eq n d)) || made_for r d (if upgraded then suc n else n) rs

-- Realms are apart: whatever requests come, the broker of a realm has exactly the clients that were made
-- for requests of that path, beside those it had.
pub accept-has_client :
    (r : String) (d n : ℕ) (rs : List (String × Bool)) (m : Brokers)
    → has_client r d (accept n rs m) ≡ (made_for r d n rs || has_client r d m)
unfolding accept
accept-has_client r d n [] m = refl
accept-has_client r d n ((path, true) ∷ rs) m =
    accept-has_client r d (suc n) rs (on_client path n m)
    ∙ rw (on_client-has_client path r n d m)
        (or_swap (made_for r d (suc n) rs) (path == r && nat_eq n d) (has_client r d m))
accept-has_client r d n ((path, false) ∷ rs) m = accept-has_client r d n rs m

-- The ticker keeps the broker of a realm that has clients, as it is.
pub on_tick-find :
    (realm : String) (m : Brokers) (b : Broker)
    → find realm m ≡ some b
    → b.clients ≢ []
    → find realm (on_tick m).0 ≡ some b
unfolding on_tick find
on_tick-find realm [] b h n = h
on_tick-find realm ((r, old) ∷ m) b h n = ground (arith, on_tick-find realm m b)

-- The ticker leaves no broker without clients, and those that leave the map are retired and empty.
pub on_tick-All :
    (m : Brokers)
    → All (λ e. e.1.clients ≢ []) (on_tick m).0
      × All (λ b. (b.retired ≡ true) × (b.clients ≡ [])) (on_tick m).1
unfolding on_tick
on_tick-All [] = (tt, tt)
on_tick-All ((r, b) ∷ m) = by_clients (on_tick-All m) b.clients refl
  where
    by_clients :
        (All (λ e. e.1.clients ≢ []) (on_tick m).0
          × All (λ b. (b.retired ≡ true) × (b.clients ≡ [])) (on_tick m).1)
        → (cs : List ℕ) → b.clients ≡ cs
        → All (λ e. e.1.clients ≢ []) (on_tick ((r, b) ∷ m)).0
          × All (λ b. (b.retired ≡ true) × (b.clients ≡ [])) (on_tick ((r, b) ∷ m)).1
    by_clients h [] e = rw e (h.0, ((refl, refl), h.1))
    by_clients h (c ∷ cs) e = rw e ((λ k. cc k, h.0), h.1)
