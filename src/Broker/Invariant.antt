-- ===== src/Broker/Invariant.antt =====
-- The well-formedness of a broker in broker.go, and of one that drops a client.
use pmb.Base.{
  ℕ, ◌≤◌, ◌≡◌, inl, inr, true, false, some, List, [], ◌∷◌, length, nat_eq, if◌then◌else◌,
  Bool-cases, arith,
}
use pmb.Broker.{Broker, capacity, contains, delete, update, close_channel}

abbrev pub Distinct : List ℕ → Type 0
Distinct [] = Unit
Distinct (c ∷ cs) = (contains c cs ≡ false) × Distinct cs

-- The clients in the map are distinct and their channels are open; no buffer exceeds its capacity.
pub record IsSound (b : Broker) : Type 0 where
  pub distinct : Distinct b.clients
  pub open_channel : (c : ℕ) → contains c b.clients ≡ true → (b.channel c).closed ≡ false
  pub bounded : (c : ℕ) → length (b.channel c).buffer ≤ capacity

pub contains-delete :
    (c d : ℕ) (cs : List ℕ)
    → contains d (delete c cs) ≡ (if nat_eq d c then false else contains d cs)
contains-delete c d [] = ground arith
contains-delete c d (e ∷ cs) = ground (arith, contains-delete c d cs)

delete-Distinct : (c : ℕ) (cs : List ℕ) → Distinct cs → Distinct (delete c cs)
delete-Distinct c [] h = tt
delete-Distinct c (d ∷ cs) h = elim (Bool-cases (nat_eq d c)) [
  | inl e ↦ rw e (delete-Distinct c cs h.1)
  | inr e ↦ rw e (rw (contains-delete c d cs) (ground arith), delete-Distinct c cs h.1)
]

-- The broker without a client, whose channel is closed.
abbrev pub dropped : ℕ → Broker → Broker
dropped c b = record b {
  clients = delete c b.clients;
  channel = update b.channel c (record { buffer = (b.channel c).buffer; closed = true });
}

module _ (c : ℕ) (b : Broker) (s : IsSound b) (h : contains c b.clients ≡ true) where
  pub close_channel-dropped :
      close_channel c (record b { clients = delete c b.clients }) ≡ some (dropped c b)
  unfolding close_channel
  close_channel-dropped = ground (arith, s.open_channel c h)

  pub dropped-IsSound : IsSound (dropped c b)
  dropped-IsSound = record {
    distinct = delete-Distinct c b.clients s.distinct;
    open_channel = λ d k. ground (arith, s.open_channel d, contains-delete c d b.clients);
    bounded = λ d. ground (arith, s.bounded d, s.bounded c);
  }
