-- ===== src/Broker/Broadcast.antt =====
-- What a broadcast of Broker.run in broker.go does to each client.
use pmb.Base.{
  ℕ, ◌≡◌, inl, inr, refl, ◌∙◌, Bool, true, false, some, List, [], ◌∷◌, ◌++◌, Bytes, length,
  length-append, ltb, if◌then◌else◌, Bool-cases, arith,
}
use pmb.Broker.{Broker, Channel, capacity, contains, update, offer, offer_all}
use pmb.Broker.Invariant.{
  Distinct, IsSound, dropped, close_channel-dropped, dropped-IsSound, contains-delete,
}

-- The client's buffer has room for one more message.
abbrev pub has_room : Broker → ℕ → Bool
has_room b c = ltb (length (b.channel c).buffer) capacity

-- The channel of a client in the map after a broadcast: the message is last, or the channel is closed.
abbrev pub served : Bytes → Broker → ℕ → Channel
served msg b c =
    if has_room b c
    then record { buffer = (b.channel c).buffer ++ msg ∷ []; closed = false }
    else record { buffer = (b.channel c).buffer; closed = true }

-- `b'` is `b` after the clients `cs` had the message: they are served, and stay in the map if they
-- had room; of all others nothing changed.
pub record Served (msg : Bytes) (b : Broker) (cs : List ℕ) (b' : Broker) : Type 0 where
  pub sound : IsSound b'
  pub retired : b'.retired ≡ b.retired
  pub channel : (c : ℕ) → b'.channel c ≡ (if contains c cs then served msg b c else b.channel c)
  pub member :
      (c : ℕ)
      → contains c b'.clients ≡ (if contains c cs then has_room b c else contains c b.clients)

module _ (msg : Bytes) where
  offer_room :
      (c : ℕ) (b : Broker)
      → IsSound b
      → contains c b.clients ≡ true
      → has_room b c ≡ true
      → (b' : Broker) × (offer msg c b ≡ some b') × Served msg b (c ∷ []) b'
  unfolding offer
  offer_room c b s h r = (
    record b {
      channel =
          update b.channel c (record { buffer = (b.channel c).buffer ++ msg ∷ []; closed = false });
    },
    ground (arith, s.open_channel c h),
    record {
      sound = record {
        distinct = s.distinct;
        open_channel = λ d k. ground (arith, s.open_channel d);
        bounded = λ d. ground (arith, s.bounded d, length-append (b.channel c).buffer (msg ∷ []));
      };
      retired = refl;
      channel = λ d. ground arith;
      member = λ d. ground arith;
    },
  )

  offer_full :
      (c : ℕ) (b : Broker)
      → IsSound b
      → contains c b.clients ≡ true
      → has_room b c ≡ false
      → (b' : Broker) × (offer msg c b ≡ some b') × Served msg b (c ∷ []) b'
  unfolding offer
  offer_full c b s h r = (
    dropped c b,
    ground (arith, s.open_channel c h, close_channel-dropped c b s h),
    record {
      sound = dropped-IsSound c b s h;
      retired = refl;
      channel = λ d. ground arith;
      member = λ d. ground (arith, contains-delete c d b.clients);
    },
  )

  offer-Served :
      (c : ℕ) (b : Broker)
      → IsSound b
      → contains c b.clients ≡ true
      → (b' : Broker) × (offer msg c b ≡ some b') × Served msg b (c ∷ []) b'
  offer-Served c b s h = elim (Bool-cases (has_room b c)) [
    | inl r ↦ offer_room c b s h r
    | inr r ↦ offer_full c b s h r
  ]

  Served-cons :
      (c : ℕ) (cs : List ℕ) (b b' b'' : Broker)
      → contains c cs ≡ false
      → Served msg b (c ∷ []) b'
      → Served msg b' cs b''
      → Served msg b (c ∷ cs) b''
  Served-cons c cs b b' b'' n s t = record {
    sound = t.sound;
    retired = t.retired ∙ s.retired;
    channel = λ d. ground (arith, s.channel d, t.channel d);
    member = λ d. ground (arith, s.channel d, s.member d, t.member d);
  }

  -- The loop over the clients, in any order of theirs.
  pub offer_all-Served :
      (cs : List ℕ) (b : Broker)
      → IsSound b
      → Distinct cs
      → ((c : ℕ) → contains c cs ≡ true → contains c b.clients ≡ true)
      → (b' : Broker) × (offer_all msg cs b ≡ some b') × Served msg b cs b'
  unfolding offer_all
  offer_all-Served [] b s n sub =
      (b, refl, record { sound = s; retired = refl; channel = λ d. refl; member = λ d. refl })
  offer_all-Served (c ∷ cs) b s n sub =
      let (b', e, one) = offer-Served c b s (sub c (ground arith)) in
      let (b'', g, rest) =
        offer_all-Served cs b' one.sound n.1 (λ d h. ground (arith, sub d, one.member d)) in
      (b'', rw (offer_all, e) g, Served-cons c cs b b' b'' n.0 one rest)
