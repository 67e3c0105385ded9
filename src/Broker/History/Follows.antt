-- ===== src/Broker/History/Follows.antt =====
-- What a client of broker.go has had after any history of its broker.
use mathlib.Core.Option.{some-injective}
use mathlib.Core.List.{append-nil, append_assoc}
use pmb.Base.{
  ℕ, ◌≡◌, inl, inr, ◌⊎◌, refl, sym, subst, ◌∙◌, true, false, some, List, [], ◌∷◌, ◌++◌, Bytes,
  nat_eq, if◌then◌else◌, Bool-cases, List-cases, arith,
}
use pmb.Broker.{Broker, contains, on_add, on_remove, add, remove, send, round, take_message}
use pmb.Broker.Invariant.{IsSound, dropped, close_channel-dropped, contains-delete}
use pmb.Broker.Broadcast.{Served, has_room}
use pmb.Broker.Reach.{IsNew, Reach-IsSound, Reach-send}
use pmb.Broker.History.{
  Event, input, read, History, begin, next, take, History-Reach, joined, due, got, had,
}

module _ (c : ℕ) where
  -- The state of a client: it has not joined; it is in the map and had all; or its channel is closed
  -- and it had all but the last ones.
  pub data Follows (es : List Event) (b : Broker) : Type 0 where
    absent :
        joined c es ≡ false
        → contains c b.clients ≡ false
        → (b.channel c).buffer ≡ []
        → got c es ≡ []
        → Follows es b
    present :
        joined c es ≡ true → contains c b.clients ≡ true → had c es b ≡ due c es → Follows es b
    gone :
        joined c es ≡ true
        → contains c b.clients ≡ false
        → (b.channel c).closed ≡ true
        → (rest : List Bytes) → had c es b ++ rest ≡ due c es
        → Follows es b

  due-absent : (es : List Event) → joined c es ≡ false → due c es ≡ []
  due-absent [] h = refl
  due-absent (input (add d) ∷ es) h = due-absent es (ground arith)
  due-absent (input (remove d) ∷ es) h = due-absent es h
  due-absent (input (send msg) ∷ es) h = rw h
  due-absent (read d msg ∷ es) h = due-absent es h

  follows_add :
      (es : List Event) (b : Broker) (d : ℕ)
      → IsNew (add d) b
      → Follows es b
      → Follows (input (add d) ∷ es) (on_add d b)
  unfolding on_add
  follows_add es b d n (absent j k e g) = elim (Bool-cases (nat_eq d c)) [
    | inl same ↦ present (rw same) (ground arith) (ground (arith, due-absent es j))
    | inr other ↦ absent (ground arith) (ground arith) (ground arith) g
  ]
  follows_add es b d n (present j k e) = present (ground arith) (ground arith) (ground arith)
  follows_add es b d n (gone j k cl rest e) =
      gone (ground arith) (ground arith) (ground arith) rest (ground arith)

  follows_dropped :
      (es : List Event) (b : Broker) (d : ℕ)
      → contains d b.clients ≡ true
      → Follows es b
      → Follows (input (remove d) ∷ es) (dropped d b)
  follows_dropped es b d h (absent j k e g) =
      absent j (ground (arith, contains-delete d c b.clients)) (ground arith) g
  follows_dropped es b d h (present j k e) = elim (Bool-cases (nat_eq d c)) [
    | inl same ↦
        gone j (ground (arith, contains-delete d c b.clients)) (ground arith) []
          (ground (arith, append-nil (had c es b)))
    | inr other ↦ present j (ground (arith, contains-delete d c b.clients)) (ground arith)
  ]
  follows_dropped es b d h (gone j k cl rest e) =
      gone j (ground (arith, contains-delete d c b.clients)) (ground arith) rest (ground arith)

  follows_same :
      (es : List Event) (b : Broker) (d : ℕ) → Follows es b → Follows (input (remove d) ∷ es) b
  follows_same es b d (absent j k e g) = absent j k e g
  follows_same es b d (present j k e) = present j k e
  follows_same es b d (gone j k cl rest e) = gone j k cl rest e

  follows_remove :
      (es : List Event) (b b' : Broker) (d : ℕ)
      → IsSound b
      → on_remove d b ≡ some b'
      → Follows es b
      → Follows (input (remove d) ∷ es) b'
  unfolding on_remove
  follows_remove es b b' d s e f = elim (Bool-cases (contains d b.clients)) [
    | inl h ↦
        let same : dropped d b ≡ b' =
          some-injective (dropped d b) b' (sym (close_channel-dropped d b s h) ∙ rw h at e) in
        subst (Follows (input (remove d) ∷ es)) same (follows_dropped es b d h f)
    | inr h ↦
        subst (Follows (input (remove d) ∷ es)) (some-injective b b' (rw h at e))
          (follows_same es b d f)
  ]

  follows_send :
      (es : List Event) (b b' : Broker) (msg : Bytes)
      → Served msg b b.clients b'
      → Follows es b
      → Follows (input (send msg) ∷ es) b'
  follows_send es b b' msg s (absent j k e g) =
      absent j (ground (arith, s.member c)) (ground (arith, s.channel c)) g
  follows_send es b b' msg s (present j k e) = elim (Bool-cases (has_room b c)) [
    | inl r ↦
        present j (ground (arith, s.member c))
          (ground (arith, s.channel c, append_assoc (got c es) (b.channel c).buffer (msg ∷ [])))
    | inr r ↦
        gone j (ground (arith, s.member c)) (ground (arith, s.channel c)) (msg ∷ [])
          (ground (arith, s.channel c))
  ]
  follows_send es b b' msg s (gone j k cl rest e) =
      gone j (ground (arith, s.member c)) (ground (arith, s.channel c)) (rest ++ msg ∷ [])
        (ground (arith, s.channel c, append_assoc (had c es b) rest (msg ∷ [])))

  -- What a writer that took a message leaves.
  take_message-some :
      (b b' : Broker) (d : ℕ) (msg : Bytes)
      → take_message d b ≡ some (msg, b')
      → (rest : List Bytes) × ((b.channel d).buffer ≡ msg ∷ rest)
        × (b'.clients ≡ b.clients)
        × (b'.channel c ≡ (
            if nat_eq c d
            then record { buffer = rest; closed = (b.channel d).closed }
            else b.channel c))
  unfolding take_message
  take_message-some b b' d msg e = elim (List-cases (b.channel d).buffer) [
    | inl h ↦ absurd (ground arith)
    | inr (m, rest, h) ↦ (rest, ground arith, ground arith, ground arith)
  ]

  follows_read :
      (es : List Event) (b b' : Broker) (d : ℕ) (msg : Bytes)
      → take_message d b ≡ some (msg, b')
      → Follows es b
      → Follows (read d msg ∷ es) b'
  follows_read es b b' d msg e (absent j k n g) =
      let (rest, h, m, ch) = take_message-some b b' d msg e in
      absent j (ground (arith, m)) (ground (arith, ch, h)) (ground (arith, h))
  follows_read es b b' d msg e (present j k a) =
      let (rest, h, m, ch) = take_message-some b b' d msg e in
      present j (ground (arith, m)) (ground (arith, ch, h, append_assoc (got c es) (msg ∷ []) rest))
  follows_read es b b' d msg e (gone j k cl last a) =
      let (rest, h, m, ch) = take_message-some b b' d msg e in
      gone j (ground (arith, m)) (ground (arith, ch, h)) last
        (ground (arith, ch, h, append_assoc (got c es) (msg ∷ []) rest))

  History-Follows : {es : List Event} {b : Broker} → History es b → Follows es b
  unfolding round
  History-Follows begin = absent refl refl refl refl
  History-Follows (next {es} {b} {b'} (add d) h n e) =
      subst (Follows (input (add d) ∷ es)) (some-injective (on_add d b) b' e)
        (follows_add es b d n (History-Follows h))
  History-Follows (next {es} {b} {b'} (remove d) h n e) =
      follows_remove es b b' d (Reach-IsSound (History-Reach h)) e (History-Follows h)
  History-Follows (next {es} {b} {b'} (send msg) h n e) =
      let (b'', g, served) = Reach-send (History-Reach h) msg in
      follows_send es b b' msg
        (subst (Served msg b b.clients) (some-injective b'' b' (sym g ∙ e)) served)
        (History-Follows h)
  History-Follows (take {es} {b} {b'} d msg h e) = follows_read es b b' d msg e (History-Follows h)

-- After any history of the broker, for every client: the messages its writer took, with those left in
-- its buffer, are in order the first of all that were broadcast since it joined, none lost or doubled
-- in between; and they are all of them, unless the client is out of the map.
pub History-had :
    {es : List Event} {b : Broker}
    → History es b
    → (c : ℕ)
    → (rest : List Bytes) × (had c es b ++ rest ≡ due c es)
      × ((rest ≡ []) ⊎ (contains c b.clients ≡ false))
History-had {es} {b} h c = by_state (History-Follows c h)
  where
    by_state :
        Follows c es b
        → (rest : List Bytes) × (had c es b ++ rest ≡ due c es)
          × ((rest ≡ []) ⊎ (contains c b.clients ≡ false))
    by_state (absent j k e g) = ([], ground (arith, due-absent c es j), inl refl)
    by_state (present j k e) = ([], ground (arith, append-nil (had c es b)), inl refl)
    by_state (gone j k cl rest e) = (rest, e, inr k)
