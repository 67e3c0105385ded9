-- ===== src/Mobile/Recent.antt =====
-- The ids that pushoverAgent of notify_mobile.go remembers.
use pmb.Base.{
  ℕ, suc, zero, ◌≤◌, ◌-◌, String, ◌≡◌, refl, inl, inr, some, List, [], ◌∷◌, ◌++◌, length,
  length-append, drop, ltb, if◌then◌else◌, Bool-cases, arith,
}
use pmb.Base.Go.{done}
use pmb.Json.{Fields, text_at}
use pmb.Mobile.{Act, pushes, has_id, rest_of, remember, push_step, push_run}

-- The last ten of a list.
abbrev pub last_ten : List String → List String
last_ten xs = drop (length xs - 10) xs

module _ {A : Type 0} where
  length-drop : (k : ℕ) (xs : List A) → length (drop k xs) ≡ length xs - k
  length-drop zero xs = omega arith
  length-drop (suc k) [] = omega arith
  length-drop (suc k) (x ∷ xs) = omega (arith, length-drop k xs)

  drop-append_le : (k : ℕ) (xs ys : List A) → k ≤ length xs → drop k (xs ++ ys) ≡ drop k xs ++ ys
  drop-append_le zero xs ys h = refl
  drop-append_le (suc k) [] ys h = absurd (omega arith)
  drop-append_le (suc k) (x ∷ xs) ys h = drop-append_le k xs ys (omega arith)

rest_of-drop :
    (k : ℕ) (xs ys : List String)
    → suc k ≤ length xs
    → rest_of (drop k xs ++ ys) ≡ drop (suc k) xs ++ ys
rest_of-drop zero [] ys h = absurd (omega arith)
rest_of-drop zero (x ∷ xs) ys h = refl
rest_of-drop (suc k) [] ys h = absurd (omega arith)
rest_of-drop (suc k) (x ∷ xs) ys h = rest_of-drop k xs ys (omega arith)

remember_short :
    (id : String) (sent : List String)
    → length sent ≤ 9
    → remember id (last_ten sent) ≡ last_ten (sent ++ id ∷ [])
unfolding remember
remember_short id sent h =
    let none_yet : length sent - 10 ≡ 0 = omega arith in
    let none_then : length (sent ++ id ∷ []) - 10 ≡ 0 =
      omega (arith, length-append sent (id ∷ [])) in
    rw (none_yet, none_then) (ground (arith, length-append sent (id ∷ [])))

remember_long :
    (id : String) (sent : List String)
    → 10 ≤ length sent
    → remember id (last_ten sent) ≡ last_ten (sent ++ id ∷ [])
unfolding remember
remember_long id sent h =
    let k = length sent - 10 in
    let next : length (sent ++ id ∷ []) - 10 ≡ suc k =
      omega (arith, length-append sent (id ∷ [])) in
    rw next (
      ground (
        arith,
        length-append (drop k sent) (id ∷ []),
        length-drop k sent,
        rest_of-drop k sent (id ∷ []),
        drop-append_le (suc k) sent (id ∷ []),
      ))

-- Remembering one more id keeps the last ten of all that were sent.
pub remember-last_ten :
    (id : String) (sent : List String) → remember id (last_ten sent) ≡ last_ten (sent ++ id ∷ [])
remember-last_ten id sent = elim (Bool-cases (ltb (length sent) 10)) [
  | inl h ↦ remember_short id sent (ground arith)
  | inr h ↦ remember_long id sent (ground arith)
]

-- A message with a text and an id.
pub record Note : Type 0 where
  pub id : String
  pub text : String

abbrev pub IsNote : Note → Fields → Type 0
IsNote n m = (text_at "message" m ≡ some n.text) × (text_at "notification-id" m ≡ some n.id)

abbrev pub AreNotes : List Note → List Fields → Type 0
AreNotes [] [] = Unit
AreNotes (n ∷ ns) (m ∷ ms) = IsNote n m × AreNotes ns ms
AreNotes [] (m ∷ ms) = ⊥
AreNotes (n ∷ ns) [] = ⊥

-- The specification, with no memory limit in the state: a note is sent unless its id is among the
-- last ten that were sent. The ids sent in all, and the texts sent now.
abbrev pub sent_after : List String → List Note → List String
sent_after sent [] = sent
sent_after sent (n ∷ ns) =
    sent_after (if has_id n.id (last_ten sent) then sent else sent ++ n.id ∷ []) ns

abbrev pub texts_after : List String → List Note → List Act
texts_after sent [] = []
texts_after sent (n ∷ ns) =
    let later = texts_after (if has_id n.id (last_ten sent) then sent else sent ++ n.id ∷ []) ns in
    if has_id n.id (last_ten sent) then later else pushes n.text ∷ later

push_step-note :
    (sent : List String) (n : Note) (m : Fields)
    → IsNote n m
    → push_step (last_ten sent) m ≡ (
        if has_id n.id (last_ten sent)
        then done [] (last_ten sent)
        else done (pushes n.text ∷ []) (last_ten (sent ++ n.id ∷ [])))
unfolding push_step
push_step-note sent n m (t, i) = rw (t, i) (ground (arith, remember-last_ten n.id sent))

-- The agent, which remembers ten ids at most, sends exactly what the specification with the whole
-- history sends, and remembers the last ten ids of that history.
pub push_run-refines :
    (sent : List String) (ns : List Note) (ms : List Fields)
    → AreNotes ns ms
    → push_run (last_ten sent) ms ≡ done (texts_after sent ns) (last_ten (sent_after sent ns))
unfolding push_run
push_run-refines sent [] [] h = refl
push_run-refines sent [] (m ∷ ms) h = absurd h
push_run-refines sent (n ∷ ns) [] h = absurd h
push_run-refines sent (n ∷ ns) (m ∷ ms) (note, notes) =
    elim (Bool-cases (has_id n.id (last_ten sent))) [
      | inl e ↦ rw (push_step-note sent n m note, e) (rw (push_run-refines sent ns ms notes))
      | inr e ↦
          rw (push_step-note sent n m note, e)
            (rw (push_run-refines (sent ++ n.id ∷ []) ns ms notes))
    ]
