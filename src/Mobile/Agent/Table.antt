-- ===== src/Mobile/Agent/Table.antt =====
-- The map completeChans of unackAgent in notify_mobile.go.
use pmb.Base.{
  ℕ, String, ◌≡◌, ◌≢◌, ◌⊎◌, inl, inr, false, none, some, List, [], ◌∷◌, eq_iff, ◌==◌, if◌then◌else◌,
  Bool-cases, arith,
}
use pmb.Mobile.Agent.{find, without}

find-without :
    (j i : String) (t : List (String × ℕ))
    → find i (without j t) ≡ (if j == i then none else find i t)
unfolding find without
find-without j i [] = ground arith
find-without j i ((k, n) ∷ t) =
    ground (arith, find-without j i t, eq_iff k j, eq_iff k i, eq_iff j i)

pub find-without-some :
    (j i : String) (t : List (String × ℕ)) (n : ℕ)
    → find i (without j t) ≡ some n
    → (find i t ≡ some n) × ((j == i) ≡ false)
find-without-some j i t n h = ground (arith, find-without j i t)

pub find-renewed :
    (j i : String) (t : List (String × ℕ)) (k n : ℕ)
    → find i ((j, k) ∷ without j t) ≡ some n
    → ((n ≡ k) × (j ≡ i)) ⊎ (find i t ≡ some n)
unfolding find
find-renewed j i t k n h = elim (Bool-cases (j == i)) [
  | inl q ↦ inl (ground (arith, eq_iff j i))
  | inr q ↦ inr (find-without-some j i t n (rw q at h)).0
]

pub taken : (j i : String) → (j == i) ≡ false → j ≢ i
taken j i h e = ground (arith, eq_iff j i)
