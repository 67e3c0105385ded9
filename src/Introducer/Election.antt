-- ===== src/Introducer/Election.antt =====
-- The election among the introducers of introducer.go: each hears the levels of the others.
use pmb.Base.{
  ◌≡◌, ◌⊎◌, inl, inr, refl, Bool, true, false, not, ◌∙◌, ◌&&◌, ◌||◌, List, [], ◌∷◌, Any,
  if◌then◌else◌, Bool-cases, arith,
}
use pmb.Base.Go.{done}
use pmb.Base.Float.{Float64, gt, lt_irrefl, lt_trans}
use pmb.Json.{get}
use pmb.Desktop.{sends}
use pmb.Introducer.{
  Setup, Event, message, present, roll_call, send_present, send_roll_call, on_message, step,
  run_from, run_introducer,
}

-- The messages of introducers with these levels.
abbrev pub presents : List Float64 → List Event
presents [] = []
presents (l ∷ ls) = message (present l) ∷ presents ls

-- Some level in the list is higher than `x`.
abbrev pub has_higher : Float64 → List Float64 → Bool
has_higher x [] = false
has_higher x (l ∷ ls) = gt l x || has_higher x ls

step-present :
    (s : Setup) (active : Bool) (l : Float64)
    → step s active (message (present l)) ≡ done [] (if gt l s.level then false else active)
unfolding step on_message get
step-present s active l = refl

run_from-presents :
    (s : Setup) (active : Bool) (ls : List Float64)
    → run_from s active (presents ls) ≡ done [] (active && not (has_higher s.level ls))
unfolding run_from
run_from-presents s active [] = ground arith
run_from-presents s active (l ∷ ls) =
    rw (step-present s active l)
      (rw (run_from-presents s (if gt l s.level then false else active) ls) (ground arith))

-- After it has heard the levels of the others, in any order and number, an introducer that started
-- is active exactly if none of them is higher than its own; it has announced itself and called the
-- roll, and has done nothing else.
pub run_introducer-presents :
    (s : Setup) (ls : List Float64)
    → run_introducer s (presents ls)
      ≡ done (sends (present s.level) ∷ sends roll_call ∷ []) (not (has_higher s.level ls))
unfolding run_introducer send_present send_roll_call
run_introducer-presents s ls = rw (run_from-presents s true ls)

-- An introducer of the highest level among some.
highest : Setup → List Setup → Setup
highest s [] = s
highest s (r ∷ rs) = highest (if gt r.level s.level then r else s) rs

abbrev pub levels : List Setup → List Float64
levels [] = []
levels (s ∷ ss) = s.level ∷ levels ss

highest-ge :
    (s : Setup) (rs : List Setup) (y : Float64)
    → gt y (highest s rs).level ≡ true
    → gt y s.level ≡ true
unfolding highest
highest-ge s [] y h = h
highest-ge s (r ∷ rs) y h = elim (Bool-cases (gt r.level s.level)) [
  | inl e ↦ lt_trans s.level r.level y e (highest-ge r rs y (rw (highest, e) at h))
  | inr e ↦ highest-ge s rs y (rw (highest, e) at h)
]

highest-top : (s : Setup) (rs : List Setup) → has_higher (highest s rs).level (levels rs) ≡ false
unfolding highest
highest-top s [] = refl
highest-top s (r ∷ rs) = rw (
  no_step (Bool-cases (gt r.level (highest b rs).level)) (Bool-cases (gt r.level s.level)),
  highest-top b rs,
)
  where
    b : Setup
    b = if gt r.level s.level then r else s

    no_step :
        (gt r.level (highest b rs).level ≡ true) ⊎ (gt r.level (highest b rs).level ≡ false)
        → (gt r.level s.level ≡ true) ⊎ (gt r.level s.level ≡ false)
        → gt r.level (highest b rs).level ≡ false
    no_step (inr e) k = e
    no_step (inl e) (inl k) =
        absurd (ground (arith, lt_irrefl r.level, highest-ge r rs r.level (rw k at e)))
    no_step (inl e) (inr k) = absurd (ground (arith, highest-ge s rs r.level (rw k at e)))

highest-Any : (P : Setup → Type 0) (s : Setup) (rs : List Setup) → P (highest s rs) → Any P (s ∷ rs)
unfolding highest
highest-Any P s [] h = inl h
highest-Any P s (r ∷ rs) h = elim (Bool-cases (gt r.level s.level)) [
  | inl e ↦ inr (highest-Any P r rs (rw (highest, e) at h))
  | inr e ↦ later (highest-Any P s rs (rw (highest, e) at h))
]
  where
    later : Any P (s ∷ rs) → Any P (s ∷ r ∷ rs)
    later (inl p) = inl p
    later (inr p) = inr (inr p)

highest-top_self :
    (s : Setup) (rs : List Setup) → has_higher (highest s rs).level (levels (s ∷ rs)) ≡ false
highest-top_self s rs = elim (Bool-cases (gt s.level (highest s rs).level)) [
  | inl e ↦ absurd (ground (arith, lt_irrefl s.level, highest-ge s rs s.level e))
  | inr e ↦ rw (e, highest-top s rs)
]

-- In every group of introducers there is one that is active after it has heard the levels of all of
-- the group, and that has only announced itself and called the roll.
pub election_leader :
    (s : Setup) (rs : List Setup)
    → Any
        (λ leader.
          run_introducer leader (presents (levels (s ∷ rs)))
          ≡ done (sends (present leader.level) ∷ sends roll_call ∷ []) true)
        (s ∷ rs)
election_leader s rs =
    highest-Any _ s rs
      (run_introducer-presents (highest s rs) (levels (s ∷ rs)) ∙ rw (highest-top_self s rs))
