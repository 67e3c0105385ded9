-- ===== src/Introducer/Quiet.antt =====
-- Which introducer of introducer.go answers: when `active` changes, and what an inactive one sends.
use pmb.Base.{
  ◌≡◌, ◌↔◌, ◌⊎◌, inl, inr, refl, true, false, some, List, [], ◌∷◌, eq_iff, Option-cases, arith,
}
use pmb.Base.Go.{done, trace}
use pmb.Base.Float.{Float64, gt}
use pmb.Json.{Fields, get, text_at, num, as_num, as_num_lem}
use pmb.Desktop.{Act, sends}
use pmb.Introducer.{
  Setup, Event, timeout, message, present, roll_call, send_present, send_roll_call, on_message,
  step,
}

-- The introducer made no effect but messages of the election, with its own level.
abbrev pub IsQuiet : Setup → List Act → Type 0
IsQuiet s t =
    (t ≡ [])
    ⊎ (t ≡ sends (present s.level) ∷ [])
    ⊎ (t ≡ sends roll_call ∷ [])
    ⊎ (t ≡ sends (present s.level) ∷ sends roll_call ∷ [])

-- An inactive introducer serves no request, whatever comes.
pub step-IsQuiet : (s : Setup) (e : Event) → IsQuiet s (trace (step s false e))
unfolding step on_message send_present send_roll_call
step-IsQuiet s e = ground arith

-- The event is an IntroducerPresent with a level above the introducer's own.
abbrev pub IsOutranked : Setup → Event → Type 0
IsOutranked s e =
    (m : Fields) × (level : Float64) × (e ≡ message m)
    × (text_at "type" m ≡ some "IntroducerPresent")
    × (get "level" m ≡ some (num level))
    × (gt level s.level ≡ true)

yields_inv :
    (s : Setup) (m : Fields) (t : List Act)
    → step s true (message m) ≡ done t false
    → IsOutranked s (message m)
unfolding step on_message send_present send_roll_call
yields_inv s m t h = elim (Option-cases (text_at "type" m)) [
  | inl g ↦ ground arith
  | inr (type, g) ↦ elim (Option-cases (as_num (get "level" m))) [
    | inl e ↦ ground (arith, eq_iff type "IntroducerPresent")
    | inr (x, e) ↦ (
      m,
      x,
      refl,
      ground (arith, eq_iff type "IntroducerPresent"),
      as_num_lem (get "level" m) x e,
      ground (arith, eq_iff type "IntroducerPresent"),
    )
  ]
]

outranked :
    (s : Setup) (m : Fields) → IsOutranked s (message m) → step s true (message m) ≡ done [] false
unfolding step on_message
outranked s m (n, x, e, g, l, h) = ground (arith, eq_iff "IntroducerPresent" "IntroducerPresent")

-- An active introducer turns inactive exactly when it sees a higher level than its own, and then
-- without any effect.
pub step-yields :
    (s : Setup) (e : Event) → ((t : List Act) × (step s true e ≡ done t false)) ↔ IsOutranked s e
unfolding step on_message send_present send_roll_call
step-yields s timeout = (λ h. cc (h.1), λ h. cc (h.2))
step-yields s (message m) = (λ h. yields_inv s m h.0 h.1, λ h. ([], outranked s m h))
