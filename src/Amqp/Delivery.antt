-- ===== src/Amqp/Delivery.antt =====
-- What sendToAMQP of api/amqp.go publishes.
use pmb.Base.{length, ◌*◌, ◌≤◌, ◌≡◌, refl, ap, Bool, true, false, List, [], ◌∷◌, Bytes, arith}
use pmb.Base.Go.{done, after}
use pmb.Amqp.{Sent, published, failed, reconnected, signals_done, publish_bodies}

-- The bodies that reached the exchange.
abbrev pub arrived : List Sent → List Bytes
arrived [] = []
arrived (published b ∷ t) = b ∷ arrived t
arrived (failed b ∷ t) = arrived t
arrived (reconnected ∷ t) = arrived t
arrived (signals_done ∷ t) = arrived t

-- No call of Publish fails twice in a row.
abbrev pub NoDoubleFailure : List Bool → Type 0
NoDoubleFailure [] = Unit
NoDoubleFailure (true ∷ os) = NoDoubleFailure os
NoDoubleFailure (false ∷ []) = Unit
NoDoubleFailure (false ∷ true ∷ os) = NoDoubleFailure os
NoDoubleFailure (false ∷ false ∷ os) = ⊥

-- If no retry fails, and each body has the two outcomes that it may need, the loop over the bodies of a
-- message comes to its end, and the bodies have arrived once each, in their order.
pub publish_bodies-arrived :
    (bodies : List Bytes) (outcomes : List Bool)
    → NoDoubleFailure outcomes
    → 2 * length bodies ≤ length outcomes
    → (t : List Sent) × (rest : List Bool) × (publish_bodies bodies outcomes ≡ done t rest)
      × (arrived t ≡ bodies)
unfolding publish_bodies
publish_bodies-arrived [] os n h = ([], os, refl, refl)
publish_bodies-arrived (b ∷ bs) [] n h = absurd (omega arith)
publish_bodies-arrived (b ∷ bs) (true ∷ os) n h =
    let (t, rest, e, a) = publish_bodies-arrived bs os n (omega arith) in
    (published b ∷ t, rest, ap (after (published b ∷ [])) e, ap (λ x. b ∷ x) a)
publish_bodies-arrived (b ∷ bs) (false ∷ []) n h = absurd (omega arith)
publish_bodies-arrived (b ∷ bs) (false ∷ true ∷ os) n h =
    let (t, rest, e, a) = publish_bodies-arrived bs os n (omega arith) in
    (
      failed b ∷ reconnected ∷ published b ∷ t,
      rest,
      ap (after (failed b ∷ reconnected ∷ published b ∷ [])) e,
      ap (λ x. b ∷ x) a,
    )
publish_bodies-arrived (b ∷ bs) (false ∷ false ∷ os) n h = absurd n
