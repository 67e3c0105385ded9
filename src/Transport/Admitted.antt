-- ===== src/Transport/Admitted.antt =====
-- What the listeners of the transports let through.
use pmb.Base.{◌≡◌, refl, inl, inr, List, [], ◌∷◌, Bytes, All, All-map, Any}
use pmb.Base.Go.{trace, All-trace}
use pmb.Wire.{Received, deliver, discard, panic, parse_message}
use pmb.Wire.Safety.{Admitted, parse_message-Admitted}
use pmb.Transport.{Arrival, arrives, reconnected, Receiver, arrival, pass, hear}

-- A message that came from one of the bodies and was let through.
abbrev pub From : Receiver → List Bytes → Arrival → Type 0
From r bodies (arrives m) = Any (λ b. Admitted r.codec b r.keys r.id m) bodies
From r bodies reconnected = Unit

pub From-cons :
    (r : Receiver) (b : Bytes) (bs : List Bytes) (a : Arrival) → From r bs a → From r (b ∷ bs) a
From-cons r b bs (arrives m) h = inr h
From-cons r b bs reconnected h = tt

pub pass-From :
    (r : Receiver) (b : Bytes) (bs : List Bytes) → All (From r (b ∷ bs)) (trace (pass r b))
unfolding pass
pass-From r b bs = by_result (parse_message r.codec b r.keys r.id) refl
  where
    by_result :
        (x : Received)
        → parse_message r.codec b r.keys r.id ≡ x
        → All (From r (b ∷ bs)) (trace (arrival x))
    by_result (deliver m) e = (inl (parse_message-Admitted r.codec b r.keys r.id m e), tt)
    by_result discard e = tt
    by_result panic e = tt

pub hear-From : (r : Receiver) (bodies : List Bytes) → All (From r bodies) (trace (hear r bodies))
unfolding hear
hear-From r [] = tt
hear-From r (b ∷ bs) =
    All-trace (From r (b ∷ bs)) (pass r b) (λ u. hear r bs) (pass-From r b bs)
      (λ u a e. All-map (From-cons r b bs) (trace (hear r bs)) (hear-From r bs))
