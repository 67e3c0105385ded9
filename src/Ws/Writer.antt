-- ===== src/Ws/Writer.antt =====
-- What the writer of processSocket in api/ws.go does with a message.
use pmb.Base.{
  String, ◌≡◌, ◌↔◌, refl, ap, inl, inr, Bool, true, false, Option, none, some, List, [], ◌∷◌, ◌++◌,
  Any, Any-append_right, Bytes, if◌then◌else◌,
}
use pmb.Base.Go.{Go, done, fails, panics, waits, after, trace, ◌>>=◌}
use pmb.Ws.{Act, writes, signals_done, write_bodies, write_message}

-- The first outcomes, one for each body, are no errors.
abbrev pub AllWritten : List Bytes → List (Option String) → Type 0
AllWritten [] os = Unit
AllWritten (b ∷ bs) [] = ⊥
AllWritten (b ∷ bs) (none ∷ os) = AllWritten bs os
AllWritten (b ∷ bs) (some e ∷ os) = ⊥

-- The frames of these bodies.
abbrev pub frames : List Bytes → List Act
frames [] = []
frames (b ∷ bs) = writes b ∷ frames bs

abbrev pub Signals : List Act → Type 0
Signals t = Any (λ a. a ≡ signals_done) t

write_bodies-AllWritten :
    (bs : List Bytes) (os : List (Option String))
    → AllWritten bs os
    → (rest : List (Option String)) × (write_bodies bs os ≡ done (frames bs) rest)
unfolding write_bodies
write_bodies-AllWritten [] os h = (os, refl)
write_bodies-AllWritten (b ∷ bs) [] h = absurd h
write_bodies-AllWritten (b ∷ bs) (none ∷ os) h =
    let (rest, e) = write_bodies-AllWritten bs os h in (rest, ap (after (writes b ∷ [])) e)
write_bodies-AllWritten (b ∷ bs) (some e ∷ os) h = absurd h

-- If every body is written, the frames of the bodies go out in order, and then a sender that waits
-- for its message is told.
pub write_message-AllWritten :
    (bs : List Bytes) (os : List (Option String))
    → AllWritten bs os
    → (rest : List (Option String)) × (write_message true (some bs) os
        ≡ done (frames bs ++ signals_done ∷ []) rest)
unfolding write_message
write_message-AllWritten bs os h =
    let (rest, e) = write_bodies-AllWritten bs os h in
    (rest, ap (λ g. g >>= λ r. done (signals_done ∷ []) r) e)

drop_frame : (b : Bytes) (t : List Act) → Signals (writes b ∷ t) → Signals t
drop_frame b t (inl e) = cc e
drop_frame b t (inr h) = h

Signals-frame :
    (b : Bytes) (has_done : Bool) (g : Go Act (List (Option String)))
    → Signals (
        trace (
          after (writes b ∷ []) g >>= λ r.
          if has_done then done (signals_done ∷ []) r else done [] r))
    → Signals (trace (g >>= λ r. if has_done then done (signals_done ∷ []) r else done [] r))
Signals-frame b true (done t r) h = drop_frame b (t ++ signals_done ∷ []) h
Signals-frame b false (done t r) h = drop_frame b (t ++ []) h
Signals-frame b d (fails t e) h = drop_frame b t h
Signals-frame b d (panics t) h = drop_frame b t h
Signals-frame b d (waits t) h = drop_frame b t h

Signals-AllWritten :
    (bs : List Bytes) (os : List (Option String)) (has_done : Bool)
    → Signals (
        trace
          (write_bodies bs os >>= λ r. if has_done then done (signals_done ∷ []) r else done [] r))
    → AllWritten bs os
unfolding write_bodies
Signals-AllWritten [] os d h = tt
Signals-AllWritten (b ∷ bs) [] d h = absurd h
Signals-AllWritten (b ∷ bs) (none ∷ os) d h =
    Signals-AllWritten bs os d (Signals-frame b d (write_bodies bs os) h)
Signals-AllWritten (b ∷ bs) (some e ∷ os) d h = absurd h

-- The writer tells a sender that waits that its message is done exactly if it wrote every body.
pub write_message-Signals :
    (bs : List Bytes) (os : List (Option String))
    → Signals (trace (write_message true (some bs) os)) ↔ AllWritten bs os
unfolding write_message
write_message-Signals bs os = (
  Signals-AllWritten bs os true,
  λ h.
      let (rest, e) = write_message-AllWritten bs os h in
      rw e (Any-append_right (λ a. a ≡ signals_done) (frames bs) (signals_done ∷ []) (inl refl)),
)
