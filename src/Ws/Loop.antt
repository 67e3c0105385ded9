-- ===== src/Ws/Loop.antt =====
-- The writer that processSocket of api/ws.go starts, over all that its select finds.
use mathlib.Core.List.{append_assoc}
use pmb.Base.{
  String, ◌≡◌, refl, sym, ap, ◌∙◌, Bool, Option, none, some, List, [], ◌∷◌, ◌++◌, Bytes, map,
}
use pmb.Base.Go.{Go, done, fails, panics, waits, after}
use pmb.Ws.{Act, write_message}

-- The reader has ended; a message on the channel Out, with what prepareMessage makes of it and how the
-- writes end; or the ticker, with the error of the ping.
pub data Turn : Type 0 where
  reader_ended : Turn
  outgoing : Bool → Option (List Bytes) → List (Option String) → Turn
  tick : Option String → Turn

pub data Deed : Type 0 where
  acts : Act → Deed
  pings : Deed
  closes_socket : Deed

-- What a message leads to: the next turn, or the end of the writer.
abbrev pub resume : Go Act (List (Option String)) → Go Deed Unit → Go Deed Unit
resume (done t os) rest = after (map acts t) rest
resume (fails t e) rest = done (map acts t ++ closes_socket ∷ []) tt
resume (panics t) rest = panics (map acts t)
resume (waits t) rest = waits (map acts t)

unfoldable pub run_writer : List Turn → Go Deed Unit
run_writer [] = waits []
run_writer (reader_ended ∷ turns) = done (closes_socket ∷ []) tt
run_writer (outgoing has_done bodies outcomes ∷ turns) =
    resume (write_message has_done bodies outcomes) (run_writer turns)
run_writer (tick none ∷ turns) = after (pings ∷ []) (run_writer turns)
run_writer (tick (some e) ∷ turns) = done (pings ∷ closes_socket ∷ []) tt

-- The writer has ended with the socket closed, if it ended.
abbrev pub IsClosed : Go Deed Unit → Type 0
IsClosed (done t u) = (s : List Deed) × (t ≡ s ++ closes_socket ∷ [])
IsClosed (fails t e) = Unit
IsClosed (panics t) = Unit
IsClosed (waits t) = Unit

after-IsClosed : (t : List Deed) (g : Go Deed Unit) → IsClosed g → IsClosed (after t g)
after-IsClosed t (done u a) (s, e) =
    (t ++ s, ap (λ x. t ++ x) e ∙ sym (append_assoc t s (closes_socket ∷ [])))
after-IsClosed t (fails u e) h = tt
after-IsClosed t (panics u) h = tt
after-IsClosed t (waits u) h = tt

resume-IsClosed :
    (g : Go Act (List (Option String))) (rest : Go Deed Unit)
    → IsClosed rest
    → IsClosed (resume g rest)
resume-IsClosed (done t os) rest h = after-IsClosed (map acts t) rest h
resume-IsClosed (fails t e) rest h = (map acts t, refl)
resume-IsClosed (panics t) rest h = tt
resume-IsClosed (waits t) rest h = tt

-- However the writer comes to its end, the last that it does is to close the socket, so that the reader
-- ends as well and openWS dials again.
pub run_writer-IsClosed : (turns : List Turn) → IsClosed (run_writer turns)
unfolding run_writer
run_writer-IsClosed [] = tt
run_writer-IsClosed (reader_ended ∷ turns) = ([], refl)
run_writer-IsClosed (outgoing has_done bodies outcomes ∷ turns) =
    resume-IsClosed (write_message has_done bodies outcomes) (run_writer turns)
      (run_writer-IsClosed turns)
run_writer-IsClosed (tick none ∷ turns) =
    after-IsClosed (pings ∷ []) (run_writer turns) (run_writer-IsClosed turns)
run_writer-IsClosed (tick (some e) ∷ turns) = (pings ∷ [], refl)
