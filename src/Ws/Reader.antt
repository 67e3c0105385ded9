-- ===== src/Ws/Reader.antt =====
-- The reader that processSocket of api/ws.go starts.
use pmb.Base.{ℕ, List, [], ◌∷◌, Bytes, nat_eq, if◌then◌else◌}
use pmb.Base.Go.{◌>>◌, Go, done, waits}
use pmb.Transport.{Arrival, Receiver, pass}

-- What ReadMessage gives: a frame with its type, or an error.
pub data Frame : Type 0 where
  frame : ℕ → Bytes → Frame
  read_error : Frame

-- websocket.TextMessage
abbrev pub text_message : ℕ
text_message = 1

-- The loop of the reader; it ends at the first error.
unfoldable pub read_frames : Receiver → List Frame → Go Arrival Unit
read_frames r [] = waits []
read_frames r (read_error ∷ fs) = done [] tt
read_frames r (frame type body ∷ fs) =
    let rest = read_frames r fs in if nat_eq type text_message then pass r body >> rest else rest
