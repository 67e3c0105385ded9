-- ===== src/Broker/Relay/Frames.antt =====
-- Frames that processReads of broker.go passes on as they are, and frames that it empties.
use mathlib.Core.List.{append-nil}
use pmb.Base.{
  ℕ, String, ◌≤◌, ◌≡◌, ◌≢◌, refl, ap, ◌∙◌, true, none, some, List, [], ◌∷◌, ◌++◌, Bytes, All, map,
  arith,
}
use pmb.Base.Go.{done}
use pmb.Broker.{remove, send}
use pmb.Wire.{Codec, panic, parse_message}
use pmb.Broker.Relay.{
  is_space, space_length, end_length, skip_spaces, reverse_onto, trim_space, newline_to_space,
  relayed, Act, sends, closes_socket, process_reads,
}

-- A byte of printable ASCII other than the space.
abbrev pub Visible : ℕ → Type 0
Visible b = (33 ≤ b) × (b ≤ 126)

-- A frame without a newline whose first and last bytes are visible.
pub record IsClean (frame : Bytes) : Type 0 where
  pub first : ℕ
  pub rest : Bytes
  pub starts : frame ≡ first ∷ rest
  pub first_visible : Visible first
  pub front : Bytes
  pub last : ℕ
  pub ends : frame ≡ front ++ last ∷ []
  pub last_visible : Visible last
  pub no_newline : All (λ b. b ≢ 10) frame

space_length-Visible : (a : ℕ) (bs : Bytes) → Visible a → space_length (a ∷ bs) ≡ 0
space_length-Visible a [] v = ground arith
space_length-Visible a (b ∷ []) v = ground arith
space_length-Visible a (b ∷ c ∷ bs) v = ground arith

end_length-Visible : (a : ℕ) (bs : Bytes) → Visible a → end_length (a ∷ bs) ≡ 0
end_length-Visible a [] v = ground arith
end_length-Visible a (b ∷ []) v = ground arith
end_length-Visible a (b ∷ c ∷ bs) v = ground arith

reverse_onto-append :
    (xs : Bytes) (b : ℕ) (acc : Bytes) → reverse_onto (xs ++ b ∷ []) acc ≡ b ∷ reverse_onto xs acc
reverse_onto-append [] b acc = refl
reverse_onto-append (x ∷ xs) b acc = reverse_onto-append xs b (x ∷ acc)

reverse_onto-reverse_onto :
    (xs acc ys : Bytes) → reverse_onto (reverse_onto xs acc) ys ≡ reverse_onto acc (xs ++ ys)
reverse_onto-reverse_onto [] acc ys = refl
reverse_onto-reverse_onto (x ∷ xs) acc ys = reverse_onto-reverse_onto xs (x ∷ acc) ys

newlines-none : (frame : Bytes) → All (λ b. b ≢ 10) frame → map newline_to_space frame ≡ frame
newlines-none [] h = refl
newlines-none (b ∷ bs) h = ground (arith, newlines-none bs h.1)

-- Nothing is trimmed where the first character is no white space.
skip_spaces-zero : (len : Bytes → ℕ) (bs : Bytes) → len bs ≡ 0 → skip_spaces len 0 bs ≡ bs
unfolding skip_spaces
skip_spaces-zero len [] h = refl
skip_spaces-zero len (b ∷ bs) h = rw (skip_spaces, h)

reversed-ends :
    (frame front : Bytes) (b : ℕ)
    → frame ≡ front ++ b ∷ []
    → reverse_onto frame [] ≡ b ∷ reverse_onto front []
reversed-ends frame front b h = ap (λ f. reverse_onto f []) h ∙ reverse_onto-append front b []

trim_space-IsClean : (frame : Bytes) → IsClean frame → trim_space frame ≡ frame
unfolding trim_space
trim_space-IsClean frame c =
    let start : skip_spaces space_length 0 frame ≡ frame =
      skip_spaces-zero space_length frame
        (ap space_length c.starts ∙ space_length-Visible c.first c.rest c.first_visible) in
    let back : skip_spaces end_length 0 (reverse_onto frame []) ≡ reverse_onto frame [] =
      skip_spaces-zero end_length (reverse_onto frame []) (
        ap end_length (reversed-ends frame c.front c.last c.ends)
        ∙ end_length-Visible c.last (reverse_onto c.front []) c.last_visible) in
    rw (start, back) (reverse_onto-reverse_onto frame [] [] ∙ append-nil frame)

pub relayed-IsClean : (frame : Bytes) → IsClean frame → relayed frame ≡ frame
unfolding relayed
relayed-IsClean frame c =
    ap trim_space (newlines-none frame c.no_newline) ∙ trim_space-IsClean frame c

-- What the reader does on clean frames.
abbrev pub passed : List Bytes → List Act
passed [] = []
passed (f ∷ fs) = sends (send f) ∷ passed fs

-- On clean frames until an error, the reader sends the broker each of them as it is, in their order, and
-- at the end removes its client, once, and closes the socket.
pub process_reads-IsClean :
    (c : ℕ) (frames : List Bytes)
    → All IsClean frames
    → process_reads c (map some frames ++ none ∷ [])
      ≡ done (passed frames ++ sends (remove c) ∷ closes_socket ∷ []) tt
unfolding process_reads
process_reads-IsClean c [] h = refl
process_reads-IsClean c (f ∷ fs) h = rw (process_reads-IsClean c fs h.1, relayed-IsClean f h.0)

skip_spaces-All :
    (bs : Bytes)
    → All (λ b. is_space b ≡ true) bs
    → skip_spaces space_length 0 (map newline_to_space bs) ≡ []
unfolding skip_spaces
skip_spaces-All [] h = refl
skip_spaces-All (b ∷ bs) h =
    let blank : is_space (newline_to_space b) ≡ true = ground (arith, h.0) in
    rw (skip_spaces, blank) (skip_spaces-All bs h.1)

-- A frame of blanks is relayed as an empty one, at which every client that receives it panics, whatever
-- its keys.
pub relayed-panic :
    (c : Codec) (keys : List String) (id : String) (frame : Bytes)
    → All (λ b. is_space b ≡ true) frame
    → (relayed frame ≡ []) × (parse_message c (relayed frame) keys id ≡ panic)
unfolding relayed trim_space skip_spaces parse_message
relayed-panic c keys id frame h =
    let empty : relayed frame ≡ [] = rw (relayed, trim_space, skip_spaces-All frame h) in
    (empty, ap (λ f. parse_message c f keys id) empty)
