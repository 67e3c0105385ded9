-- ===== src/Broker/Relay.antt =====
-- processReads and processWrites of broker.go: a client's socket on one side, its broker on the other.
-- The library gorilla/websocket is not modelled: what the socket gives and whether a write fails are
-- arguments.
pub mod Frames
pub mod Delivered
pub mod Letters
use Prim.Native.Nat.{zero, suc}
use pmb.Base.{
  ℕ, Bool, ◌||◌, ◌&&◌, Option, none, some, List, [], ◌∷◌, Bytes, map, nat_eq, leb, if◌then◌else◌,
}
use pmb.Base.Go.{Go, done, waits, after}
use pmb.Broker.{Input, remove, send}

-- A white-space character of one byte.
abbrev pub is_space : ℕ → Bool
is_space b = (leb 9 b && leb b 13) || nat_eq b 32

-- NEL and the no-break space, in two bytes.
abbrev pub is_space_2 : ℕ → ℕ → Bool
is_space_2 a b = nat_eq a 0xc2 && (nat_eq b 0x85 || nat_eq b 0xa0)

-- The white-space characters of three bytes: U+1680, U+2000 to U+200A, U+2028, U+2029, U+202F, U+205F
-- and U+3000.
abbrev pub is_space_3 : ℕ → ℕ → ℕ → Bool
is_space_3 a b c =
    (nat_eq a 0xe1 && (nat_eq b 0x9a && nat_eq c 0x80))
    || ((nat_eq a 0xe2
          && (nat_eq b 0x80
              && ((leb 0x80 c && leb c 0x8a)
                  || (nat_eq c 0xa8 || (nat_eq c 0xa9 || nat_eq c 0xaf)))))
        || ((nat_eq a 0xe2 && (nat_eq b 0x81 && nat_eq c 0x9f))
            || (nat_eq a 0xe3 && (nat_eq b 0x80 && nat_eq c 0x80))))

abbrev pub space_length_3 : ℕ → ℕ → Bytes → ℕ
space_length_3 a b [] = 0
space_length_3 a b (c ∷ bs) = if is_space_3 a b c then 3 else 0

abbrev pub space_length_2 : ℕ → Bytes → ℕ
space_length_2 a [] = 0
space_length_2 a (b ∷ bs) = if is_space_2 a b then 2 else space_length_3 a b bs

-- The bytes of the white-space character at the front, or 0.
abbrev pub space_length : Bytes → ℕ
space_length [] = 0
space_length (a ∷ bs) = if is_space a then 1 else space_length_2 a bs

-- The same of the character at the end, of bytes that stand last byte first.
abbrev pub end_length_3 : ℕ → ℕ → Bytes → ℕ
end_length_3 c b [] = 0
end_length_3 c b (a ∷ bs) = if is_space_3 a b c then 3 else 0

abbrev pub end_length_2 : ℕ → Bytes → ℕ
end_length_2 b [] = 0
end_length_2 b (a ∷ bs) = if is_space_2 a b then 2 else end_length_3 b a bs

abbrev pub end_length : Bytes → ℕ
end_length [] = 0
end_length (b ∷ bs) = if is_space b then 1 else end_length_2 b bs

-- The bytes without the characters at their front that `len` measures; the number is that of the bytes
-- of such a character that are still to be left out.
unfoldable pub skip_spaces : (Bytes → ℕ) → ℕ → Bytes → Bytes
skip_spaces len n [] = []
skip_spaces len (suc n) (b ∷ bs) = skip_spaces len n bs
skip_spaces len zero (b ∷ bs) = elim (len (b ∷ bs)) [ zero ↦ b ∷ bs | suc n ↦ skip_spaces len n bs ]

abbrev pub reverse_onto : Bytes → Bytes → Bytes
reverse_onto [] acc = acc
reverse_onto (b ∷ bs) acc = reverse_onto bs (b ∷ acc)

-- bytes.TrimSpace
unfoldable pub trim_space : Bytes → Bytes
unfolding skip_spaces
trim_space bs =
    reverse_onto (skip_spaces end_length 0 (reverse_onto (skip_spaces space_length 0 bs) [])) []

-- `bytes.Replace(message, newline, space, -1)`
abbrev pub newline_to_space : ℕ → ℕ
newline_to_space b = if nat_eq b 10 then 32 else b

unfoldable pub relayed : Bytes → Bytes
unfolding trim_space
relayed message = trim_space (map newline_to_space message)

-- What a client does: its reader sends to the channels of the broker, its writer writes frames, and
-- both close the socket when they end.
pub data Act : Type 0 where
  sends : Input → Act
  writes_text : Bytes → Act
  writes_close : Act
  pings : Act
  closes_socket : Act

-- processReads: what ReadMessage gives, `none` for an error.
unfoldable pub process_reads : ℕ → List (Option Bytes) → Go Act Unit
process_reads c [] = waits []
process_reads c (none ∷ frames) = done (sends (remove c) ∷ closes_socket ∷ []) tt
process_reads c (some message ∷ frames) =
    after (sends (send (relayed message)) ∷ []) (process_reads c frames)

-- What the select of processWrites finds: a message, with whether a writer opens and closes; that the
-- channel is closed; or the ticker, with whether the ping is sent.
pub data Turn : Type 0 where
  message : Bytes → Bool → Bool → Turn
  closed : Turn
  tick : Bool → Turn

unfoldable pub process_writes : List Turn → Go Act Unit
process_writes [] = waits []
process_writes (message m opens closes ∷ turns) =
    let rest = process_writes turns in
    if opens
    then (if closes
        then after (writes_text m ∷ []) rest
        else done (writes_text m ∷ closes_socket ∷ []) tt)
    else done (closes_socket ∷ []) tt
process_writes (closed ∷ turns) = done (writes_close ∷ closes_socket ∷ []) tt
process_writes (tick sent ∷ turns) =
    let rest = process_writes turns in
    if sent then after (pings ∷ []) rest else done (pings ∷ closes_socket ∷ []) tt
