-- ===== src/Plugin/Lines.antt =====
-- How bufio cuts the output of a plugin of plugin.go into lines.
use pmb.Base.{
  ℕ, ◌+◌, ◌<◌, suc, ◌≡◌, refl, ap, ◌∙◌, false, none, Option, String, List, [], ◌∷◌, ◌++◌, Bytes,
  length, nat_eq, All, arith,
}
use pmb.Base.Go.{done}
use pmb.Json.{Value}
use pmb.Broker.Relay.{reverse_onto}
use pmb.Plugin.{Process, strip_return, ended, buffered, read_lines, send_lines, run_plugin_once}
use pmb.Plugin.Output.{IsFit, messages, send_lines-messages}

-- Neither a newline nor a carriage return.
abbrev pub IsPlain : ℕ → Type 0
IsPlain b = (nat_eq b 10 ≡ false) × (nat_eq b 13 ≡ false)

reverse_onto-append :
    (xs ys zs : Bytes) → reverse_onto (reverse_onto xs ys) zs ≡ reverse_onto ys (xs ++ zs)
reverse_onto-append [] ys zs = refl
reverse_onto-append (x ∷ xs) ys zs = reverse_onto-append xs (x ∷ ys) zs

module _ (b : ℕ) (acc : Bytes) (h : IsPlain b) where
  room : suc (length acc) < 4096 → (ended acc b ≡ []) × (buffered acc b ≡ b ∷ acc)
  room l = (ground (arith, h), ground (arith, h))

  full : length acc ≡ 4095 → (ended acc b ≡ reverse_onto (b ∷ acc) [] ∷ []) × (buffered acc b ≡ [])
  full l = (ground (arith, h), ground (arith, h))

length-reverse_onto : (xs ys : Bytes) → length (reverse_onto xs ys) ≡ length xs + length ys
length-reverse_onto [] ys = omega arith
length-reverse_onto (x ∷ xs) ys = omega (arith, length-reverse_onto xs (x ∷ ys))

-- A line is gathered as long as the buffer has room.
read_lines-gathered :
    (line acc rest : Bytes)
    → All IsPlain line
    → length line + length acc < 4096
    → read_lines acc (line ++ rest) ≡ read_lines (reverse_onto line acc) rest
unfolding read_lines
read_lines-gathered [] acc rest h l = refl
read_lines-gathered (b ∷ line) acc rest h l =
    let (e, k) = room b acc h.0 (omega arith) in
    rw (e, k) (read_lines-gathered line (b ∷ acc) rest h.1 (omega arith))

strip_plain :
    (line acc : Bytes)
    → All IsPlain line
    → strip_return acc ≡ acc
    → strip_return (reverse_onto line acc) ≡ reverse_onto line acc
strip_plain [] acc h e = e
strip_plain (b ∷ line) acc h e = strip_plain line (b ∷ acc) h.1 (rw h.0.1 refl)

append-nil : (xs : Bytes) → xs ++ [] ≡ xs
append-nil [] = refl
append-nil (x ∷ xs) = ap (λ t. x ∷ t) (append-nil xs)

-- A line of less than 4096 bytes is given whole.
read_lines-line :
    (line rest : Bytes)
    → All IsPlain line
    → length line < 4096
    → read_lines [] (line ++ 10 ∷ rest) ≡ line ∷ read_lines [] rest
unfolding read_lines
read_lines-line line rest h l =
    read_lines-gathered line [] (10 ∷ rest) h (omega arith)
    ∙ ap (λ x. x ∷ read_lines [] rest)
        (ap (λ x. reverse_onto x []) (strip_plain line [] h refl)
          ∙ reverse_onto-append line [] []
          ∙ append-nil line)

-- The first 4096 bytes of a longer line are given as a line of their own.
read_lines-cut :
    (front : Bytes) (b : ℕ) (rest : Bytes)
    → All IsPlain front
    → IsPlain b
    → length front ≡ 4095
    → read_lines [] (front ++ b ∷ rest) ≡ (front ++ b ∷ []) ∷ read_lines [] rest
unfolding read_lines
read_lines-cut front b rest h p l =
    let (e, k) =
      full b (reverse_onto front []) p (length-reverse_onto front [] ∙ omega (arith, l)) in
    read_lines-gathered front [] (b ∷ rest) h (omega arith)
    ∙ (rw (e, k) (ap (λ x. x ∷ read_lines [] rest) (reverse_onto-append front [] (b ∷ []))))

-- The text of some lines.
abbrev pub unlines : List Bytes → Bytes
unlines [] = []
unlines (line ∷ lines) = line ++ 10 ∷ unlines lines

-- A line that fits into the buffer.
abbrev pub IsShort : Bytes → Type 0
IsShort line = All IsPlain line × (length line < 4096)

pub read_lines-unlines :
    (lines : List Bytes) → All IsShort lines → read_lines [] (unlines lines) ≡ lines
unfolding read_lines
read_lines-unlines [] h = refl
read_lines-unlines (line ∷ lines) h =
    read_lines-line line (unlines lines) h.0.0 h.0.1
    ∙ ap (λ x. line ∷ x) (read_lines-unlines lines h.1)

-- A program that starts, takes its input and writes this output.
abbrev pub writing : Bytes → Process
writing output = record {
  stdin_fails = false;
  stdout_fails = false;
  start_fails = false;
  write_fails = false;
  output = output;
}

module _ (unmarshal : Bytes → Option Value) (keys : List String) where
  -- A plugin that writes lines of less than 4096 bytes, each a JSON object or no JSON: the objects are
  -- sent in their order, whole, and nothing else.
  pub run_plugin_once-messages :
      (lines : List Bytes)
      → All IsShort lines
      → All (IsFit unmarshal keys) lines
      → run_plugin_once unmarshal keys (writing (unlines lines))
        ≡ done (messages unmarshal keys lines) tt
  unfolding run_plugin_once
  run_plugin_once-messages lines h f =
      ap (send_lines unmarshal keys) (read_lines-unlines lines h)
      ∙ send_lines-messages unmarshal keys lines f

  skipped :
      (x y : Bytes)
      → unmarshal x ≡ none
      → unmarshal y ≡ none
      → send_lines unmarshal keys (x ∷ y ∷ []) ≡ done [] tt
  unfolding send_lines
  skipped x y e n = rw (send_lines, e, n) refl

  -- A longer line is lost, whatever JSON it is: where neither its first 4096 bytes nor the rest of it is
  -- JSON, nothing is sent.
  pub run_plugin_once-lost :
      (front back : Bytes) (b : ℕ)
      → All IsPlain front
      → IsPlain b
      → length front ≡ 4095
      → IsShort back
      → unmarshal (front ++ b ∷ []) ≡ none
      → unmarshal back ≡ none
      → run_plugin_once unmarshal keys (writing (front ++ b ∷ (back ++ 10 ∷ []))) ≡ done [] tt
  unfolding run_plugin_once read_lines
  run_plugin_once-lost front back b h p l s e n =
      ap (send_lines unmarshal keys) (
        read_lines-cut front b (back ++ 10 ∷ []) h p l
        ∙ ap (λ x. (front ++ b ∷ []) ∷ x) (read_lines-line back [] s.0 s.1))
      ∙ skipped (front ++ b ∷ []) back e n
