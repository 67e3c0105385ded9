-- ===== src/Plugin/Output.antt =====
-- What the output of a plugin of plugin.go becomes.
use pmb.Base.{
  String, ◌≡◌, refl, ap, ◌⊎◌, inl, inr, Option, none, some, List, [], ◌∷◌, ◌++◌, Bytes, All,
}
use pmb.Base.Go.{done, panics, after}
use pmb.Json.{Value, Fields, obj, as_object}
use pmb.Client.{Effect, sends}
use pmb.Plugin.{send_lines}

module _ (unmarshal : Bytes → Option Value) (keys : List String) where
  -- A line that is no JSON, or an object.
  abbrev pub IsFit : Bytes → Type 0
  IsFit line = (unmarshal line ≡ none) ⊎ ((m : Fields) × (unmarshal line ≡ some (obj m)))

  abbrev pub message_of : Option Value → List Effect
  message_of none = []
  message_of (some v) = elim (as_object v) [ none ↦ [] | some m ↦ sends keys m ∷ [] ]

  -- The messages of the objects among the lines.
  abbrev pub messages : List Bytes → List Effect
  messages [] = []
  messages (line ∷ lines) = message_of (unmarshal line) ++ messages lines

  -- Where all lines are objects or no JSON, the objects are sent in their order and nothing else.
  pub send_lines-messages :
      (lines : List Bytes)
      → All IsFit lines
      → send_lines unmarshal keys lines ≡ done (messages lines) tt
  unfolding send_lines
  send_lines-messages [] h = refl
  send_lines-messages (line ∷ lines) h = elim h.0 [
    | inl x ↦ rw (send_lines, x) (send_lines-messages lines h.1)
    | inr (m, x) ↦ rw (send_lines, x, send_lines-messages lines h.1)
  ]

  -- Where another JSON value follows them, the code panics behind them.
  pub send_lines-IsFit :
      (lines : List Bytes) (bad : Bytes) (v : Value) (rest : List Bytes)
      → All IsFit lines
      → unmarshal bad ≡ some v
      → as_object v ≡ none
      → send_lines unmarshal keys (lines ++ bad ∷ rest) ≡ panics (messages lines)
  unfolding send_lines
  send_lines-IsFit [] bad v rest h e n = rw (send_lines, e, n)
  send_lines-IsFit (line ∷ lines) bad v rest h e n =
      let later = send_lines-IsFit lines bad v rest h.1 e n in
      elim h.0 [
        | inl x ↦ rw (send_lines, x) later
        | inr (m, x) ↦ rw (send_lines, x) (ap (after (sends keys m ∷ [])) later)
      ]
