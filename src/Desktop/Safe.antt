-- ===== src/Desktop/Safe.antt =====
-- When the desktop helpers of util.go fail.
use pmb.Base.{
  String, ◌≡◌, ◌⊎◌, inl, inr, Bool, true, List, [], ◌∷◌, Bool-cases, if◌then◌else◌, arith,
}
use pmb.Base.Go.{done, panics}
use pmb.Desktop.{runs, Desk, copy_to_clipboard, display_notice}

abbrev pub HasClipboard : Desk → Type 0
HasClipboard d =
    (d.look "pbcopy" ≡ true)
    ⊎ (d.look "clip" ≡ true)
    ⊎ (d.look "xclip" ≡ true)
    ⊎ (d.look "tmux" ≡ true)

-- copyToClipboard hands the text, whole, to one program, if the desktop has one of the four that it
-- knows; with none of them it panics.
pub copy_to_clipboard-cases :
    (d : Desk) (text : String)
    → (HasClipboard d
        × ((argv : List String) × (copy_to_clipboard d text ≡ done (runs argv text ∷ []) tt)))
      ⊎ ((¬ HasClipboard d) × (copy_to_clipboard d text ≡ panics []))
unfolding copy_to_clipboard
copy_to_clipboard-cases d text = elim (Bool-cases (d.look "pbcopy")) [
  | inl a ↦ inl (inl a, ("pbcopy" ∷ [], rw a))
  | inr a ↦ elim (Bool-cases (d.look "clip")) [
    | inl b ↦ inl (inr (inl b), ("clip" ∷ [], rw (a, b)))
    | inr b ↦ elim (Bool-cases (d.look "xclip")) [
      | inl c ↦ inl (inr (inr (inl c)), ("xclip" ∷ "-selection" ∷ "c" ∷ [], rw (a, b, c)))
      | inr c ↦ elim (Bool-cases (d.look "tmux")) [
        | inl e ↦ inl (inr (inr (inr e)), ("tmux" ∷ "load-buffer" ∷ "-" ∷ [], rw (a, b, c, e)))
        | inr e ↦ inr (λ h. ground arith, rw (a, b, c, e))
      ]
    ]
  ]
]

-- displayNotice neither fails nor panics, and runs at most one program.
pub display_notice-done :
    (d : Desk) (text : String) (sticky : Bool)
    → (display_notice d text sticky ≡ done [] tt)
      ⊎ ((argv : List String) × (display_notice d text sticky ≡ done (runs argv "" ∷ []) tt))
unfolding display_notice
display_notice-done d text sticky = elim (Bool-cases (d.look "growlnotify")) [
  | inl a ↦ inr ("growlnotify" ∷ "-m" ∷ text ∷ (if sticky then "-s" ∷ [] else []), rw a)
  | inr a ↦ elim (Bool-cases (d.look "terminal-notifier")) [
    | inl b ↦ inr ("terminal-notifier" ∷ "-message" ∷ text ∷ [], rw (a, b))
    | inr b ↦ elim (Bool-cases (d.look "SnoreToast")) [
      | inl c ↦ inr ("SnoreToast" ∷ "-silent" ∷ "-t" ∷ "PMB" ∷ "-m" ∷ text ∷ [], rw (a, b, c))
      | inr c ↦ elim (Bool-cases (d.look "notify-send")) [
        | inl e ↦ inr (
          "notify-send" ∷ "pmb" ∷ text ∷ (if sticky then "-t" ∷ "60" ∷ [] else "-t" ∷ "3" ∷ []),
          rw (a, b, c, e),
        )
        | inr e ↦ elim (Bool-cases (d.look "tmux")) [
          | inl f ↦ inr ("tmux" ∷ "display-message" ∷ text ∷ [], rw (a, b, c, e, f))
          | inr f ↦ inl (rw (a, b, c, e, f))
        ]
      ]
    ]
  ]
]
