-- ===== src/Process.antt =====
-- process.go: MaskProcessArg writes over an argument of the program.
pub mod Masked
use pmb.Base.{ℕ, zero, suc, Option, none, some, List, [], ◌∷◌, Bytes, map}

-- `copy(argv0, strings.Repeat("x", len(existing)))`: both have the length of the argument, so that no
-- zero is written behind the copy.
abbrev pub masked : Bytes → Bytes
masked existing = map (λ b. b'x') existing

-- MaskProcessArg on os.Args; `none` is the panic of an index out of range.
unfoldable pub mask_process_arg : ℕ → List Bytes → Option (List Bytes)
mask_process_arg n [] = none
mask_process_arg zero (arg ∷ args) = some (masked arg ∷ args)
mask_process_arg (suc n) (arg ∷ args) = elim (mask_process_arg n args) [
  | none ↦ none
  | some rest ↦ some (arg ∷ rest)
]
