-- ===== src/Process/Masked.antt =====
-- What MaskProcessArg of process.go leaves of the arguments.
use pmb.Base.{suc, ◌≡◌, refl, ap, some, List, [], ◌∷◌, ◌++◌, Bytes, All, length}
use pmb.Process.{masked, mask_process_arg}

length-masked : (arg : Bytes) → length (masked arg) ≡ length arg
length-masked [] = refl
length-masked (b ∷ bs) = ap suc (length-masked bs)

masked-All : (arg : Bytes) → All (λ b. b ≡ b'x') (masked arg)
masked-All [] = tt
masked-All (b ∷ bs) = (refl, masked-All bs)

-- The argument at the index is written over with as many letters x as it has bytes, and no other argument
-- is touched.
pub mask_process_arg-masked :
    (before after : List Bytes) (arg : Bytes)
    → (new : Bytes) × (mask_process_arg (length before) (before ++ arg ∷ after)
        ≡ some (before ++ new ∷ after))
      × (length new ≡ length arg)
      × All (λ b. b ≡ b'x') new
unfolding mask_process_arg
mask_process_arg-masked [] after arg = (masked arg, refl, length-masked arg, masked-All arg)
mask_process_arg-masked (x ∷ before) after arg =
    let (new, e, l, a) = mask_process_arg-masked before after arg in
    (new, rw (mask_process_arg, e) refl, l, a)
