-- ===== src/Broker/Relay/Letters.antt =====
-- An encoding of bytes in letters, which stands for base64 in the concrete runs over the broker.
use Prim.Native.Nat.{zero, suc}
use pmb.Base.{ℕ, ◌+◌, ◌≡◌, ◌≢◌, refl, ap, ◌∙◌, [], ◌∷◌, Bytes, All, nat_eq, arith, if◌then◌else◌}
use pmb.Broker.Relay.Frames.{Visible}

-- A byte as so many letters B, and an A.
abbrev letters : ℕ → Bytes → Bytes
letters zero rest = b'A' ∷ rest
letters (suc n) rest = b'B' ∷ letters n rest

abbrev pub spell : Bytes → Bytes
spell [] = []
spell (b ∷ bs) = letters b (spell bs)

abbrev pub unspell : ℕ → Bytes → Bytes
unspell n [] = []
unspell n (x ∷ xs) =
    let next = unspell 0 xs in
    let more = unspell (suc n) xs in if nat_eq x b'A' then n ∷ next else more

unspell-letters : (n b : ℕ) (rest : Bytes) → unspell n (letters b rest) ≡ (b + n) ∷ unspell 0 rest
unspell-letters n zero rest = ap (λ x. x ∷ unspell 0 rest) (omega arith)
unspell-letters n (suc b) rest =
    unspell-letters (suc n) b rest ∙ ap (λ x. x ∷ unspell 0 rest) (omega arith)

pub unspell-spell : (b : Bytes) → unspell 0 (spell b) ≡ b
unspell-spell [] = refl
unspell-spell (b ∷ bs) = unspell-letters 0 b (spell bs) ∙ ground (arith, unspell-spell bs)

letters-nonempty : (b : ℕ) (rest : Bytes) → letters b rest ≢ []
letters-nonempty zero rest h = cc
letters-nonempty (suc b) rest h = cc

pub spell-nonempty : (b : Bytes) → b ≢ [] → spell b ≢ []
spell-nonempty [] n h = n refl
spell-nonempty (b ∷ bs) n h = letters-nonempty b (spell bs) h

letters_no_brace : (b : ℕ) (xs rest : Bytes) → letters b xs ≢ b'{' ∷ rest
letters_no_brace zero xs rest h = ground arith
letters_no_brace (suc b) xs rest h = ground arith

pub spell_no_brace : (b rest : Bytes) → spell b ≢ b'{' ∷ rest
spell_no_brace [] rest h = cc
spell_no_brace (b ∷ bs) rest h = letters_no_brace b (spell bs) rest h

letters-Visible : (b : ℕ) (rest : Bytes) → All Visible rest → All Visible (letters b rest)
letters-Visible zero rest h = ((omega arith, omega arith), h)
letters-Visible (suc b) rest h = ((omega arith, omega arith), letters-Visible b rest h)

pub spell-Visible : (b : Bytes) → All Visible (spell b)
spell-Visible [] = tt
spell-Visible (b ∷ bs) = letters-Visible b (spell bs) (spell-Visible bs)
