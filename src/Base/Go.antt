-- ===== src/Base/Go.antt =====
-- A stretch of Go code that talks to the outside: the effects that it makes, in order, and how it
-- ends. The input that it reads is an argument of each function, as a list of events.
use Prim.Native.String.{String}
use mathlib.Core.Path.{◌≡◌, refl}
use native.Mathlib.Omega.{arith}
use mathlib.Core.Logic.{◌⊎◌, inl, inr}
use pmb.Base.Lists.{All, All-append, map-All, Any, Any-append}
use mathlib.Core.Option.{Option, none, some}
use mathlib.Core.List.{List, [], ◌∷◌, ◌++◌, map}

-- A value, an error that is returned, a run-time panic, or a wait for input that is not there yet.
pub data Go (E A : Type 0) : Type 0 where
  done : List E → A → Go E A
  fails : List E → String → Go E A
  panics : List E → Go E A
  waits : List E → Go E A

module _ {E A : Type 0} where
  abbrev pub after : List E → Go E A → Go E A
  after t (done u a) = done (t ++ u) a
  after t (fails u e) = fails (t ++ u) e
  after t (panics u) = panics (t ++ u)
  after t (waits u) = waits (t ++ u)

  abbrev pub pure : A → Go E A
  pure a = done [] a

  -- A type assertion `x.(T)` or an index, which panics when it fails.
  abbrev pub must : Option A → Go E A
  must none = panics []
  must (some a) = done [] a

  abbrev pub or_fail : Option A → String → Go E A
  or_fail none e = fails [] e
  or_fail (some a) e = done [] a

  -- The effects made, however the code ended.
  abbrev pub trace : Go E A → List E
  trace (done t a) = t
  trace (fails t e) = t
  trace (panics t) = t
  trace (waits t) = t

  -- `err = f(); if err != nil`: an error becomes a value.
  abbrev pub rescue : Go E A → Go E (Option String)
  rescue (done t a) = done t none
  rescue (fails t e) = done t (some e)
  rescue (panics t) = panics t
  rescue (waits t) = waits t

-- The same code where its effects are some of more.
abbrev pub lift : {E F A : Type 0} → (E → F) → Go E A → Go F A
lift f (done t a) = done (map f t) a
lift f (fails t e) = fails (map f t) e
lift f (panics t) = panics (map f t)
lift f (waits t) = waits (map f t)

abbrev pub emit : {E : Type 0} → E → Go E Unit
emit e = done (e ∷ []) tt

module _ {E A B : Type 0} where
  infixl 5 ◌>>=◌ ◌>>◌
  abbrev pub ◌>>=◌ : Go E A → (A → Go E B) → Go E B
  done t a >>= f = after t (f a)
  fails t e >>= f = fails t e
  panics t >>= f = panics t
  waits t >>= f = waits t

  abbrev pub ◌>>◌ : Go E A → Go E B → Go E B
  m >> k = m >>= λ _. k

module _ {E B : Type 0} where
  pub after-nil : (g : Go E B) → after [] g ≡ g
  after-nil (done t a) = refl
  after-nil (fails t e) = refl
  after-nil (panics t) = refl
  after-nil (waits t) = refl

  pub after-eq-done :
      (u : List E) (g : Go E B) {t : List E} {b : B}
      → after u g ≡ done t b
      → (v : List E) × (g ≡ done v b)
  after-eq-done u (done v c) h = (v, ground arith)
  after-eq-done u (fails v c) h = cc
  after-eq-done u (panics v) h = cc
  after-eq-done u (waits v) h = cc

  -- An error that becomes a value undoes no effect.
  pub trace-rescue : (g : Go E B) → trace (rescue g) ≡ trace g
  trace-rescue (done t a) = refl
  trace-rescue (fails t e) = refl
  trace-rescue (panics t) = refl
  trace-rescue (waits t) = refl

  pub trace-after :
      (P : E → Type 0) (u : List E) (g : Go E B)
      → All P u
      → All P (trace g)
      → All P (trace (after u g))
  trace-after P u (done v b) h k = All-append P u v h k
  trace-after P u (fails v b) h k = All-append P u v h k
  trace-after P u (panics v) h k = All-append P u v h k
  trace-after P u (waits v) h k = All-append P u v h k

module _ {E A B : Type 0} where
  -- A value comes out of a sequence only if both parts gave one.
  pub >>=-eq-done :
      (m : Go E A) (f : A → Go E B) {t : List E} {b : B}
      → (m >>= f) ≡ done t b
      → (u : List E) × (a : A) × (m ≡ done u a) × (v : List E) × (f a ≡ done v b)
  >>=-eq-done (done u a) f h = let (v, e) = after-eq-done u (f a) h in (u, a, refl, v, e)
  >>=-eq-done (fails u e) f h = cc
  >>=-eq-done (panics u) f h = cc
  >>=-eq-done (waits u) f h = cc

  -- What holds of all effects of both parts holds of the sequence's.
  pub All-trace :
      (P : E → Type 0) (m : Go E A) (f : A → Go E B)
      → All P (trace m)
      → ((u : List E) (a : A) → m ≡ done u a → All P (trace (f a)))
      → All P (trace (m >>= f))
  All-trace P (done u a) f h k = trace-after P u (f a) h (k u a refl)
  All-trace P (fails u e) f h k = h
  All-trace P (panics u) f h k = h
  All-trace P (waits u) f h k = h

  -- An assertion makes no effect.
  pub All-must :
      (P : E → Type 0) (o : Option A) (f : A → Go E B)
      → ((a : A) → o ≡ some a → All P (trace (f a)))
      → All P (trace (must o >>= f))
  All-must P none f h = tt
  All-must P (some a) f h = rw (after-nil (f a)) (h a refl)

module _ {E F A : Type 0} where
  pub trace-lift : (f : E → F) (g : Go E A) → trace (lift f g) ≡ map f (trace g)
  trace-lift f (done t a) = refl
  trace-lift f (fails t e) = refl
  trace-lift f (panics t) = refl
  trace-lift f (waits t) = refl

  pub All-trace-lift :
      (P : F → Type 0) (f : E → F) (g : Go E A)
      → All (λ e. P (f e)) (trace g)
      → All P (trace (lift f g))
  All-trace-lift P f g h = rw (trace-lift f g) (map-All P f (trace g) h)

-- An effect of a sequence was made by one of its parts.
module _ {E B : Type 0} where
  Any-trace-after :
      (P : E → Type 0) (u : List E) (g : Go E B)
      → Any P (trace (after u g))
      → Any P u ⊎ Any P (trace g)
  Any-trace-after P u (done v b) h = Any-append P u v h
  Any-trace-after P u (fails v b) h = Any-append P u v h
  Any-trace-after P u (panics v) h = Any-append P u v h
  Any-trace-after P u (waits v) h = Any-append P u v h

module _ {E A B : Type 0} where
  pub Any-trace :
      (P : E → Type 0) (m : Go E A) (f : A → Go E B)
      → Any P (trace (m >>= f))
      → Any P (trace m) ⊎ ((u : List E) × (a : A) × (m ≡ done u a) × Any P (trace (f a)))
  Any-trace P (done u a) f h = elim (Any-trace-after P u (f a) h) [
    | inl x ↦ inl x
    | inr x ↦ inr (u, a, refl, x)
  ]
  Any-trace P (fails u e) f h = inl h
  Any-trace P (panics u) f h = inl h
  Any-trace P (waits u) f h = inl h

  -- An assertion makes no effect, so what follows it made them all.
  pub Any-must :
      (P : E → Type 0) (o : Option A) (f : A → Go E B)
      → Any P (trace (must o >>= f))
      → (a : A) × (o ≡ some a) × Any P (trace (f a))
  Any-must P none f h = absurd h
  Any-must P (some a) f h = elim (Any-trace-after P [] (f a) h) [
    | inl x ↦ absurd x
    | inr x ↦ (a, refl, x)
  ]
