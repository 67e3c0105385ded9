-- ===== src/Protocol/Done.antt =====
-- Code that comes to its end: the helpers of util.go.
use pmb.Base.{String, ◌≡◌, inl, inr, Bool, true, false, Option, none, some, List, [], ◌∷◌, ◌<>◌}
use pmb.Base.Go.{◌>>=◌, Go, done, fails, panics, waits, after, must, rescue}
use pmb.Desktop.{
  creates, writes, renames, opens_file, opens_url, Desk, open_url, display_notice,
  copy_to_clipboard, check,
}
use pmb.Desktop.Safe.{HasClipboard, copy_to_clipboard-cases, display_notice-done}

-- The code comes to its end without a panic or an error.
abbrev pub IsDone : {E A : Type 0} → Go E A → Type 0
IsDone (done t a) = Unit
IsDone (fails t e) = ⊥
IsDone (panics t) = ⊥
IsDone (waits t) = ⊥

module _ {E B : Type 0} where
  after-IsDone : (t : List E) (g : Go E B) → IsDone g → IsDone (after t g)
  after-IsDone t (done u b) h = tt
  after-IsDone t (fails u e) h = h
  after-IsDone t (panics u) h = h
  after-IsDone t (waits u) h = h

module _ {E A B : Type 0} where
  pub then-IsDone :
      (g : Go E A) (f : A → Go E B) → IsDone g → ((a : A) → IsDone (f a)) → IsDone (g >>= f)
  then-IsDone (done t a) f h k = after-IsDone t (f a) (k a)
  then-IsDone (fails t e) f h k = h
  then-IsDone (panics t) f h k = h
  then-IsDone (waits t) f h k = h

  pub must-IsDone :
      (o : Option A) (f : A → Go E B) (a : A) → o ≡ some a → IsDone (f a) → IsDone (must o >>= f)
  must-IsDone o f a e h = rw e (after-IsDone [] (f a) h)

pub notice-IsDone :
    (d : Desk) (text : String) (sticky : Bool) → IsDone (display_notice d text sticky)
notice-IsDone d text sticky = elim (display_notice-done d text sticky) [
  | inl e ↦ rw e tt
  | inr (argv, e) ↦ rw e tt
]

pub copy-IsDone : (d : Desk) (text : String) → HasClipboard d → IsDone (copy_to_clipboard d text)
copy-IsDone d text c = elim (copy_to_clipboard-cases d text) [
  | inl (h, (argv, e)) ↦ rw e tt
  | inr (n, e) ↦ absurd (n c)
]

module _ {E B : Type 0} where
  rescue-after : (t : List E) (g : Go E B) → IsDone (rescue g) → IsDone (rescue (after t g))
  rescue-after t (done u b) h = tt
  rescue-after t (fails u e) h = tt
  rescue-after t (panics u) h = h
  rescue-after t (waits u) h = h

module _ {E A B : Type 0} where
  rescue-then :
      (g : Go E A) (f : A → Go E B)
      → IsDone (rescue g)
      → ((a : A) → IsDone (rescue (f a)))
      → IsDone (rescue (g >>= f))
  rescue-then (done t a) f h k = rescue-after t (f a) (k a)
  rescue-then (fails t e) f h k = tt
  rescue-then (panics t) f h k = h
  rescue-then (waits t) f h k = h

check-IsDone : (o : Option String) → IsDone (rescue (check o))
check-IsDone none = tt
check-IsDone (some e) = tt

pub open-IsDone : (d : Desk) (text : String) (html : Bool) → IsDone (rescue (open_url d text html))
unfolding open_url
open-IsDone d text true = rescue-then (check d.temp_error) _ (check-IsDone d.temp_error) (λ _.
    rescue-after (creates d.temp_name ∷ []) _ (
      rescue-then (check d.write_error) _ (check-IsDone d.write_error) (λ _.
        rescue-after (writes d.temp_name text ∷ []) _ (
          rescue-then (check d.close_error) _ (check-IsDone d.close_error) (λ _.
            rescue-then (check d.rename_error) _ (check-IsDone d.rename_error) (λ _.
              rescue-after (renames d.temp_name (d.temp_name <> ".html") ∷ []) _ (
                rescue-after (opens_file (d.temp_name <> ".html") ∷ []) (check d.browse_error)
                  (check-IsDone d.browse_error))))))))
open-IsDone d text false =
    rescue-after (opens_url text ∷ []) (check d.browse_error) (check-IsDone d.browse_error)
