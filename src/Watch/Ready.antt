-- ===== src/Watch/Ready.antt =====
-- When watch.go sends its note.
use pmb.Base.{
  ◌↔◌, ℕ, String, ◌≡◌, ◌≢◌, refl, ap, ◌⊎◌, inl, inr, false, Option, none, some, List, [], ◌∷◌, ◌++◌,
  Any, is_set, nat_eq, Bool-cases, Option-cases, arith,
}
use pmb.Base.Go.{Go, done, fails, panics, waits, trace, ◌>>=◌, >>=-eq-done, Any-trace}
use pmb.Json.{Fields}
use pmb.Client.{sends, Effect, Event, Connection}
use pmb.Watch.{
  Options, Poll, exits_well, exit_error, run_error, find_process, watch_process, watch_file,
  process_part, file_part, run_watch,
}

-- Some poll did not find the process.
abbrev pub Ends : List Poll → Type 0
Ends ps = Any (λ p. p ≢ exits_well) ps

-- Two polls in a row found the file with the same size.
abbrev pub Stable : List (Option ℕ) → Type 0
Stable ss =
    (before rest : List (Option ℕ)) × (size : ℕ) × (ss ≡ before ++ some size ∷ some size ∷ rest)

watch_process-Ends :
    (pid : String) (ps : List Poll) (name : String) {t : List Effect} {n : String}
    → watch_process pid ps name ≡ done t n
    → Ends ps
unfolding watch_process find_process
watch_process-Ends pid [] name h = cc
watch_process-Ends pid (exits_well ∷ ps) name h = inr (watch_process-Ends pid ps _ h)
watch_process-Ends pid (exit_error ∷ ps) name h = inl (λ e. cc)
watch_process-Ends pid (run_error e ∷ ps) name h = inl (λ e. cc)

Ends-watch_process :
    (pid : String) (ps : List Poll) (name : String)
    → Ends ps
    → (n : String) × (watch_process pid ps name ≡ done [] n)
unfolding watch_process find_process
Ends-watch_process pid [] name h = absurd h
Ends-watch_process pid (exits_well ∷ ps) name (inl e) = absurd (e refl)
Ends-watch_process pid (exits_well ∷ ps) name (inr h) = Ends-watch_process pid ps _ h
Ends-watch_process pid (exit_error ∷ ps) name h = (name, refl)
Ends-watch_process pid (run_error e ∷ ps) name h = (name, refl)

-- The wait for a process comes to its end exactly if some poll does not find the process, for
-- whatever reason ps did not find it.
pub watch_process_iff :
    (pid : String) (ps : List Poll) (name : String)
    → ((t : List Effect) × (n : String) × (watch_process pid ps name ≡ done t n)) ↔ Ends ps
watch_process_iff pid ps name = (
  λ h. let (t, n, e) = h in watch_process-Ends pid ps name e,
  λ h. let (n, e) = Ends-watch_process pid ps name h in ([], n, e),
)

watch_file-Stable :
    (ss : List (Option ℕ)) (prev : Option ℕ) {t : List Effect}
    → watch_file ss prev ≡ done t tt
    → Stable ss
      ⊎ ((size : ℕ) × (rest : List (Option ℕ)) × (prev ≡ some size) × (ss ≡ some size ∷ rest))
unfolding watch_file
watch_file-Stable [] prev h = cc
watch_file-Stable (none ∷ ss) prev h = cc
watch_file-Stable (some size ∷ ss) none h = elim (watch_file-Stable ss (some size) h) [
  | inl (before, rest, x, e) ↦ inl (some size ∷ before, rest, x, ap (λ l. some size ∷ l) e)
  | inr (x, rest, e, f) ↦ inl ([], rest, size, ground arith)
]
watch_file-Stable (some size ∷ ss) (some prev) h = elim (Bool-cases (nat_eq prev size)) [
  | inl same ↦ inr (size, ss, ground arith, refl)
  | inr other ↦ elim (watch_file-Stable ss (some size) (rw (watch_file, other) at h)) [
    | inl (before, rest, x, e) ↦ inl (some size ∷ before, rest, x, ap (λ l. some size ∷ l) e)
    | inr (x, rest, e, f) ↦ inl ([], rest, size, ground arith)
  ]
]

-- A message is sent.
abbrev pub Sends : List Effect → Type 0
Sends t = Any (λ e. (keys : List String) × (m : Fields) × (e ≡ sends keys m)) t

-- What was waited for has come.
abbrev pub Ready : Options → List Poll → List (Option ℕ) → Type 0
Ready o polls sizes = ((o.pid ≡ none) ⊎ Ends polls) × ((is_set o.file ≡ false) ⊎ Stable sizes)

process_part-Ends :
    (o : Options) (polls : List Poll) {t : List Effect} {m : String}
    → process_part o polls ≡ done t m
    → (o.pid ≡ none) ⊎ Ends polls
unfolding process_part
process_part-Ends o polls h = elim (Option-cases o.pid) [
  | inl e ↦ inl e
  | inr (pid, e) ↦
      let (u, n, f, v, g) =
        >>=-eq-done (watch_process pid polls "") _ (rw (process_part, e) at h) in
      inr (watch_process-Ends pid polls "" f)
]

file_part-Stable :
    (o : Options) (sizes : List (Option ℕ)) (message : String) {t : List Effect} {m : String}
    → file_part o sizes message ≡ done t m
    → (is_set o.file ≡ false) ⊎ Stable sizes
unfolding file_part
file_part-Stable o sizes message h = elim (Bool-cases (is_set o.file)) [
  | inr e ↦ inl e
  | inl e ↦
      let (u, x, f, v, g) = >>=-eq-done (watch_file sizes none) _ (rw (file_part, e) at h) in
      elim (watch_file-Stable sizes none f) [ inl s ↦ inr s | inr (size, rest, k, l) ↦ cc k ]
]

>>=-silent :
    {A B : Type 0} (g : Go Effect A) (f : A → B)
    → trace g ≡ []
    → trace (g >>= λ a. done [] (f a)) ≡ []
>>=-silent (done t a) f h = ground arith
>>=-silent (fails t e) f h = h
>>=-silent (panics t) f h = h
>>=-silent (waits t) f h = h

watch_process-silent :
    (pid : String) (ps : List Poll) (name : String) → trace (watch_process pid ps name) ≡ []
unfolding watch_process find_process
watch_process-silent pid [] name = refl
watch_process-silent pid (exits_well ∷ ps) name = watch_process-silent pid ps _
watch_process-silent pid (exit_error ∷ ps) name = refl
watch_process-silent pid (run_error e ∷ ps) name = refl

watch_file-silent : (ss : List (Option ℕ)) (prev : Option ℕ) → trace (watch_file ss prev) ≡ []
unfolding watch_file
watch_file-silent [] prev = refl
watch_file-silent (none ∷ ss) prev = refl
watch_file-silent (some size ∷ ss) prev = ground (arith, watch_file-silent ss (some size))

process_part-silent : (o : Options) (polls : List Poll) → trace (process_part o polls) ≡ []
unfolding process_part
process_part-silent o polls = elim (Option-cases o.pid) [
  | inl e ↦ rw (process_part, e)
  | inr (pid, e) ↦
      rw (process_part, e)
        (>>=-silent (watch_process pid polls "") _ (watch_process-silent pid polls ""))
]

file_part-silent :
    (o : Options) (sizes : List (Option ℕ)) (message : String)
    → trace (file_part o sizes message) ≡ []
unfolding file_part
file_part-silent o sizes message = elim (Bool-cases (is_set o.file)) [
  | inr e ↦ rw (file_part, e)
  | inl e ↦ rw (file_part, e) (>>=-silent (watch_file sizes none) _ (watch_file-silent sizes none))
]

-- If runWatch sends anything, then the process that it was told to watch was not found by one of the
-- polls, and the file that it was told to watch had the same size in two polls in a row.
pub run_watch-Ready :
    (o : Options) (notification_id : String) (conn : Connection) (polls : List Poll)
    (sizes : List (Option ℕ)) (es : List Event)
    → Sends (trace (run_watch o notification_id conn polls sizes es))
    → Ready o polls sizes
unfolding run_watch
run_watch-Ready o notification_id conn polls sizes es h =
    elim (Any-trace _ (process_part o polls) _ h) [
      | inl x ↦ absurd (rw (process_part-silent o polls) at x)
      | inr (u, ended, e, k) ↦ elim (Any-trace _ (file_part o sizes ended) _ k) [
        | inl x ↦ absurd (rw (file_part-silent o sizes ended) at x)
        | inr (v, m, f, l) ↦ (process_part-Ends o polls e, file_part-Stable o sizes ended f)
      ]
    ]
