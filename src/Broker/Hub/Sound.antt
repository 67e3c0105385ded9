-- ===== src/Broker/Hub/Sound.antt =====
-- Broker.run of broker.go among the other goroutines: what never happens.
use mathlib.Core.Option.{some-injective}
use pmb.Base.{
  ℕ, ◌≡◌, ◌≢◌, refl, sym, ap, subst, ◌∙◌, ◌⊎◌, inl, inr, Bool, List, true, false, none, some, ◌∷◌,
  Bytes, nat_eq, Bool-cases, arith,
}
use pmb.Broker.{
  Broker, Input, add, remove, send, contains, delete, round, on_add, on_remove, take_message,
}
use pmb.Broker.Invariant.{IsSound, dropped, close_channel-dropped, contains-delete}
use pmb.Broker.Broadcast.{offer_all-Served}
use pmb.Broker.Reach.{IsNew, round-IsSound, take_message-IsSound, new_broker-IsSound}
use pmb.Broker.Relay.{relayed}
use pmb.Broker.Hub.{
  Point, checking, working, Hub, start, checked, Step, arrives, takes, sweeps, speaks, leaves,
  works, checks, reads, Reach, here, next,
}

-- A round leaves a client that it is not about, and that is not in the map, as it was.
round-IsNew :
    (i : Input) (b b' : Broker) (d : ℕ)
    → IsSound b
    → round i b ≡ some b'
    → ((e : ℕ) → i ≡ add e → nat_eq e d ≡ false)
    → IsNew (add d) b
    → IsNew (add d) b'
unfolding round on_add on_remove
round-IsNew (add e) b b' d s h a (n, f) = ground (arith, a e refl)
round-IsNew (remove e) b b' d s h a (n, f) = elim (Bool-cases (contains e b.clients)) [
  | inr k ↦ ground arith
  | inl k ↦
      let same : dropped e b ≡ b' =
        some-injective (dropped e b) b' (sym (close_channel-dropped e b s k) ∙ rw k at h) in
      subst (IsNew (add d)) same (ground (arith, contains-delete e d b.clients))
]
round-IsNew (send msg) b b' d s h a (n, f) =
    let (b'', e, served) = offer_all-Served msg b.clients b s s.distinct (λ c k. k) in
    let same : b'' ≡ b' = some-injective b'' b' (sym e ∙ h) in
    subst (IsNew (add d)) same (ground (arith, served.channel d, served.member d))

take_message-IsNew :
    (c d : ℕ) (b b' : Broker) (msg : Bytes)
    → take_message c b ≡ some (msg, b')
    → IsNew (add d) b
    → IsNew (add d) b'
unfolding take_message
take_message-IsNew c d b b' msg h (n, f) = ground arith

-- The broker is sound; clients that the manager has not had, or that still wait, are new to it; and
-- the client that waits is not the one that is being added.
pub record IsSafe (u : Hub) : Type 0 where
  pub sound : IsSound u.broker
  pub unseen : (d : ℕ) → contains d u.seen ≡ false → IsNew (add d) u.broker
  pub waiting : (d : ℕ) → u.joining ≡ some d → IsNew (add d) u.broker × (contains d u.seen ≡ true)
  pub busy : (i : Input) → u.point ≡ working i → IsNew i u.broker
  pub known : (e : ℕ) → u.point ≡ working (add e) → contains e u.seen ≡ true
  pub apart : (d e : ℕ) → u.joining ≡ some d → u.point ≡ working (add e) → nat_eq e d ≡ false

start-IsSafe : (c : ℕ) → IsSafe (start c)
start-IsSafe c = record {
  sound = new_broker-IsSound;
  unseen = λ d n. (refl, refl);
  waiting = λ d h. ((refl, refl), ground arith);
  busy = λ i h. cc;
  known = λ e h. cc;
  apart = λ d e h k. cc;
}

-- The broker after a step that leaves the manager alone.
kept :
    (u : Hub) (b : Broker) (p : Point)
    → IsSafe u
    → IsSound b
    → ((d : ℕ) → (u.joining ≡ some d) ⊎ (contains d u.seen ≡ false) → IsNew (add d) b)
    → ((i : Input) → p ≡ working i → IsNew i b)
    → ((e : ℕ) → p ≡ working (add e) → u.point ≡ p)
    → (cs : List ℕ) (listed : Bool)
    → IsSafe (record u { broker = b; point = p; listed = listed; members = cs })
kept u b p s sound new busy same cs listed = record {
  sound = sound;
  unseen = λ d n. new d (inr n);
  waiting = λ d h. (new d (inl h), (s.waiting d h).1);
  busy = busy;
  known = λ e h. s.known e (same e h ∙ h);
  apart = λ d e h k. s.apart d e h (same e k ∙ k);
}

was-IsNew :
    (u : Hub)
    → IsSafe u
    → (d : ℕ) → (u.joining ≡ some d) ⊎ (contains d u.seen ≡ false)
    → IsNew (add d) u.broker
was-IsNew u s d (inl h) = (s.waiting d h).0
was-IsNew u s d (inr n) = s.unseen d n

working-injective : (i j : Input) → working i ≡ working j → i ≡ j
working-injective i j h = cc

IsNew-keeps :
    (b b' : Broker)
    → ((d : ℕ) → IsNew (add d) b → IsNew (add d) b')
    → (i : Input) → IsNew i b
    → IsNew i b'
IsNew-keeps b b' k (add d) n = k d n
IsNew-keeps b b' k (remove d) n = tt
IsNew-keeps b b' k (send m) n = tt

seen-apart :
    (c d : ℕ) (cs : List ℕ) → contains c cs ≡ true → contains d cs ≡ false → nat_eq c d ≡ false
seen-apart c d cs h k = ground arith

arrives-IsSafe :
    (u : Hub) (c : ℕ)
    → IsSafe u
    → contains c u.seen ≡ false
    → IsSafe (record u { joining = some c; seen = c ∷ u.seen })
arrives-IsSafe u c s n = record {
  sound = s.sound;
  unseen = λ d h. s.unseen d (ground arith);
  waiting = λ d h. (
    s.unseen d (subst (λ x. contains x u.seen ≡ false) (some-injective c d h) n),
    ground (arith, some-injective c d h),
  );
  busy = s.busy;
  known = λ d h. ground (arith, s.known d h);
  apart = λ d f h k. ground (arith, some-injective c d h, s.known f k);
}

takes-IsSafe :
    (u : Hub) (c : ℕ)
    → IsSafe u
    → u.joining ≡ some c
    → IsSafe (record u { point = working (add c); joining = none; members = c ∷ u.members })
takes-IsSafe u c s j = record {
  sound = s.sound;
  unseen = s.unseen;
  waiting = λ d h. cc;
  busy = λ i h. subst (λ x. IsNew x u.broker) (working-injective (add c) i h) (s.waiting c j).0;
  known = λ d h. ground (arith, (s.waiting c j).1, working-injective (add c) (add d) h);
  apart = λ d f h k. cc;
}

checked-ne-working : (u : Hub) (i : Input) → checked u ≢ working i
checked-ne-working u i h = ground arith

works-IsSafe :
    (u : Hub) (i : Input) (b : Broker)
    → IsSafe u
    → u.point ≡ working i
    → round i u.broker ≡ some b
    → IsSafe (record u { broker = b; point = checking })
works-IsSafe u i b s p r =
    let (b', e, sound) = round-IsSound i u.broker s.sound (s.busy i p) in
    kept u b checking s (subst IsSound (some-injective b' b (sym e ∙ r)) sound)
      (λ d h.
        round-IsNew i u.broker b d s.sound r
          (λ f k. elim h [
            | inl j ↦ s.apart d f j (p ∙ ap working k)
            | inr n ↦ seen-apart f d u.seen (s.known f (p ∙ ap working k)) n
          ])
          (was-IsNew u s d h))
      (λ j h. cc) (λ f h. cc) u.members u.listed

Step-IsSafe : {u v : Hub} → IsSafe u → Step u v → IsSafe v
Step-IsSafe {u} s (arrives c l j n e) = rw e (arrives-IsSafe u c s n)
Step-IsSafe {u} s (takes c p j e) = rw e (takes-IsSafe u c s j)
Step-IsSafe {u} s (sweeps l j n e) = rw e (
    kept u (record u.broker { retired = true }) u.point s
      (record {
        distinct = s.sound.distinct;
        open_channel = s.sound.open_channel;
        bounded = s.sound.bounded;
      })
      (was-IsNew u s)
      (λ i h. IsNew-keeps u.broker (record u.broker { retired = true }) (λ d k. k) i (s.busy i h))
      (λ f h. refl) u.members false)
Step-IsSafe {u} s (speaks c m p k e) = rw e (
    kept u u.broker (working (send (relayed m))) s s.sound (was-IsNew u s)
      (λ i h. subst (λ x. IsNew x u.broker) (working-injective (send (relayed m)) i h) tt)
      (λ f h. cc) u.members u.listed)
Step-IsSafe {u} s (leaves c p k e) = rw e (
    kept u u.broker (working (remove c)) s s.sound (was-IsNew u s)
      (λ i h. subst (λ x. IsNew x u.broker) (working-injective (remove c) i h) tt) (λ f h. cc)
      (delete c u.members) u.listed)
Step-IsSafe {u} s (works i b p r e) = rw e (works-IsSafe u i b s p r)
Step-IsSafe {u} s (checks p e) = rw e (
    kept u u.broker (checked u) s s.sound (was-IsNew u s) (λ i h. absurd (checked-ne-working u i h))
      (λ f h. absurd (checked-ne-working u (add f) h)) u.members u.listed)
Step-IsSafe {u} s (reads c m b t e) = rw e (
    kept u b u.point s (take_message-IsSound c u.broker b m s.sound t)
      (λ d h. take_message-IsNew c d u.broker b m t (was-IsNew u s d h))
      (λ i h.
        IsNew-keeps u.broker b (λ d k. take_message-IsNew c d u.broker b m t k) i (s.busy i h))
      (λ f h. refl) u.members u.listed)

pub Reach-IsSafe : {c : ℕ} {u : Hub} → Reach (start c) u → IsSafe u
Reach-IsSafe {c} here = start-IsSafe c
Reach-IsSafe (next r s) = Step-IsSafe (Reach-IsSafe r) s

-- However the manager, its ticker, the clients' readers and writers, and Broker.run take turns: in
-- whatever case Broker.run stands, its round does not panic, so that no channel is closed twice or
-- sent to when closed; and all clients in the map are distinct, open and within their buffers.
pub Reach-working :
    {c : ℕ} {u : Hub}
    → Reach (start c) u
    → (i : Input) → u.point ≡ working i
    → IsSound u.broker × ((b : Broker) × (round i u.broker ≡ some b))
Reach-working {c} {u} r i p =
    let s = Reach-IsSafe r in
    let (b, e, _) = round-IsSound i u.broker s.sound (s.busy i p) in (s.sound, (b, e))
