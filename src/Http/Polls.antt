-- ===== src/Http/Polls.antt =====
-- The loops of api/http.go.
use pmb.Base.{
  String, ◌≡◌, ◌≤◌, refl, ap, inl, inr, Bool, true, some, List, [], ◌∷◌, ◌++◌, Bytes, length,
  nat_eq, if◌then◌else◌, Bool-cases, arith,
}
use pmb.Base.Go.{◌>>◌, done, after}
use pmb.Transport.{Receiver, pass, hear}
use pmb.Http.{
  Answer, get_error, read_error, answered, listen_to_http, Act, posts, signals_done, post_bodies,
  send_to_http,
}

-- The bodies of the answers with status 200.
abbrev pub ok_bodies : List Answer → List Bytes
ok_bodies [] = []
ok_bodies (get_error ∷ rs) = ok_bodies rs
ok_bodies (read_error ∷ rs) = ok_bodies rs
ok_bodies (answered status body ∷ rs) =
    let rest = ok_bodies rs in if nat_eq status 200 then body ∷ rest else rest

pub listen_to_http-hear :
    (r : Receiver) (rs : List Answer) → listen_to_http r rs ≡ hear r (ok_bodies rs)
unfolding listen_to_http hear
listen_to_http-hear r [] = refl
listen_to_http-hear r (get_error ∷ rs) = listen_to_http-hear r rs
listen_to_http-hear r (read_error ∷ rs) = listen_to_http-hear r rs
listen_to_http-hear r (answered status body ∷ rs) = elim (Bool-cases (nat_eq status 200)) [
  | inl e ↦ rw e (ap (λ g. pass r body >> g) (listen_to_http-hear r rs))
  | inr e ↦ rw e (listen_to_http-hear r rs)
]

-- Each body with the outcome of its post.
abbrev pub posted : String → List Bytes → List Bool → List Act
posted uri [] os = []
posted uri (b ∷ bs) [] = []
posted uri (b ∷ bs) (o ∷ os) = posts uri b o ∷ posted uri bs os

post_bodies-posted :
    (uri : String) (bodies : List Bytes) (os : List Bool)
    → length bodies ≤ length os
    → (rest : List Bool) × (post_bodies uri bodies os ≡ done (posted uri bodies os) rest)
unfolding post_bodies
post_bodies-posted uri [] os h = (os, refl)
post_bodies-posted uri (b ∷ bs) [] h = absurd (omega arith)
post_bodies-posted uri (b ∷ bs) (o ∷ os) h =
    let (rest, e) = post_bodies-posted uri bs os (omega arith) in
    (rest, ap (after (posts uri b o ∷ [])) e)

-- Whatever the outcomes of the posts are: the sender posts each body of a message once, in their order,
-- and then tells the one who waits for the message that it is done.
pub send_to_http-posted :
    (uri : String) (bodies : List Bytes) (os : List Bool)
    → length bodies ≤ length os
    → (rest : List Bool) × (send_to_http uri true (some bodies) os
        ≡ done (posted uri bodies os ++ signals_done ∷ []) rest)
unfolding send_to_http
send_to_http-posted uri bodies os h =
    let (rest, e) = post_bodies-posted uri bodies os h in (rest, rw e)
