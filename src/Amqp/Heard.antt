-- ===== src/Amqp/Heard.antt =====
-- What the listener of api/amqp.go puts on the channel In, and when connectAMQP gives a connection.
use pmb.Base.{
  ◌<>◌, String, ◌≡◌, refl, Bool, true, false, none, some, inr, List, [], ◌∷◌, ◌++◌, subst, sym, ap,
  ◌∙◌, Bytes, arith, Option, if◌then◌else◌,
}
use pmb.Base.Go.{◌>>=◌, Go, done, fails, after}
use pmb.Transport.{Receiver}
use pmb.Transport.Admitted.{From}
use pmb.Amqp.{
  Call, dials, opens_channel, declares_exchange, probes_queue, declares_queue, binds_queue,
  consumes, exchange_name, queue_name, Server, call, claim_queue, prefix_of, setup_send,
  setup_listen,
}
use pmb.Amqp.Setup.{setup_listen-done}
use pmb.Amqp.Listen.{
  Feed, delivery, closes, Act, calls, puts, report, first_error, connected, dialled, connect_amqp,
}

-- The bodies of the deliveries.
abbrev pub delivered : List Feed → List Bytes
delivered [] = []
delivered (delivery b ∷ fs) = b ∷ delivered fs
delivered (closes servers ∷ fs) = delivered fs

abbrev pub IsFrom : Receiver → List Bytes → Act → Type 0
IsFrom r bodies (calls c) = Unit
IsFrom r bodies (puts a) = From r bodies a

-- A stretch of code that comes to its end, with a value or an error.
data Ends {A : Type 0} (g : Go Call A) : Type 0 where
  gives : (t : List Call) (a : A) → g ≡ done t a → Ends g
  errs : (t : List Call) (e : String) → g ≡ fails t e → Ends g

after-Ends : {A : Type 0} (u : List Call) (g : Go Call A) → Ends g → Ends (after u g)
after-Ends u g (gives t a e) = gives (u ++ t) a (ap (after u) e)
after-Ends u g (errs t a e) = errs (u ++ t) a (ap (after u) e)

>>=-Ends :
    {A B : Type 0} (m : Go Call A) (f : A → Go Call B)
    → Ends m
    → ((a : A) → Ends (f a))
    → Ends (m >>= f)
>>=-Ends m f (gives t a e) h = subst (λ g. Ends (g >>= f)) (sym e) (after-Ends t (f a) (h a))
>>=-Ends m f (errs t x e) h = errs t x (ap (λ g. g >>= f) e)

call-Ends : (c : Call) (o : Option String) → Ends (call c o)
call-Ends c none = gives (c ∷ []) tt refl
call-Ends c (some e) = errs (c ∷ []) e refl

if-Ends : {A : Type 0} (b : Bool) (g h : Go Call A) → Ends g → Ends h → Ends (if b then g else h)
if-Ends true g h x y = x
if-Ends false g h x y = y

consume-Ends :
    (o : Option String)
    → Ends (elim o as (λ x. Go Call Bool) [ none ↦ done [] true | some e ↦ done [] false ])
consume-Ends none = gives [] true refl
consume-Ends (some e) = gives [] false refl

setup_send-Ends : (s : Server) (prefix : String) → Ends (setup_send s prefix)
unfolding setup_send
setup_send-Ends s prefix = >>=-Ends _ _ (call-Ends dials s.dial_error) (λ a.
    >>=-Ends _ _ (call-Ends opens_channel s.channel_error)
      (λ b. call-Ends (declares_exchange (exchange_name prefix)) s.exchange_error))

claim_queue-Ends : (s : Server) (prefix id : String) → Ends (claim_queue s prefix id)
unfolding claim_queue
claim_queue-Ends s prefix id =
    >>=-Ends _ _ (gives (probes_queue (queue_name prefix id) ∷ []) tt refl) (λ a.
      if-Ends s.queue_exists _ _
        (errs [] ("Another connection with the same id (" <> id <> ") already exists.") refl)
        (>>=-Ends _ _ (call-Ends opens_channel s.second_channel_error)
          (λ b. call-Ends (declares_queue (queue_name prefix id)) s.queue_error)))

setup_listen-Ends : (s : Server) (prefix id : String) → Ends (setup_listen s prefix id)
unfolding setup_listen
setup_listen-Ends s prefix id = >>=-Ends _ _ (call-Ends dials s.dial_error) (λ a.
    >>=-Ends _ _ (call-Ends opens_channel s.channel_error) (λ b.
      >>=-Ends _ _ (call-Ends (declares_exchange (exchange_name prefix)) s.exchange_error) (λ c.
        >>=-Ends _ _ (claim_queue-Ends s prefix id) (λ d.
          >>=-Ends _ _
            (call-Ends (binds_queue (queue_name prefix id) (exchange_name prefix)) s.bind_error)
            (λ e.
              >>=-Ends _ _ (gives (consumes (queue_name prefix id) ∷ []) tt refl)
                (λ f. consume-Ends s.consume_error))))))

-- Each of two reports is none where the first error of them is.
report-done :
    {A : Type 0} (g : Go Call A)
    → Ends g
    → report g ≡ none
    → (t : List Call) × (a : A) × (g ≡ done t a)
report-done g (gives t a e) h = (t, a, e)
report-done g (errs t x e) h = absurd (ground arith)

first_error-none : (a b : Option String) → first_error a b ≡ none → (a ≡ none) × (b ≡ none)
first_error-none none b h = (refl, h)
first_error-none (some e) b h = absurd (ground arith)

dialled-connected :
    (q prefix : String) (o : Option String)
    → dialled q o ≡ connected prefix
    → (prefix ≡ q) × (o ≡ none)
dialled-connected q prefix none h = (ground arith, refl)
dialled-connected q prefix (some e) h = absurd (ground arith)

no_errors :
    (b : Bool) (l s : Option String)
    → (if b then first_error l s else first_error s l) ≡ none
    → (l ≡ none) × (s ≡ none)
no_errors true l s h = first_error-none l s h
no_errors false l s h = let (x, y) = first_error-none s l h in (y, x)

-- connectAMQP gives a connection, in whichever order its two sides report, only when both are set up
-- under the prefix of the user's name and the sub-connection; then no queue had the name of this id.
pub connect_amqp-connected :
    (username sub id prefix : String) (listener sender : Server) (listener_first : Bool)
    → connect_amqp (inr username) sub id listener sender listener_first ≡ connected prefix
    → (prefix ≡ prefix_of username sub)
      × (listener.queue_exists ≡ false)
      × ((t : List Call) × (live : Bool) × (setup_listen listener prefix id ≡ done t live))
      × ((u : List Call) × (setup_send sender prefix ≡ done u tt))
unfolding connect_amqp
connect_amqp-connected username sub id prefix listener sender listener_first h =
    let q = prefix_of username sub in
    let listens = setup_listen listener q id in
    let sends = setup_send sender q in
    let (p, o) =
      dialled-connected q prefix
        (if listener_first
          then first_error (report listens) (report sends)
          else first_error (report sends) (report listens))
        h in
    let (l, s) = no_errors listener_first (report listens) (report sends) o in
    let (t, live, e) = report-done listens (setup_listen-Ends listener q id) l in
    let (u, x, g) = report-done sends (setup_send-Ends sender q) s in
    (
      p,
      (setup_listen-done listener q id t live e).0,
      (t, live, ap (λ x. setup_listen listener x id) p ∙ e),
      (u, ap (setup_send sender) p ∙ g),
    )
