-- ===== src/Middleware/Responder/Streams.antt =====
-- What the client is sent.
use fastgeoapi.Base.{
  ℕ, suc, ◌+◌, String, ◌≡◌, refl, ap, Bool, false, none, some, List, [], ◌∷◌, ◌++◌, ok, arith,
  Bool-cases, inl, inr, >>=-eq-ok,
}
use fastgeoapi.Base.Errors.{◌>>=◌}
use fastgeoapi.Middleware.Scope.{header}
use fastgeoapi.Openapi.{contains}
use fastgeoapi.Middleware.Responder.{
  Message, empty, start, body, other, Rendering, Responder, fresh, with_length, send_both,
  send_json, send_with_security, respond_all,
}

-- A response of one start and one body that is no HTML page reaches the client as one start, whose
-- `content-length` is that of the augmented body, and that body. The hypothesis on `set_header` is
-- what an assignment to a header does.
pub respond_all-length :
    (rendering : Rendering) (status : ℕ) (headers : List (String × String))
    (text augmented : String)
    → ((name value : String) (hs : List (String × String))
        → header name (rendering.set_header name value hs) ≡ some value)
    → contains "<!-- HTML" text ≡ false
    → rendering.augment_security text ≡ ok augmented
    → (after : Responder) × (sent_headers : List (String × String)) × (respond_all rendering
          (start status headers none ∷ body text false ∷ [])
          fresh
        ≡ ok after)
      × (after.sent ≡ start status sent_headers (some augmented) ∷ body augmented false ∷ [])
      × (header "content-length" sent_headers ≡ some (rendering.content_length augmented))
unfolding respond_all
respond_all-length rendering status headers text augmented set json done =
    let sent_headers =
      rendering.set_header "content-length" (rendering.content_length augmented) headers in
    let initial = start status sent_headers (some augmented) in
    (
      record { initial_message = initial; sent = initial ∷ body augmented false ∷ [] },
      sent_headers,
      rw (json, done) refl,
      refl,
      set "content-length" (rendering.content_length augmented) headers,
    )

is_body : Message → ℕ
is_body (body text more) = 1
is_body _ = 0

-- How many of the messages are starts, and how many are bodies.
unfoldable pub starts : List Message → ℕ
starts [] = 0
starts (start status headers old ∷ messages) = suc (starts messages)
starts (_ ∷ messages) = starts messages

unfoldable pub bodies : List Message → ℕ
unfolding is_body
bodies [] = 0
bodies (message ∷ messages) = is_body message + bodies messages

abbrev pub IsStart : Message → Type 0
IsStart (start status headers old) = Unit
IsStart _ = ⊥

starts-append :
    (sent : List Message) (initial : Message) (text : String) (more : Bool)
    → IsStart initial
    → starts (sent ++ initial ∷ body text more ∷ []) ≡ suc (starts sent)
unfolding starts
starts-append [] (start s h o) text more k = refl
starts-append [] empty text more k = elim k [ ]
starts-append [] (body t m) text more k = elim k [ ]
starts-append [] (other t) text more k = elim k [ ]
starts-append (start s h o ∷ sent) initial text more k =
    ap suc (starts-append sent initial text more k)
starts-append (empty ∷ sent) initial text more k = starts-append sent initial text more k
starts-append (body t m ∷ sent) initial text more k = starts-append sent initial text more k
starts-append (other t ∷ sent) initial text more k = starts-append sent initial text more k

with_length-IsStart :
    (rendering : Rendering) (text : String) (before after : Message)
    → with_length rendering text before ≡ ok after
    → IsStart after
unfolding with_length
with_length-IsStart rendering text (start s hs o) after h =
    let e : start s (rendering.set_header "content-length" (rendering.content_length text) hs)
          (some text)
        ≡ after =
      ground arith in
    rw (← e) tt
with_length-IsStart rendering text empty after h = absurd (ground arith)
with_length-IsStart rendering text (body t m) after h = absurd (ground arith)
with_length-IsStart rendering text (other t) after h = absurd (ground arith)

send_both-starts :
    (rendering : Rendering) (initial : Message) (text : String) (more : Bool) (r : Responder)
    → IsStart initial
    → IsStart (send_both rendering initial (body text more) r).initial_message
      × (starts (send_both rendering initial (body text more) r).sent ≡ suc (starts r.sent))
unfolding send_both
send_both-starts rendering initial text more r k = (k, starts-append r.sent initial text more k)

send_json-starts :
    (rendering : Rendering) (text : String) (more : Bool) (r after : Responder)
    → send_json rendering text more r ≡ ok after
    → IsStart after.initial_message × (starts after.sent ≡ suc (starts r.sent))
unfolding send_json
send_json-starts rendering text more r after h =
    let (augmented, done, rest) =
      >>=-eq-ok (rendering.augment_security text)
        (λ augmented. with_length rendering augmented r.initial_message >>= λ initial.
          ok (send_both rendering initial (body augmented more) r))
        h in
    let (initial, stored, last) =
      >>=-eq-ok (with_length rendering augmented r.initial_message)
        (λ initial. ok (send_both rendering initial (body augmented more) r)) rest in
    let e : send_both rendering initial (body augmented more) r ≡ after = ground arith in
    rw (← e) (
      send_both-starts rendering initial augmented more r
        (with_length-IsStart rendering augmented r.initial_message initial stored))

-- One message keeps the stored start, and sends a start exactly for a body.
send_with_security-starts :
    (rendering : Rendering) (message : Message) (r after : Responder)
    → IsStart r.initial_message
    → send_with_security rendering message r ≡ ok after
    → IsStart after.initial_message × (starts after.sent ≡ is_body message + starts r.sent)
unfolding send_with_security is_body
send_with_security-starts rendering (start status headers old) r after k h =
    let e : record r { initial_message = start status headers old } ≡ after = ground arith in
    rw (← e) (tt, omega arith)
send_with_security-starts rendering empty r after k h =
    let e : r ≡ after = ground arith in rw (← e) (k, omega arith)
send_with_security-starts rendering (other type) r after k h =
    let e : r ≡ after = ground arith in rw (← e) (k, omega arith)
send_with_security-starts rendering (body text more) r after k h =
    elim (Bool-cases (contains "<!-- HTML" text)) [
      | inl html ↦
          let e : send_both rendering r.initial_message (body text more) r ≡ after =
            ground (arith, html) in
          rw (← e) (
            let (kept, count) = send_both-starts rendering r.initial_message text more r k in
            (kept, omega arith))
      | inr json ↦
          let (kept, count) = send_json-starts rendering text more r after (rw json at h) in
          (kept, omega arith)
    ]

respond_all-starts_from :
    (rendering : Rendering) (messages : List Message) (r after : Responder)
    → IsStart r.initial_message
    → respond_all rendering messages r ≡ ok after
    → starts after.sent ≡ bodies messages + starts r.sent
unfolding respond_all bodies
respond_all-starts_from rendering [] r after k h =
    let e : r ≡ after = ground arith in rw (← e) (omega arith)
respond_all-starts_from rendering (message ∷ messages) r after k h =
    let (next, one, rest) =
      >>=-eq-ok (send_with_security rendering message r) (respond_all rendering messages) h in
    let (kept, count) = send_with_security-starts rendering message r next k one in
    let more = respond_all-starts_from rendering messages next after kept rest in omega arith

-- Of a response that begins with its start, the client is sent the start once for each body
-- message, so that a response whose body comes in several messages starts more than once.
pub respond_all-starts :
    (rendering : Rendering) (status : ℕ) (headers : List (String × String))
    (messages : List Message) (after : Responder)
    → respond_all rendering (start status headers none ∷ messages) fresh ≡ ok after
    → starts after.sent ≡ bodies messages
unfolding respond_all starts
respond_all-starts rendering status headers messages after h =
    let more =
      respond_all-starts_from rendering messages
        (record { initial_message = start status headers none; sent = [] }) after tt h in
    omega arith
