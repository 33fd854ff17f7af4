-- ===== src/Agent/Middleware/Limited.antt =====
-- What an application behind the limits is handed.
use llauncher.Base.Text.{Text}
use mathlib.Core.Path.{subst}
use llauncher.Base.{
  ap, ◌∙◌, Bool-cases, inl, inr, Option, ◌<◌, ℕ, ◌+◌, ◌≤◌, Bool, true, false, List, [], ◌∷◌, ◌++◌,
  ltb, ◌≡◌, refl, sym, arith,
}
use llauncher.Agent.Middleware.{
  bare, passed_on, Received, request, disconnect, other, Sent, App, returns, receives, sends, Event,
  handed, emitted, Limiter, limited_receive, limited, noted, fresh, closed, too_large, call,
  declared_over, next_message, later_messages,
}

-- The bytes of the body in what was handed over.
abbrev pub bytes_handed : List Event → ℕ
bytes_handed [] = 0
bytes_handed (handed (request size) ∷ events) = size + bytes_handed events
bytes_handed (_ ∷ events) = bytes_handed events

module _ (max_bytes : ℕ) where
  -- Within the limit the bytes add up to it, and past the limit there are none.
  abbrev Bounded : ℕ → ℕ → Type 0
  Bounded seen count =
      (seen ≤ max_bytes → seen + count ≤ max_bytes) × (max_bytes < seen → count ≡ 0)

  receive-Bounded :
      (m : Received) (l : Limiter) (events : List Event)
      → Bounded (limited_receive max_bytes m l).1.bytes_seen (bytes_handed events)
      → Bounded l.bytes_seen (bytes_handed (handed (limited_receive max_bytes m l).0 ∷ events))
  unfolding limited_receive
  receive-Bounded (request size) l events h =
      elim (Bool-cases (ltb max_bytes (l.bytes_seen + size))) [
        | inl b ↦
            let h' = rw b at h in
            let none_left : bytes_handed events ≡ 0 = h'.1 (ground (arith, b)) in
            rw b (λ low. omega (arith, none_left, low), λ high. none_left)
        | inr b ↦
            let h' = rw b at h in
            rw b (λ low. omega (arith, h'.0 (ground (arith, b))), λ high. ground (arith, b, high))
      ]
  receive-Bounded disconnect l events h = h
  receive-Bounded other l events h = h

  seen-noted : (s : Sent) (l : Limiter) → (noted max_bytes s l).bytes_seen ≡ l.bytes_seen
  unfolding noted
  seen-noted s l = ground arith

  bytes_handed-passed_on :
      (rejected : Bool) (s : Sent) (rest : List Event × Limiter)
      → bytes_handed (passed_on max_bytes rejected s rest).0 ≡ bytes_handed rest.0
  bytes_handed-passed_on true s rest = refl
  bytes_handed-passed_on false s rest = refl

  limited-Bounded :
      (app : App) (messages : List Received) (l : Limiter)
      → Bounded l.bytes_seen (bytes_handed (limited max_bytes app messages l).0)
  unfolding limited
  limited-Bounded returns messages l = (λ h. omega (arith, h), λ h. refl)
  limited-Bounded (receives next) messages l =
      let got = limited_receive max_bytes (next_message messages) l in
      receive-Bounded (next_message messages) l
        (limited max_bytes (next got.0) (later_messages messages) got.1).0
        (limited-Bounded (next got.0) (later_messages messages) got.1)
  limited-Bounded (sends s app) messages l =
      let rest = limited max_bytes app messages (noted max_bytes s l) in
      let later = limited-Bounded app messages (noted max_bytes s l) in
      subst (λ seen. Bounded seen (bytes_handed (passed_on max_bytes l.rejected s rest).0))
        (seen-noted s l)
        (subst (Bounded (noted max_bytes s l).bytes_seen)
          (sym (bytes_handed-passed_on l.rejected s rest)) later)

  bytes_handed-append :
      (events more : List Event)
      → bytes_handed (events ++ more) ≡ bytes_handed events + bytes_handed more
  bytes_handed-append [] more = omega arith
  bytes_handed-append (handed (request size) ∷ events) more =
      omega (arith, bytes_handed-append events more)
  bytes_handed-append (handed disconnect ∷ events) more = bytes_handed-append events more
  bytes_handed-append (handed other ∷ events) more = bytes_handed-append events more
  bytes_handed-append (emitted s ∷ events) more = bytes_handed-append events more

  bytes_handed-closed :
      (events : List Event) (l : Limiter)
      → bytes_handed (closed max_bytes (events, l)) ≡ bytes_handed events
  bytes_handed-closed events l = ground (arith, bytes_handed-append events (too_large max_bytes))

  -- However the body comes in, and whatever the headers say of it, the application is never handed
  -- more than `max_bytes` of it.
  pub call-bounds :
      (int_of : Text → Option ℕ) (headers : List (Text × Text)) (app : App)
      (messages : List Received)
      → bytes_handed (call max_bytes int_of headers app messages) ≤ max_bytes
  unfolding call
  call-bounds int_of headers app messages =
      elim (Bool-cases (declared_over max_bytes int_of headers)) [
        | inl b ↦ rw b (omega arith)
        | inr b ↦
            let (events, l) = limited max_bytes app messages (fresh max_bytes) in
            rw b (
              omega (
                arith,
                bytes_handed-closed events l,
                (limited-Bounded app messages (fresh max_bytes)).0,
              ))
      ]

-- The bytes of the body in what the server has to hand on.
abbrev pub body_size : List Received → ℕ
body_size [] = 0
body_size (request size ∷ messages) = size + body_size messages
body_size (_ ∷ messages) = body_size messages

module _ (max_bytes : ℕ) where
  -- A message that fits goes through.
  limited_receive-fits :
      (messages : List Received) (l : Limiter)
      → l.bytes_seen + body_size messages ≤ max_bytes
      → l.rejected ≡ false
      → ((limited_receive max_bytes (next_message messages) l).0 ≡ next_message messages)
        × ((limited_receive max_bytes (next_message messages) l).1.rejected ≡ false)
        × ((limited_receive max_bytes (next_message messages) l).1.bytes_seen
              + body_size (later_messages messages)
            ≤ max_bytes)
  unfolding limited_receive
  limited_receive-fits [] l fits still = (refl, still, fits)
  limited_receive-fits (request size ∷ messages) l fits still =
      (ground (arith, fits), ground (arith, fits, still), ground (arith, fits))
  limited_receive-fits (disconnect ∷ messages) l fits still = (refl, still, fits)
  limited_receive-fits (other ∷ messages) l fits still = (refl, still, fits)

  rejected-noted : (s : Sent) (l : Limiter) → (noted max_bytes s l).rejected ≡ l.rejected
  unfolding noted
  rejected-noted s l = ground arith

  limited-bare :
      (app : App) (messages : List Received) (l : Limiter)
      → l.bytes_seen + body_size messages ≤ max_bytes
      → l.rejected ≡ false
      → ((limited max_bytes app messages l).0 ≡ bare app messages)
        × ((limited max_bytes app messages l).1.rejected ≡ false)
  unfolding limited bare
  limited-bare returns messages l fits still = (refl, still)
  limited-bare (receives next) messages l fits still =
      let got = limited_receive max_bytes (next_message messages) l in
      let (same, still', fits') = limited_receive-fits messages l fits still in
      let rest = limited-bare (next got.0) (later_messages messages) got.1 fits' still' in
      (
        ap (λ events. handed got.0 ∷ events) rest.0
            ∙ ap (λ m. handed m ∷ bare (next m) (later_messages messages)) same,
        rest.1,
      )
  limited-bare (sends s app) messages l fits still =
      let rest =
        limited-bare app messages (noted max_bytes s l)
          (subst (λ seen. seen + body_size messages ≤ max_bytes) (sym (seen-noted max_bytes s l))
            fits)
          (rejected-noted s l ∙ still) in
      let after = limited max_bytes app messages (noted max_bytes s l) in
      let passes = ap (λ b. passed_on max_bytes b s after) still in
      (
        ap (λ r. r.0) passes ∙ ap (λ events. emitted s ∷ events) rest.0,
        ap (λ r. r.1.rejected) passes ∙ rest.1,
      )

  -- A request whose body fits, and whose headers do not say otherwise, goes as it would without the
  -- limit: the application gets the same messages, and what it sends is sent.
  pub call-bare :
      (int_of : Text → Option ℕ) (headers : List (Text × Text)) (app : App)
      (messages : List Received)
      → declared_over max_bytes int_of headers ≡ false
      → body_size messages ≤ max_bytes
      → call max_bytes int_of headers app messages ≡ bare app messages
  unfolding call
  call-bare int_of headers app messages declared fits =
      let same = limited-bare app messages (fresh max_bytes) (omega (arith, fits)) refl in
      rw (declared, same.1) same.0
