-- ===== src/Agent/Middleware.antt =====
-- llauncher/agent/middleware.py: the check of the API key and the limit on the size of a request. The
-- wrapped application is a strategy: what it does next, given what it has received.
pub mod Authenticated
pub mod Limited
use llauncher.Base.{
  ℕ, ◌+◌, Bool, true, false, not, ◌&&◌, ◌||◌, Option, none, some, List, [], ◌∷◌, ◌++◌, all, any,
  contains, ltb, ◌==◌, if◌then◌else◌,
}
use llauncher.Base.Text.{Text, codes, text_eq}

-- `_AUTH_EXEMPT_PATHS`
abbrev pub auth_exempt_paths : List Text
auth_exempt_paths = codes "/health" ∷ codes "/docs" ∷ codes "/redoc" ∷ codes "/openapi.json" ∷ []

abbrev pub is_ascii : Text → Bool
is_ascii = all (λ c. ltb c 128)

-- `hmac.compare_digest` on texts: a `TypeError`, `none`, if one of them is not ASCII.
unfoldable pub compare_digest : Text → Text → Option Bool
compare_digest a b = if is_ascii a && is_ascii b then some (a == b) else none

-- What becomes of a request: the next handler gets it, it is answered, or the check raises.
pub data Handled : Type 0 where
  passed raised : Handled
  refused : ℕ → Handled

of_digest : Option Bool → Handled
of_digest none = raised
of_digest (some true) = passed
of_digest (some false) = refused 403

authenticate : Text → Option Text → Handled
unfolding of_digest compare_digest
authenticate expected_token none = refused 401
authenticate expected_token (some api_key) = of_digest (compare_digest api_key expected_token)

-- `AuthenticationMiddleware.dispatch`
unfoldable pub dispatch : Text → Text → Option Text → Handled
unfolding authenticate
dispatch expected_token path api_key =
    if contains path auth_exempt_paths then passed else authenticate expected_token api_key

-- A message that the server hands on: a piece of the body with its size, the end of the connection,
-- or another.
pub data Received : Type 0 where
  request : ℕ → Received
  disconnect other : Received

-- A message that the application sends.
pub data Sent : Type 0 where
  response_start : ℕ → Sent
  response_body other_sent : Sent

pub data App : Type 0 where
  returns : App
  receives : (Received → App) → App
  sends : Sent → App → App

-- What passes between the server and the application.
pub data Event : Type 0 where
  handed : Received → Event
  emitted : Sent → Event

pub record Limiter : Type 0 where
  pub bytes_seen : ℕ
  pub rejected : Bool
  pub response_started : Bool

abbrev next_message : List Received → Received
next_message [] = disconnect
next_message (m ∷ messages) = m

abbrev later_messages : List Received → List Received
later_messages [] = []
later_messages (m ∷ messages) = messages

abbrev pub is_start : Sent → Bool
is_start (response_start status) = true
is_start _ = false

module _ (max_bytes : ℕ) where
  -- `limited_receive`
  unfoldable pub limited_receive : Received → Limiter → Received × Limiter
  limited_receive (request size) l =
      let bytes_seen = l.bytes_seen + size in
      if ltb max_bytes bytes_seen
      then (disconnect, record l { bytes_seen = bytes_seen; rejected = true })
      else (request size, record l { bytes_seen = bytes_seen })
  limited_receive m l = (m, l)

  -- `guarded_send`: what it keeps, and what it passes on.
  unfoldable pub noted : Sent → Limiter → Limiter
  noted s l = if not l.rejected && is_start s then record l { response_started = true } else l

  abbrev pub passed_on : Bool → Sent → List Event × Limiter → List Event × Limiter
  passed_on true s rest = rest
  passed_on false s rest = (emitted s ∷ rest.0, rest.1)

  -- The application behind the limits. Once the connection has no more messages it is closed.
  unfoldable pub limited : App → List Received → Limiter → List Event × Limiter
  unfolding limited_receive noted
  limited returns messages l = ([], l)
  limited (receives next) messages l =
      let got = limited_receive (next_message messages) l in
      let rest = limited (next got.0) (later_messages messages) got.1 in
      (handed got.0 ∷ rest.0, rest.1)
  limited (sends s app) messages l = passed_on l.rejected s (limited app messages (noted s l))

  abbrev pub fresh : Limiter
  fresh = record { bytes_seen = 0; rejected = false; response_started = false }

  abbrev pub too_large : List Event
  too_large = emitted (response_start 413) ∷ emitted response_body ∷ []

  abbrev closed : List Event × Limiter → List Event
  closed (events, l) = if l.rejected && not l.response_started then events ++ too_large else events

  -- The first `content-length` header decides. `int_of` reads a number, which is 0 if it is negative.
  unfoldable pub declared_over : (Text → Option ℕ) → List (Text × Text) → Bool
  declared_over int_of [] = false
  declared_over int_of ((name, value) ∷ headers) =
      let rest = declared_over int_of headers in
      if name == codes "content-length"
      then elim (int_of value) [ none ↦ false | some declared ↦ ltb max_bytes declared ]
      else rest

  -- `BodySizeLimitMiddleware.__call__` on an HTTP request.
  unfoldable pub call : (Text → Option ℕ) → List (Text × Text) → App → List Received → List Event
  unfolding limited declared_over
  call int_of headers app messages =
      if declared_over int_of headers then too_large else closed (limited app messages fresh)

-- The application without the limits.
unfoldable pub bare : App → List Received → List Event
bare returns messages = []
bare (receives next) messages =
    handed (next_message messages) ∷ bare (next (next_message messages)) (later_messages messages)
bare (sends s app) messages = emitted s ∷ bare app messages
