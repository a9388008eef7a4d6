-- ===== src/Idempotency/Http.antt =====
-- idempotency/httpx/middleware.go: the HTTP middleware that makes a handler safe to retry, and
-- idempotency.Fingerprint. Texts are lists of bytes, but for the names and values of headers. SHA-256,
-- hexadecimal texts and case folding are parameters; so is the handler, which acts on a world of
-- which nothing else is known and answers by a list of calls on its ResponseWriter.
pub mod Recorder
pub mod Serve
pub mod Recorded
pub mod Retried
pub mod Released
pub mod Framed
pub mod Strokes
pub mod Tests
use vogel.Prelude.{
  ℕ, zero, suc, ◌+◌, ◌/◌, ◌%◌, ltb, leb, String, str_append, Bool, true, false, not, ◌&&◌, ◌||◌,
  Option, none, some, List, [], ◌∷◌, ◌++◌, is_empty, length, ℤ, pos, negsuc, ◌==◌, string_eq,
  nat_eq, list_eq, if◌then◌else◌,
}
use vogel.Idempotency.{Fault, Answer, Request, Response, Header, Row, is_claimable, release}
use vogel.Idempotency.Calls.{Codec, Others, Reservation, held, replay, complete, reserve}

pub record Platform : Type 0 where
  pub sha256 : List ℕ → List ℕ
  pub hex : List ℕ → String
  pub equal_fold : String → String → Bool

-- binary.BigEndian.PutUint64
abbrev pub big_endian : ℕ → List ℕ
big_endian n =
    (n / 72057594037927936) % 256
    ∷ (n / 281474976710656) % 256
    ∷ (n / 1099511627776) % 256
    ∷ (n / 4294967296) % 256
    ∷ (n / 16777216) % 256
    ∷ (n / 65536) % 256
    ∷ (n / 256) % 256
    ∷ n % 256
    ∷ []

-- What Fingerprint writes to the hash.
unfoldable pub framed : List (List ℕ) → List ℕ
framed [] = []
framed (p ∷ parts) = big_endian (length p) ++ (p ++ framed parts)

-- idempotency.Fingerprint
unfoldable pub fingerprint : Platform → List (List ℕ) → List ℕ
unfolding framed
fingerprint pf parts = pf.sha256 (framed parts)

-- Scope
unfoldable pub scope : Platform → List ℕ → List ℕ → List ℕ → String
scope pf user method path = str_append "http:" (pf.hex (fingerprint pf (user ∷ method ∷ path ∷ [])))

-- io.ReadAll of a http.MaxBytesReader.
pub data BodyRead : Type 0 where
  bytes : List ℕ → BodyRead
  too_large unreadable : BodyRead

pub record HttpRequest : Type 0 where
  -- UserID of the principal, if there is one.
  pub user : Option (List ℕ)
  pub method : List ℕ
  pub path : List ℕ
  pub query : List ℕ
  -- The Idempotency-Key header, empty if it is missing.
  pub key : List ℕ
  -- What reading its body gives, at most so many bytes.
  pub body : ℕ → BodyRead

-- What reaches the ResponseWriter below: a status with the headers at that time, a part of the body, a
-- flush, and an error that `response.Error` writes.
pub data Sent : Type 0 where
  head : ℕ → Header → Sent
  data' : List ℕ → Sent
  flushed : Sent
  problem : (status : ℕ) (code : String) → Sent

pub record Writer : Type 0 where
  pub header : Header
  pub sent : List Sent

abbrev pub send : Sent → Writer → Writer
send s w = record w { sent = w.sent ++ s ∷ [] }

-- `h[name] = values` and `delete(h, name)`
unfoldable pub assign : String → List String → Header → Header
assign name values [] = (name, values) ∷ []
assign name values ((k, v) ∷ h) =
    let rest = assign name values h in if k == name then (name, values) ∷ h else (k, v) ∷ rest

unfoldable pub remove : String → Header → Header
remove name [] = []
remove name ((k, v) ∷ h) = let rest = remove name h in if k == name then rest else (k, v) ∷ rest

unfoldable pub values_of : String → Header → Option (List String)
values_of name [] = none
values_of name ((k, v) ∷ h) = let rest = values_of name h in if k == name then some v else rest

-- handlerHeaders
abbrev is_unstored : Platform → String → Bool
is_unstored pf name = pf.equal_fold name "Set-Cookie" || pf.equal_fold name "Idempotent-Replayed"

abbrev is_unchanged : Option (List String) → List String → Bool
is_unchanged none values = false
is_unchanged (some prev) values = prev == values

unfoldable pub handler_headers : Platform → Header → Header → Header
unfolding values_of
handler_headers pf before [] = []
handler_headers pf before ((name, values) ∷ final) =
    let rest = handler_headers pf before final in
    if is_unstored pf name || is_unchanged (values_of name before) values
    then rest
    else (name, values) ∷ rest

-- The loop of `replay` over the stored headers.
unfoldable pub add_headers : Header → Header → Header
unfolding assign
add_headers [] h = h
add_headers ((name, values) ∷ stored) h = add_headers stored (assign name values h)

abbrev pub stored_headers : Option Header → Header
stored_headers none = []
stored_headers (some h) = h

abbrev pub stored_body : Option (List ℕ) → List ℕ
stored_body none = []
stored_body (some b) = b

-- replay
unfoldable pub replay_to : Response → Writer → Writer
unfolding add_headers assign
replay_to resp w =
    let header =
      assign "Idempotent-Replayed" ("true" ∷ [])
        (add_headers (stored_headers resp.header) w.header) in
    send (data' (stored_body resp.body))
      (send (head resp.status header) (record w { header = header }))
