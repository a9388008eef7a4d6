-- ===== src/Idempotency.antt =====
-- idempotency/idempotency.go and idempotency/postgres/store.go: the requests that a retry repeats,
-- the rows of the table idempotency_key, and the statements on them. Texts that the code compares
-- byte by byte are lists of bytes; times and durations in the table are microseconds.
pub mod Calls
pub mod Table
pub mod Replay
pub mod Lease
pub mod Fence
pub mod Unique
pub mod Expiry
pub mod Tests
pub mod Http
use vogel.Prelude.{
  ℕ, zero, suc, ◌+◌, ◌/◌, ltb, leb, String, Bool, true, false, not, ◌&&◌, ◌||◌, Option, none, some,
  List, [], ◌∷◌, ◌++◌, find, filter, any, length, is_empty, sort_by, ℤ, pos, negsuc, ◌==◌,
  string_eq, nat_eq, list_eq, if◌then◌else◌,
}

pub data Fault : Type 0 where
  invalid_request key_reused in_progress no_rows not_reserved : Fault
  -- An error of the operation, of the JSON encoding or of the database.
  external : ℕ → Fault

pub data Answer (A : Type 0) : Type 0 where
  done : A → Answer A
  failed : Fault → Answer A

pub record Request : Type 0 where
  pub scope : String
  pub key : List ℕ
  pub fingerprint : List ℕ

abbrev pub Header : Type 0
Header = List (String × List String)

-- A nil header or body is `none`.
pub record Response : Type 0 where
  pub status : ℕ
  pub header : Option Header
  pub body : Option (List ℕ)

abbrev pub max_key_length : ℕ
max_key_length = 255

abbrev pub unprintable : ℕ → Bool
unprintable c = ltb c 32 || ltb 126 c

-- Request.Validate returns nil.
unfoldable pub is_claimable : Request → Bool
is_claimable r =
    not (r.scope == "")
    && not (is_empty r.key)
    && not (ltb max_key_length (length r.key))
    && not (is_empty r.fingerprint)
    && not (any unprintable r.key)

pub data Stage : Type 0 where
  running completed : Stage

abbrev pub is_running : Stage → Bool
is_running Stage.running = true
is_running Stage.completed = false

-- A row of idempotency_key.
pub record Row : Type 0 where
  pub scope : String
  pub key : List ℕ
  pub fingerprint : List ℕ
  pub stage : Stage
  pub response_status : Option ℕ
  pub response_header : Option (List ℕ)
  pub response_body : Option (List ℕ)
  pub created_at : ℕ
  pub expires_at : ℕ
  pub locked_until : Option ℕ
  pub reservation : Option ℕ

abbrev pub has_key : String → List ℕ → Row → Bool
has_key scope key r = r.scope == scope && r.key == key

-- `WHERE scope = $1 AND key = $2`
unfoldable pub row_of : String → List ℕ → List Row → Option Row
row_of scope key rows = find (has_key scope key) rows

-- The row of that primary key, replaced.
unfoldable pub put : Row → List Row → List Row
put row [] = []
put row (r ∷ rs) =
    let rest = put row rs in if has_key row.scope row.key r then row ∷ rs else r ∷ rest

-- `INSERT … ON CONFLICT (scope, key) DO UPDATE … WHERE …`: whether it returns a row.
unfoldable pub upsert : (Row → Bool) → Row → List Row → Bool × List Row
upsert may row rows = elim (row_of row.scope row.key rows) [
  | none ↦ (true, rows ++ row ∷ [])
  | some r ↦ if may r then (true, put row rows) else (false, rows)
]

-- The row that a claim writes.
abbrev pub fresh : Request → ℕ → ℕ → Option ℕ → Option ℕ → Row
fresh req now ttl locked_until reservation = record {
  scope = req.scope;
  key = req.key;
  fingerprint = req.fingerprint;
  stage = Stage.running;
  response_status = none;
  response_header = none;
  response_body = none;
  created_at = now;
  expires_at = now + ttl;
  locked_until = locked_until;
  reservation = reservation;
}

abbrev pub expired : ℕ → Row → Bool
expired now r = leb r.expires_at now

abbrev pub lapsed : ℕ → Row → Bool
lapsed now r = elim r.locked_until [ none ↦ false | some t ↦ leb t now ]

-- claimSQL
unfoldable pub claim : ℕ → ℕ → Request → List Row → Bool × List Row
claim now ttl req rows = upsert (expired now) (fresh req now ttl none none) rows

abbrev pub may_reserve : ℕ → Request → Row → Bool
may_reserve now req r =
    expired now r || (is_running r.stage && lapsed now r && r.fingerprint == req.fingerprint)

-- reserveSQL
unfoldable pub claim_lease : ℕ → ℕ → ℕ → ℕ → Request → List Row → Bool × List Row
claim_lease now ttl lease token req rows =
    upsert (may_reserve now req) (fresh req now ttl (some (now + lease)) (some token)) rows

-- `reservation IS NOT DISTINCT FROM $7`, and `reservation = $3`.
abbrev pub same_reservation : Option ℕ → Option ℕ → Bool
same_reservation none none = true
same_reservation (some a) (some b) = a == b
same_reservation _ _ = false

-- Store.Release
unfoldable pub release : Request → ℕ → List Row → List Row
release req token rows =
    filter
      (λ (r : Row). not (
        has_key req.scope req.key r
        && is_running r.stage
        && same_reservation r.reservation (some token)))
      rows

abbrev pub first : {A : Type 0} → ℕ → List A → List A
first zero xs = []
first (suc n) [] = []
first (suc n) (x ∷ xs) = x ∷ first n xs

-- A limit that is not positive means 1000.
abbrev pub batch : ℤ → ℕ
batch (pos (suc n)) = suc n
batch _ = 1000

-- `ORDER BY expires_at LIMIT $1`: the oldest expired rows.
unfoldable pub doomed : ℕ → ℕ → List Row → List Row
doomed now limit rows =
    first limit (sort_by (λ (a b : Row). ltb a.expires_at b.expires_at) (filter (expired now) rows))

-- DeleteExpired, with the number of rows that it deletes.
unfoldable pub delete_expired : ℕ → ℤ → List Row → ℕ × List Row
delete_expired now limit rows =
    let gone = doomed now (batch limit) rows in
    (length gone, filter (λ (r : Row). not (any (λ (g : Row). has_key g.scope g.key r) gone)) rows)
