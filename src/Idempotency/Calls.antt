-- ===== src/Idempotency/Calls.antt =====
-- idempotency/postgres/store.go: Do, Reserve and Complete. JSON encoding is a parameter, and so is
-- the operation that a key protects: it acts on a world of which nothing else is known.
use vogel.Prelude.{
  ℕ, zero, suc, ◌/◌, Bool, true, false, not, ◌&&◌, Option, none, some, List, ◌==◌, nat_eq, list_eq,
  if◌then◌else◌, ℤ, pos,
}
use vogel.Idempotency.{
  Fault, Answer, Request, Header, Response, Stage, is_running, Row, is_claimable, row_of, put,
  claim, claim_lease, same_reservation,
}

-- json.Marshal and json.Unmarshal of a header.
pub record Codec : Type 0 where
  pub encode : Header → Answer (List ℕ)
  pub decode : List ℕ → Answer Header

-- Duration.Microseconds of a positive duration in nanoseconds.
abbrev pub micros : ℕ → ℕ
micros d = d / 1000

-- NewStore: DefaultTTL, or what WithTTL sets.
unfoldable pub ttl_of : ℤ → ℕ
ttl_of (pos (suc n)) = suc n
ttl_of _ = 86400000000000

unfoldable pub null_token : ℕ → Option ℕ
null_token token = if token == 0 then none else some token

pub data Reservation : Type 0 where
  held : ℕ → Reservation
  replay : Response → Reservation

-- What the other transactions do to the table between the claim of an attempt and the read after
-- it, and between that read and the next attempt.
pub record Others : Type 0 where
  pub before_read : ℕ → List Row → List Row
  pub after_read : ℕ → List Row → List Row

-- What a call of Do ends with: its answer, and the table and the world in its transaction. After a
-- failure the caller rolls both back.
abbrev pub Ended : Type 0 → Type 0
Ended W = Answer (Response × Bool) × List Row × W

abbrev pub reserve_attempts : ℕ
reserve_attempts = 3

module _ (c : Codec) where
  abbrev pub decoded : Option (List ℕ) → Answer (Option Header)
  decoded none = Answer.done none
  decoded (some bytes) = elim (c.decode bytes) [
    | Answer.done h ↦ Answer.done (some h)
    | Answer.failed f ↦ Answer.failed f
  ]

  abbrev pub encoded : Option Header → Answer (Option (List ℕ))
  encoded none = Answer.done none
  encoded (some h) = elim (c.encode h) [
    | Answer.done bytes ↦ Answer.done (some bytes)
    | Answer.failed f ↦ Answer.failed f
  ]

  -- The stored response of a completed row, whose status code is `code`.
  abbrev pub stored_response : ℕ → Row → Answer Response
  stored_response code r = elim (decoded r.response_header) [
    | Answer.done h ↦ Answer.done (record { status = code; header = h; body = r.response_body })
    | Answer.failed f ↦ Answer.failed f
  ]

  -- What `existing` makes of the row it read.
  unfoldable pub read_row : Request → Row → Answer Response
  read_row req r =
      if not (r.fingerprint == req.fingerprint)
      then Answer.failed Fault.key_reused
      else if is_running r.stage
      then Answer.failed Fault.in_progress
      else elim r.response_status [
        | none ↦ Answer.failed Fault.in_progress
        | some code ↦ stored_response code r
      ]

  -- Store.existing
  unfoldable pub existing : Request → List Row → Answer Response
  existing req rows = elim (row_of req.scope req.key rows) [
    | none ↦ Answer.failed Fault.no_rows
    | some r ↦ read_row req r
  ]

  abbrev pub finished : Response → Option (List ℕ) → Row → Row
  finished resp header r = record r {
    stage = Stage.completed;
    response_status = some resp.status;
    response_header = header;
    response_body = resp.body;
    locked_until = none;
    reservation = none;
  }

  -- The condition of the UPDATE on the row of that key.
  abbrev pub holds : Request → ℕ → Row → Bool
  holds req token r =
      r.fingerprint == req.fingerprint
      && is_running r.stage
      && same_reservation r.reservation (null_token token)

  -- The UPDATE: it fails where no row is affected.
  unfoldable pub store_response :
      Request → ℕ → Response → Option (List ℕ) → List Row → Answer (List Row)
  store_response req token resp header rows = elim (row_of req.scope req.key rows) [
    | none ↦ Answer.failed Fault.not_reserved
    | some r ↦
        if holds req token r
        then Answer.done (put (finished resp header r) rows)
        else Answer.failed Fault.not_reserved
  ]

  -- complete, and Store.Complete
  unfoldable pub complete : Request → ℕ → Response → List Row → Answer (List Row)
  complete req token resp rows = elim (encoded resp.header) [
    | Answer.done header ↦ store_response req token resp header rows
    | Answer.failed f ↦ Answer.failed f
  ]

  abbrev pub replay_of : Answer Response → Answer (Response × Bool)
  replay_of (Answer.done resp) = Answer.done (resp, true)
  replay_of (Answer.failed f) = Answer.failed f

  module _ (W : Type 0) where
    abbrev pub stored_as : Response → List Row → W → Answer (List Row) → Ended W
    stored_as resp rows w (Answer.done rows') = (Answer.done (resp, false), rows', w)
    stored_as resp rows w (Answer.failed f) = (Answer.failed f, rows, w)

    abbrev pub after_operation : Request → List Row → Answer Response × W → Ended W
    after_operation req rows (Answer.done resp, w) =
        stored_as resp rows w (complete req 0 resp rows)
    after_operation req rows (Answer.failed f, w) = (Answer.failed f, rows, w)

    -- Store.Do; `fn` is the operation and `now` the time of the transaction.
    unfoldable pub do_once : ℕ → ℕ → Request → (W → Answer Response × W) → List Row → W → Ended W
    do_once now ttl req fn rows w =
        let claimed = claim now (micros ttl) req rows in
        if not (is_claimable req)
        then (Answer.failed Fault.invalid_request, rows, w)
        else if claimed.0
        then after_operation req claimed.1 (fn w)
        else (replay_of (existing req claimed.1), claimed.1, w)

  -- The read after a claim that took no row.
  abbrev pub after_read_of :
      Answer Response → Answer Reservation × List Row → List Row → Answer Reservation × List Row
  after_read_of (Answer.done resp) again rows = (Answer.done (replay resp), rows)
  after_read_of (Answer.failed Fault.no_rows) again rows = again
  after_read_of (Answer.failed f) again rows = (Answer.failed f, rows)

  -- The loop of Reserve, with as many attempts left; the clock and the other transactions are given
  -- by that number.
  unfoldable pub attempt :
      (clock : ℕ → ℕ) (others : Others) (ttl lease token : ℕ) (req : Request)
      → ℕ
      → List Row
      → Answer Reservation × List Row
  attempt clock others ttl lease token req zero rows = (Answer.failed Fault.in_progress, rows)
  attempt clock others ttl lease token req (suc n) rows =
      let claimed = claim_lease (clock n) (micros ttl) (micros lease) token req rows in
      let seen = others.before_read n claimed.1 in
      let again = attempt clock others ttl lease token req n (others.after_read n seen) in
      if claimed.0
      then (Answer.done (held token), claimed.1)
      else after_read_of (existing req seen) again seen

  -- Store.Reserve
  unfoldable pub reserve :
      (ℕ → ℕ) → Others → ℕ → ℤ → ℕ → Request → List Row → Answer Reservation × List Row
  reserve clock others ttl (pos (suc lease)) token req rows =
      if not (is_claimable req)
      then (Answer.failed Fault.invalid_request, rows)
      else attempt clock others ttl (suc lease) token req reserve_attempts rows
  reserve clock others ttl _ token req rows = (Answer.failed Fault.invalid_request, rows)
