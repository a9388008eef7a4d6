-- ===== src/Idempotency/Lease.antt =====
-- Store.Reserve, Complete and Release: who holds a key, and for how long.
use vogel.Prelude.{
  ℕ, zero, suc, ◌+◌, ◌<◌, true, false, some, List, ◌≡◌, ◌∙◌, refl, subst, arith, ◌==◌, string_eq,
  nat_eq, list_eq, Bool-cases, inl, inr, if◌then◌else◌, pos,
}
use vogel.Idempotency.{
  Fault, Answer, Request, Response, is_running, Row, is_claimable, row_of, fresh, may_reserve,
  claim_lease, upsert,
}
use vogel.Idempotency.Calls.{
  Codec, micros, read_row, existing, holds, Reservation, held, Others, after_read_of, attempt,
  reserve_attempts, reserve,
}
use vogel.Idempotency.Table.{upsert-owned, upsert-refused}

-- The row of a reservation taken at `now`.
abbrev pub Holds : ℕ → ℕ → ℕ → Request → ℕ → List Row → Type 0
Holds ttl lease token req now rows =
    row_of req.scope req.key rows
    ≡ some (fresh req now (micros ttl) (some (now + micros lease)) (some token))

module _ (c : Codec) (clock : ℕ → ℕ) (others : Others) (ttl lease token : ℕ) (req : Request) where
  after_read_of-held :
      (a : Answer Response) (again : Answer Reservation × List Row) (seen rows' : List Row) (t : ℕ)
      → after_read_of c a again seen ≡ (Answer.done (held t), rows')
      → again ≡ (Answer.done (held t), rows')
  after_read_of-held (Answer.done resp) again seen rows' t h = cc
  after_read_of-held (Answer.failed Fault.no_rows) again seen rows' t h = h
  after_read_of-held (Answer.failed Fault.invalid_request) again seen rows' t h = cc
  after_read_of-held (Answer.failed Fault.key_reused) again seen rows' t h = cc
  after_read_of-held (Answer.failed Fault.in_progress) again seen rows' t h = cc
  after_read_of-held (Answer.failed Fault.not_reserved) again seen rows' t h = cc
  after_read_of-held (Answer.failed (Fault.external k)) again seen rows' t h = cc

  attempt-Holds :
      (n : ℕ) (rows rows' : List Row) (t : ℕ)
      → attempt c clock others ttl lease token req n rows ≡ (Answer.done (held t), rows')
      → (t ≡ token) × (m : ℕ) × (m < n) × Holds ttl lease token req (clock m) rows'
  unfolding attempt claim_lease
  attempt-Holds zero rows rows' t h = cc
  attempt-Holds (suc n) rows rows' t h =
      let now = clock n in
      let row = fresh req now (micros ttl) (some (now + micros lease)) (some token) in
      let claimed = upsert (may_reserve now req) row rows in
      elim (Bool-cases claimed.0) [
        | inl owned ↦
            let q = rw owned at h in
            let same_rows : claimed.1 ≡ rows' = cc in
            (
              cc,
              n,
              omega arith,
              subst (λ (x : List Row). Holds ttl lease token req now x) same_rows
                  (upsert-owned (may_reserve now req) row rows owned),
            )
        | inr lost ↦
            let seen = others.before_read n claimed.1 in
            let (same, m, below, found) =
              attempt-Holds n (others.after_read n seen) rows' t
                (after_read_of-held (existing c req seen) _ seen rows' t (rw lost at h)) in
            (same, m, omega arith, found)
      ]

-- What a call of Reserve that got a token leaves: the row of its reservation, taken at the time of
-- one of its attempts.
pub reserve-Holds :
    (c : Codec) (clock : ℕ → ℕ) (others : Others) (ttl lease token : ℕ) (req : Request)
    (rows rows' : List Row) (t : ℕ)
    → reserve c clock others ttl (pos (suc lease)) token req rows ≡ (Answer.done (held t), rows')
    → (t ≡ token)
      × (m : ℕ) × (m < reserve_attempts)
      × Holds ttl (suc lease) token req (clock m) rows'
unfolding reserve
reserve-Holds c clock others ttl lease token req rows rows' t h =
    elim (Bool-cases (is_claimable req)) [
      | inr bad ↦ let q = rw bad at h in cc
      | inl good ↦
          attempt-Holds c clock others ttl (suc lease) token req reserve_attempts rows rows' t
            (rw good at h)
    ]

-- The others leave the row of a key alone between a claim and the read after it.
abbrev pub Spares : Others → Request → Type 0
Spares others req =
    (n : ℕ) (rows : List Row)
    → row_of req.scope req.key (others.before_read n rows) ≡ row_of req.scope req.key rows

module _ (c : Codec) (clock : ℕ → ℕ) (others : Others) (ttl lease token : ℕ) (req : Request) where
  -- A claim that finds a row that it may not take goes on to read it.
  pub reserve-reads :
      (rows : List Row) (row : Row)
      → is_claimable req ≡ true
      → row_of req.scope req.key rows ≡ some row
      → may_reserve (clock 2) req row ≡ false
      → reserve c clock others ttl (pos (suc lease)) token req rows
        ≡ after_read_of c
            (existing c req (others.before_read 2 rows))
            (attempt c clock others ttl
              (suc lease)
              token
              req
              2
              (others.after_read 2 (others.before_read 2 rows)))
            (others.before_read 2 rows)
  unfolding reserve attempt claim_lease
  reserve-reads rows row good found may =
      let now = clock 2 in
      let kept =
        upsert-refused (may_reserve now req)
          (fresh req now (micros ttl) (some (now + micros (suc lease))) (some token)) rows row found
          may in
      rw (good, kept) refl

  existing-running :
      (rows : List Row) (row : Row)
      → row_of req.scope req.key rows ≡ some row
      → is_running row.stage ≡ true
      → existing c req rows
        ≡ Answer.failed
            (if row.fingerprint == req.fingerprint then Fault.in_progress else Fault.key_reused)
  unfolding existing read_row
  existing-running rows row found runs = elim (Bool-cases (row.fingerprint == req.fingerprint)) [
    | inl same ↦ rw (found, existing, read_row, same, runs) refl
    | inr other ↦ rw (found, existing, read_row, other) refl
  ]

-- While a lease lasts, nobody else gets the key: after a call of Reserve that returned a token, a
-- call for the same scope and key that claims before that lease and that key expire fails with
-- ErrInProgress, or with ErrKeyReused if its content differs. The other transactions may do anything
-- but change the row of the key between that call's claim and its read.
pub reserve-exclusive :
    (c : Codec) (clock clock2 : ℕ → ℕ) (others others2 : Others) (ttl lease token : ℕ)
    (ttl2 lease2 token2 : ℕ) (req req2 : Request) (rows rows' : List Row) (t : ℕ)
    → reserve c clock others ttl (pos (suc lease)) token req rows ≡ (Answer.done (held t), rows')
    → req2.scope ≡ req.scope
    → req2.key ≡ req.key
    → is_claimable req2 ≡ true
    → ((m : ℕ) → m < reserve_attempts → clock2 2 < clock m + micros (suc lease))
    → ((m : ℕ) → m < reserve_attempts → clock2 2 < clock m + micros ttl)
    → Spares others2 req2
    → reserve c clock2 others2 ttl2 (pos (suc lease2)) token2 req2 rows' ≡ (
      Answer.failed
          (if req.fingerprint == req2.fingerprint then Fault.in_progress else Fault.key_reused),
      others2.before_read 2 rows',
    )
reserve-exclusive c clock clock2 others others2 ttl lease token ttl2 lease2 token2 req req2 rows
      rows' t h hs hk good leased live spares =
    let (same, m, below, holds) = reserve-Holds c clock others ttl lease token req rows rows' t h in
    let row = fresh req (clock m) (micros ttl) (some (clock m + micros (suc lease))) (some token) in
    let found : row_of req2.scope req2.key rows' ≡ some row = rw (hs, hk) holds in
    let may : may_reserve (clock2 2) req2 row ≡ false =
      ground (arith, leased m below, live m below) in
    rw
      (
        reserve-reads c clock2 others2 ttl2 lease2 token2 req2 rows' row good found may,
        existing-running c clock2 others2 ttl2 lease2 token2 req2 (others2.before_read 2 rows') row
            (spares 2 rows' ∙ found) refl,
      )
      (elim (Bool-cases (req.fingerprint == req2.fingerprint)) [
        | inl y ↦ rw y refl
        | inr n ↦ rw n refl
      ])
