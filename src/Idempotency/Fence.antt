-- ===== src/Idempotency/Fence.antt =====
-- Store.Complete and Release by a request that holds its key, and by one that has lost it.
use vogel.Prelude.{
  ℕ, suc, ◌+◌, ◌<◌, true, false, some, List, ◌≡◌, ◌≢◌, ◌∙◌, refl, sym, arith, ◌==◌, ==_iff,
  string_eq, nat_eq, list_eq, Bool-cases, inl, inr, pos,
}
use vogel.Idempotency.{
  Answer, Request, Response, Row, is_claimable, has_key, row_of, fresh, release,
}
use vogel.Idempotency.Calls.{
  Codec, micros, null_token, finished, holds, complete, held, replay, Others, reserve_attempts,
  reserve,
}
use vogel.Idempotency.Table.{find-filter}
use vogel.Idempotency.Replay.{RoundTrips, complete-Stored, existing-Stored}
use vogel.Idempotency.Lease.{Holds, reserve-Holds, Spares, reserve-reads}

holds-token :
    (c : Codec) (req : Request) (token : ℕ) (r : Row) (t : ℕ)
    → r.reservation ≡ some t
    → holds c req token r ≡ true
    → token ≡ t
unfolding null_token
holds-token c req token r t e h = elim (Bool-cases (token == 0)) [
  | inl zero' ↦ let q = rw (e, zero', null_token) at h in ground arith
  | inr other ↦ let q = rw (e, other, null_token) at h in ground (arith, ==_iff t token)
]

-- A request that lost its key to another one's reservation can neither store its response there nor
-- release it: after a call of Reserve that returned a token, Complete fails for every other token, on
-- whatever request of that scope and key, and Release leaves the row of the key as it is.
pub complete-fenced :
    (c : Codec) (clock : ℕ → ℕ) (others : Others) (ttl lease token : ℕ) (req : Request)
    (rows rows' : List Row) (t : ℕ) (late : Request) (stale : ℕ) (resp : Response)
    → reserve c clock others ttl (pos (suc lease)) token req rows ≡ (Answer.done (held t), rows')
    → late.scope ≡ req.scope
    → late.key ≡ req.key
    → stale ≢ t
    → ((rows2 : List Row) → complete c late stale resp rows' ≢ Answer.done rows2)
      × (row_of late.scope late.key (release late stale rows') ≡ row_of late.scope late.key rows')
unfolding release row_of
complete-fenced c clock others ttl lease token req rows rows' t late stale resp h hs hk differs =
    let (same, m, below, taken) = reserve-Holds c clock others ttl lease token req rows rows' t h in
    let row = fresh req (clock m) (micros ttl) (some (clock m + micros (suc lease))) (some token) in
    let found : row_of late.scope late.key rows' ≡ some row = rw (hs, hk) taken in
    (
      λ rows2 stored. differs (
          holds-token c late stale row token refl
            (complete-Stored c late stale resp rows' rows2 row found (sym hs) (sym hk) stored).1
          ∙ sym same),
      find-filter (has_key late.scope late.key) _ rows' row found (
            let apart : (token == stale) ≡ false = ground (arith, ==_iff token stale) in
            ground arith)
          ∙ sym found,
    )

-- A reservation that has been completed is replayed until its key expires.
pub held-replays :
    (c : Codec) (clock2 : ℕ → ℕ) (others2 : Others) (ttl lease token now t : ℕ)
    (ttl2 lease2 token2 : ℕ) (req : Request) (rows' rows2 : List Row) (resp : Response)
    → RoundTrips c
    → is_claimable req ≡ true
    → Holds ttl lease token req now rows'
    → complete c req t resp rows' ≡ Answer.done rows2
    → clock2 2 < now + micros ttl
    → Spares others2 req
    → reserve c clock2 others2 ttl2 (pos (suc lease2)) token2 req rows2
      ≡ (Answer.done (replay resp), others2.before_read 2 rows2)
held-replays c clock2 others2 ttl lease token now t ttl2 lease2 token2 req rows' rows2 resp rt good
      taken stored live spares =
    let row = fresh req now (micros ttl) (some (now + micros lease)) (some token) in
    let (header, encodes, found) =
      (complete-Stored c req t resp rows' rows2 row taken refl refl stored).0 in
    let read =
      existing-Stored c req row resp (others2.before_read 2 rows2) rt refl
        (header, encodes, spares 2 rows2 ∙ found) in
    rw
      (
        reserve-reads c clock2 others2 ttl2 lease2 token2 req rows2 (finished c resp header row)
            good found (ground (arith, live)),
        read,
      )
      refl

-- A request that holds its key completes it for good: after a call of Reserve that returned a token
-- and a Complete with that token that succeeded, every call of Reserve for the same request that
-- claims before the key expires gets the stored response to replay. The other transactions may do
-- anything but change the row of the key between that call's claim and its read, and what JSON
-- encodes must decode as it was.
pub reserve-replays :
    (c : Codec) (clock clock2 : ℕ → ℕ) (others others2 : Others) (ttl lease token : ℕ)
    (ttl2 lease2 token2 : ℕ) (req : Request) (rows rows' rows2 : List Row) (t : ℕ) (resp : Response)
    → RoundTrips c
    → is_claimable req ≡ true
    → reserve c clock others ttl (pos (suc lease)) token req rows ≡ (Answer.done (held t), rows')
    → complete c req t resp rows' ≡ Answer.done rows2
    → ((m : ℕ) → m < reserve_attempts → clock2 2 < clock m + micros ttl)
    → Spares others2 req
    → reserve c clock2 others2 ttl2 (pos (suc lease2)) token2 req rows2
      ≡ (Answer.done (replay resp), others2.before_read 2 rows2)
reserve-replays c clock clock2 others others2 ttl lease token ttl2 lease2 token2 req rows rows'
      rows2 t resp rt good h stored live spares =
    let (same, m, below, taken) = reserve-Holds c clock others ttl lease token req rows rows' t h in
    held-replays c clock2 others2 ttl (suc lease) token (clock m) t ttl2 lease2 token2 req rows'
      rows2 resp rt good taken stored (live m below) spares
