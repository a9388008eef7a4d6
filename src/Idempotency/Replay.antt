-- ===== src/Idempotency/Replay.antt =====
-- Store.Do: what a retry of an operation gets that has succeeded.
use vogel.Prelude.{
  ℕ, ◌+◌, ◌<◌, true, false, Option, none, some, List, ◌≡◌, ◌≢◌, ◌⊎◌, ◌∙◌, refl, subst, arith, ap,
  ◌==◌, ==_iff, string_eq, nat_eq, list_eq, Bool-cases, inl, inr,
}
use vogel.Idempotency.{
  Fault, Answer, Request, Header, Response, Row, is_claimable, row_of, put, fresh, expired, claim,
  upsert,
}
use vogel.Idempotency.Calls.{
  Codec, micros, decoded, encoded, read_row, existing, finished, holds, store_response, complete,
  Ended, replay_of, stored_as, after_operation, do_once,
}
use vogel.Idempotency.Table.{row_of-put_at, upsert-owned, upsert-refused}

-- A header that has been encoded is decoded as it was.
abbrev pub RoundTrips : Codec → Type 0
RoundTrips c =
    (h : Header) (bytes : List ℕ) → c.encode h ≡ Answer.done bytes → c.decode bytes ≡ Answer.done h

module _ (c : Codec) where
  -- The row of `req` after `resp` has been stored in the place of `r`.
  abbrev pub Stored : Request → Row → Response → List Row → Type 0
  Stored req r resp rows =
      (header : Option (List ℕ)) × (encoded c resp.header ≡ Answer.done header)
      × (row_of req.scope req.key rows ≡ some (finished c resp header r))

  store_response-Stored :
      (req : Request) (token : ℕ) (resp : Response) (header : Option (List ℕ))
      (rows rows' : List Row) (r : Row)
      → row_of req.scope req.key rows ≡ some r
      → r.scope ≡ req.scope
      → r.key ≡ req.key
      → store_response c req token resp header rows ≡ Answer.done rows'
      → (row_of req.scope req.key rows' ≡ some (finished c resp header r))
        × (holds c req token r ≡ true)
  unfolding store_response
  store_response-Stored req token resp header rows rows' r found hs hk h =
      elim (Bool-cases (holds c req token r)) [
        | inl y ↦
            let e = rw (found, store_response, y) at h in
            (
              let q : rows' ≡ put (finished c resp header r) rows = cc in
                  rw q
                    (row_of-put_at req.scope req.key (finished c resp header r) rows r hs hk found),
              y,
            )
        | inr n ↦ let e = rw (found, store_response, n) at h in cc
      ]

  Answer-cases :
      {A : Type 0} (a : Answer A)
      → ((x : A) × (a ≡ Answer.done x)) ⊎ ((f : Fault) × (a ≡ Answer.failed f))
  Answer-cases (Answer.done x) = inl (x, refl)
  Answer-cases (Answer.failed f) = inr (f, refl)

  -- What Complete leaves, where it succeeds.
  pub complete-Stored :
      (req : Request) (token : ℕ) (resp : Response) (rows rows' : List Row) (r : Row)
      → row_of req.scope req.key rows ≡ some r
      → r.scope ≡ req.scope
      → r.key ≡ req.key
      → complete c req token resp rows ≡ Answer.done rows'
      → Stored req r resp rows' × (holds c req token r ≡ true)
  unfolding complete
  complete-Stored req token resp rows rows' r found hs hk h =
      elim (Answer-cases (encoded c resp.header)) [
        | inl (header, e) ↦
            let (put_there, held) =
              store_response-Stored req token resp header rows rows' r found hs hk
                (rw (e, complete) at h) in
            ((header, e, put_there), held)
        | inr (f, e) ↦ let q = rw (e, complete) at h in cc
      ]

  replay_of-not :
      (a : Answer Response) (resp : Response) → replay_of c a ≡ Answer.done (resp, false) → ⊥
  replay_of-not (Answer.done r) resp h = cc
  replay_of-not (Answer.failed f) resp h = cc

  module _ (W : Type 0) where
    after_operation-Stored :
        (req : Request) (rows : List Row) (p : Answer Response × W) (resp : Response)
        (rows' : List Row) (w' : W) (r : Row)
        → row_of req.scope req.key rows ≡ some r
        → r.scope ≡ req.scope
        → r.key ≡ req.key
        → after_operation c W req rows p ≡ (Answer.done (resp, false), rows', w')
        → Stored req r resp rows'
    after_operation-Stored req rows (Answer.failed f, w) resp rows' w' r found hs hk h = cc
    after_operation-Stored req rows (Answer.done resp', w) resp rows' w' r found hs hk h =
        elim (Answer-cases (complete c req 0 resp' rows)) [
          | inr (f, e) ↦ let q = rw (e, stored_as) at h in cc
          | inl (rows'', e) ↦
              let q = rw (e, stored_as) at h in
              let same_resp : resp' ≡ resp = cc in
              let same_rows : rows'' ≡ rows' = cc in
              subst (λ x. Stored req r x rows') same_resp
                (complete-Stored req 0 resp' rows rows' r found hs hk
                  (e ∙ ap Answer.done same_rows)).0
        ]

    -- A call of Do that ran its operation has stored what it returned.
    do_once-Stored :
        (now ttl : ℕ) (req : Request) (fn : W → Answer Response × W) (rows rows' : List Row)
        (w w' : W) (resp : Response)
        → do_once c W now ttl req fn rows w ≡ (Answer.done (resp, false), rows', w')
        → (is_claimable req ≡ true) × Stored req (fresh req now (micros ttl) none none) resp rows'
    unfolding do_once claim
    do_once-Stored now ttl req fn rows rows' w w' resp h =
        let row = fresh req now (micros ttl) none none in
        elim (Bool-cases (is_claimable req)) [
          | inr bad ↦ let q = rw bad at h in cc
          | inl good ↦ elim (Bool-cases (upsert (expired now) row rows).0) [
            | inr lost ↦
                let q = rw (good, lost) at h in
                absurd (replay_of-not _ resp (ap (λ (p : Ended W). p.0) q))
            | inl owned ↦
                let q = rw (good, owned) at h in
                (
                  good,
                  after_operation-Stored req (upsert (expired now) row rows).1 (fn w) resp rows' w'
                      row (upsert-owned (expired now) row rows owned) refl refl q,
                )
          ]
        ]

  decoded-encoded :
      (h : Option Header) (bytes : Option (List ℕ))
      → RoundTrips c
      → encoded c h ≡ Answer.done bytes
      → decoded c bytes ≡ Answer.done h
  decoded-encoded none bytes rt e = let q : bytes ≡ none = cc in rw q refl
  decoded-encoded (some h) bytes rt e = elim (Answer-cases (c.encode h)) [
    | inr (f, bad) ↦ let q = rw (bad, encoded) at e in cc
    | inl (b, good) ↦
        let q = rw (good, encoded) at e in
        let same : bytes ≡ some b = cc in rw (same, decoded, rt h b good) refl
  ]

  -- What `existing` reads of a stored response.
  pub existing-Stored :
      (req : Request) (r : Row) (resp : Response) (rows : List Row)
      → RoundTrips c
      → r.fingerprint ≡ req.fingerprint
      → Stored req r resp rows
      → existing c req rows ≡ Answer.done resp
  unfolding existing read_row
  existing-Stored req r resp rows rt same (header, e, found) =
      rw
        (
          found,
          existing,
          read_row,
          (==_iff r.fingerprint req.fingerprint).1 same,
          decoded-encoded resp.header header rt e,
        )
        refl

  module _ (W : Type 0) (now ttl : ℕ) (req : Request) (fn : W → Answer Response × W)
      (rows rows' : List Row) (w w' : W) (resp : Response) where
    -- Until its key expires, a retry of a call of Do that succeeded gets the response that the first
    -- call returned, marked as replayed, whatever operation it brings: the operation is not run again,
    -- and the table stays as it is. What JSON encodes it must decode as it was.
    pub do_once-replays :
        (now2 ttl2 : ℕ) (fn2 : W → Answer Response × W) (w2 : W)
        → RoundTrips c
        → do_once c W now ttl req fn rows w ≡ (Answer.done (resp, false), rows', w')
        → now2 < now + micros ttl
        → do_once c W now2 ttl2 req fn2 rows' w2 ≡ (Answer.done (resp, true), rows', w2)
    unfolding do_once claim
    do_once-replays now2 ttl2 fn2 w2 rt h live =
        let (good, stored) = do_once-Stored W now ttl req fn rows rows' w w' resp h in
        let row = finished c resp stored.0 (fresh req now (micros ttl) none none) in
        let kept =
          upsert-refused (expired now2) (fresh req now2 (micros ttl2) none none) rows' row stored.2
            (ground arith) in
        rw
          (
            good,
            kept,
            existing-Stored req (fresh req now (micros ttl) none none) resp rows' rt refl stored,
          )
          refl

    -- After a call of Do that succeeded with its own response, and until its key expires, a valid
    -- request with the same scope and key and other content fails with ErrKeyReused, whatever operation
    -- it brings: the operation is not run, and the table stays as it is.
    pub do_once-reused :
        (now2 ttl2 : ℕ) (other : Request) (fn2 : W → Answer Response × W) (w2 : W)
        → do_once c W now ttl req fn rows w ≡ (Answer.done (resp, false), rows', w')
        → now2 < now + micros ttl
        → other.scope ≡ req.scope
        → other.key ≡ req.key
        → other.fingerprint ≢ req.fingerprint
        → is_claimable other ≡ true
        → do_once c W now2 ttl2 other fn2 rows' w2 ≡ (Answer.failed Fault.key_reused, rows', w2)
    unfolding do_once claim existing read_row
    do_once-reused now2 ttl2 other fn2 w2 h live hs hk differs claimable =
        let (good, stored) = do_once-Stored W now ttl req fn rows rows' w w' resp h in
        let row = finished c resp stored.0 (fresh req now (micros ttl) none none) in
        let found : row_of other.scope other.key rows' ≡ some row = rw (hs, hk) stored.2 in
        let kept =
          upsert-refused (expired now2) (fresh other now2 (micros ttl2) none none) rows' row found
            (ground arith) in
        let unlike : (req.fingerprint == other.fingerprint) ≡ false =
          ground (arith, ==_iff req.fingerprint other.fingerprint) in
        rw (claimable, kept, found, existing, read_row, unlike) refl
