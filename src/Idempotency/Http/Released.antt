-- ===== src/Idempotency/Http/Released.antt =====
-- Duplicates of a request that runs, and retries of one that failed, through
-- idempotency/httpx.Middleware.
use vogel.Prelude.{
  ℕ, suc, ◌+◌, ◌<◌, String, Bool, true, false, not, ◌||◌, none, some, List, [], ◌∷◌, ◌++◌, ◌≡◌, ◌∙◌,
  refl, ap, arith, filter, pos, ◌==◌, ==_iff, string_eq, nat_eq, list_eq, Bool-cases, inl, inr,
  if◌then◌else◌,
}
use vogel.Idempotency.{
  Answer, Request, Row, is_claimable, has_key, row_of, fresh, release, claim_lease, may_reserve,
}
use vogel.Idempotency.Calls.{Codec, micros, Others, held, reserve, reserve_attempts, attempt}
use vogel.Idempotency.Table.{upsert-new, has_key-eq, has_key-own}
use vogel.Idempotency.Unique.{Unique, none-filter}
use vogel.Idempotency.Lease.{Holds, Spares, reserve-exclusive}
use vogel.Idempotency.Http.{Platform, HttpRequest, problem, Writer, send}
use vogel.Idempotency.Http.Recorder.{Op, record_ops, new_recorder}
use vogel.Idempotency.Http.Serve.{
  postgres, Config, lease_of, response_limit, HttpHandler, Served, request_of, served, is_kept,
  settle, run_handler, reserved, serve,
}
use vogel.Idempotency.Http.Retried.{Ready, lease_of-positive, held-Holds, serve-reserved, serve-ran}

request_of-key :
    (pf : Platform) (r s : HttpRequest) (a b : List ℕ)
    → r.key ≡ s.key
    → (request_of pf r a).key ≡ (request_of pf s b).key
unfolding request_of
request_of-key pf r s a b h = h

module _ {W : Type 0} (pf : Platform) (cfg : Config) (r r2 : HttpRequest)
    (body body2 : List ℕ) where
  -- A duplicate of a request whose handler still runs is turned away: while the lease and the key of
  -- the first request last, a request of the same scope and key is answered with 409, or with 422 if
  -- its content differs, and its handler does not run. Other requests may do anything but change the
  -- row of the key between the duplicate's claim and its read.
  pub serve-conflicts :
      (c : Codec) (clock clock2 : ℕ → ℕ) (others others2 : Others) (ttl token ttl2 token2 : ℕ)
      (meanwhile : List Row → List Row) (next : HttpHandler W) (writer : Writer) (w : W)
      (rows rows1 : List Row) (t : ℕ)
      → Ready pf cfg r2 body2
      → reserve c clock others ttl (pos (lease_of cfg)) token (request_of pf r body) rows
        ≡ (Answer.done (held t), rows1)
      → (request_of pf r2 body2).scope ≡ (request_of pf r body).scope
      → r2.key ≡ r.key
      → ((m : ℕ) → m < reserve_attempts → clock2 2 < clock m + micros (lease_of cfg))
      → ((m : ℕ) → m < reserve_attempts → clock2 2 < clock m + micros ttl)
      → Spares others2 (request_of pf r2 body2)
      → serve pf cfg (postgres c clock2 others2 ttl2 token2) meanwhile next r2 writer w rows1
        ≡ served
            (send
              (if (request_of pf r body).fingerprint == (request_of pf r2 body2).fingerprint
                then problem 409 "CONFLICT"
                else problem 422 "UNPROCESSABLE_ENTITY")
              writer)
            w
            (others2.before_read 2 rows1)
  unfolding reserved postgres
  serve-conflicts c clock clock2 others others2 ttl token ttl2 token2 meanwhile next writer w rows
        rows1 t ready h hs hk leased live spares =
      let req = request_of pf r body in
      let req2 = request_of pf r2 body2 in
      let (n, e) = lease_of-positive cfg in
      let answer =
        reserve-exclusive c clock clock2 others others2 ttl n token ttl2 n token2 req req2 rows
          rows1 t (rw e at h) hs (request_of-key pf r2 r body2 body hk) ready.claimable
          (rw e at leased) live spares in
      serve-reserved pf cfg r2 body2 ready (postgres c clock2 others2 ttl2 token2) meanwhile next
        writer w rows1
      ∙ elim (Bool-cases (req.fingerprint == req2.fingerprint)) [
        | inl alike ↦ rw (e, answer, reserved, alike) refl
        | inr unlike ↦ rw (e, answer, reserved, unlike) refl
      ]

-- A deletion of the only row of a key leaves none.
filter-dropped :
    (scope : String) (key : List ℕ) (keep : Row → Bool) (rows : List Row) (row : Row)
    → Unique rows
    → row_of scope key rows ≡ some row
    → keep row ≡ false
    → row_of scope key (filter keep rows) ≡ none
unfolding row_of
filter-dropped scope key keep [] row u h k = cc
filter-dropped scope key keep (x ∷ xs) row u h k = elim (Bool-cases (has_key scope key x)) [
  | inl here ↦
      let one : x ≡ row = ground (arith, here) in
      let (s, e) = has_key-eq scope key x here in
      rw (one, k) (none-filter scope key keep xs (rw (s, e) at u.0))
  | inr there ↦ elim (Bool-cases (keep x)) [
    | inl keeps ↦ rw (keeps, there) (filter-dropped scope key keep xs row u.1 (rw there at h) k)
    | inr drops ↦ rw drops (filter-dropped scope key keep xs row u.1 (rw there at h) k)
  ]
]

release-none :
    (req : Request) (now ttl lease token t : ℕ) (rows : List Row)
    → Unique rows
    → Holds ttl lease token req now rows
    → t ≡ token
    → row_of req.scope req.key (release req t rows) ≡ none
unfolding release
release-none req now ttl lease token t rows unique holds same =
    let row = fresh req now (micros ttl) (some (now + micros lease)) (some token) in
    filter-dropped req.scope req.key _ rows row unique holds
      (rw (has_key-own row, same) (ground (arith, ==_iff token token)))

-- A claim of a key that has no row is granted at once.
reserve-granted :
    (c : Codec) (clock : ℕ → ℕ) (others : Others) (ttl lease token : ℕ) (req : Request)
    (rows : List Row)
    → is_claimable req ≡ true
    → row_of req.scope req.key rows ≡ none
    → (rows1 : List Row) × (reserve c clock others ttl (pos (suc lease)) token req rows
        ≡ (Answer.done (held token), rows1))
unfolding reserve attempt claim_lease
reserve-granted c clock others ttl lease token req rows good none' =
    let row = fresh req (clock 2) (micros ttl) (some (clock 2 + micros (suc lease))) (some token) in
    (rows ++ row ∷ [], rw (good, upsert-new (may_reserve (clock 2) req) row rows none') refl)

module _ {W : Type 0} (pf : Platform) (cfg : Config) (r : HttpRequest) (body : List ℕ)
    (ready : Ready pf cfg r body) where
  -- A failed request frees its key: if the handler panics, or its response is 500 or above or larger
  -- than the limit, the row of the key is gone, and the retry, which is the next to claim it, runs
  -- its handler. No two rows may have the same key, and other requests may not change the row of the
  -- key while the first handler runs.
  pub serve-retries :
      (c : Codec) (clock clock2 : ℕ → ℕ) (others others2 : Others) (ttl token ttl2 token2 : ℕ)
      (meanwhile meanwhile2 : List Row → List Row) (next next2 : HttpHandler W)
      (writer writer2 : Writer) (w w' w2 : W) (rows rows1 : List Row) (t : ℕ) (ops : List Op)
      (panics : Bool)
      → reserve c clock others ttl (pos (lease_of cfg)) token (request_of pf r body) rows
        ≡ (Answer.done (held t), rows1)
      → next r w ≡ ((ops, panics), w')
      → (panics || not (is_kept (record_ops ops (new_recorder (response_limit cfg) writer)))) ≡ true
      → Unique (meanwhile rows1)
      → row_of (request_of pf r body).scope (request_of pf r body).key (meanwhile rows1)
        ≡ row_of (request_of pf r body).scope (request_of pf r body).key rows1
      → let first =
          serve pf cfg (postgres c clock others ttl token) meanwhile next r writer w rows in
        let second =
          serve pf cfg
            (postgres c clock2 others2 ttl2 token2)
            meanwhile2
            next2
            r
            writer2
            w2
            first.table in
        (first.panicked ≡ panics)
        × (row_of (request_of pf r body).scope (request_of pf r body).key first.table ≡ none)
        × (second.world ≡ (next2 r w2).1)
        × (second.panicked ≡ (next2 r w2).0.1)
  unfolding run_handler settle postgres
  serve-retries c clock clock2 others others2 ttl token ttl2 token2 meanwhile meanwhile2 next next2
        writer writer2 w w' w2 rows rows1 t ops panics h ran failed unique spared =
      let req = request_of pf r body in
      let (lease, m, same, below, taken) =
        held-Holds cfg c clock others ttl token req rows rows1 t h in
      let first = serve pf cfg (postgres c clock others ttl token) meanwhile next r writer w rows in
      let served_first =
        serve-ran pf cfg r body ready c clock others ttl token meanwhile next writer w rows rows1 t
          h in
      let table : first.table ≡ release req t (meanwhile rows1) =
        ap (λ (x : Served W (List Row)). x.table) served_first ∙ rw (ran, failed) refl in
      let gone : row_of req.scope req.key first.table ≡ none = rw table (
        release-none req (clock m) ttl lease token t (meanwhile rows1) unique (spared ∙ taken)
          same) in
      let (n, e) = lease_of-positive cfg in
      let (rows3, granted) =
        reserve-granted c clock2 others2 ttl2 n token2 req first.table ready.claimable gone in
      let served_second =
        serve-ran pf cfg r body ready c clock2 others2 ttl2 token2 meanwhile2 next2 writer2 w2
          first.table rows3 token2 (rw e granted) in
      (
        ap (λ (x : Served W (List Row)). x.panicked) served_first ∙ rw ran refl,
        gone,
        ap (λ (x : Served W (List Row)). x.world) served_second,
        ap (λ (x : Served W (List Row)). x.panicked) served_second,
      )
