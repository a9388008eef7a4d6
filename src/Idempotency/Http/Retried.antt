-- ===== src/Idempotency/Http/Retried.antt =====
-- What a retry through idempotency/httpx.Middleware gets: serve, composed with the store.
use vogel.Prelude.{
  ℕ, zero, suc, ◌+◌, ◌<◌, true, false, List, ◌≡◌, ◌∙◌, refl, ap, is_empty, ℤ, pos, negsuc,
  string_eq, nat_eq, list_eq,
}
use vogel.Idempotency.{Answer, Request, Response, Row, is_claimable, row_of}
use vogel.Idempotency.Calls.{Codec, micros, complete, Others, held, reserve, reserve_attempts}
use vogel.Idempotency.Replay.{RoundTrips}
use vogel.Idempotency.Lease.{Holds, reserve-Holds, Spares}
use vogel.Idempotency.Fence.{held-replays}
use vogel.Idempotency.Http.{Platform, bytes, HttpRequest, Writer, replay_to}
use vogel.Idempotency.Http.Recorder.{Op, record_ops, new_recorder}
use vogel.Idempotency.Http.Serve.{
  Store, postgres, Config, lease_of, request_limit, response_limit, at_least_one, HttpHandler,
  Served, user_of, request_of, served, recorded_response, is_kept, settle, run_handler, reserved,
  claimed, serve,
}

-- A request that serve takes to the store, with the body that it has read.
pub record Ready (pf : Platform) (cfg : Config) (r : HttpRequest) (body : List ℕ) : Type 0 where
  pub known : is_empty (user_of r) ≡ false
  pub keyed : is_empty r.key ≡ false
  pub read : r.body (request_limit cfg) ≡ bytes body
  pub claimable : is_claimable (request_of pf r body) ≡ true

pub lease_of-positive : (cfg : Config) → (n : ℕ) × (lease_of cfg ≡ suc n)
lease_of-positive cfg = go cfg.lease
  where
    go : (lease : ℤ) → (n : ℕ) × (at_least_one lease 60000000000 ≡ suc n)
    go (pos (suc n)) = (n, refl)
    go (pos zero) = (59999999999, refl)
    go (negsuc n) = (59999999999, refl)

pub held-Holds :
    (cfg : Config) (c : Codec) (clock : ℕ → ℕ) (others : Others) (ttl token : ℕ) (req : Request)
    (rows rows1 : List Row) (t : ℕ)
    → reserve c clock others ttl (pos (lease_of cfg)) token req rows ≡ (Answer.done (held t), rows1)
    → (lease : ℕ) × (m : ℕ) × (t ≡ token)
      × (m < reserve_attempts)
      × Holds ttl lease token req (clock m) rows1
held-Holds cfg c clock others ttl token req rows rows1 t h =
    let (n, e) = lease_of-positive cfg in
    let (same, m, below, taken) =
      reserve-Holds c clock others ttl n token req rows rows1 t (rw e at h) in
    (suc n, m, same, below, taken)

module _ {W : Type 0} (pf : Platform) (cfg : Config) (r : HttpRequest) (body : List ℕ)
    (ready : Ready pf cfg r body) where
  pub serve-reserved :
      {T : Type 0} (store : Store T) (meanwhile : T → T) (next : HttpHandler W) (writer : Writer)
      (w : W) (t : T)
      → serve pf cfg store meanwhile next r writer w t
        ≡ reserved pf cfg store meanwhile next r
            (request_of pf r body)
            writer
            w
            (store.reserve (request_of pf r body) (pos (lease_of cfg)) t)
  unfolding serve
  serve-reserved store meanwhile next writer w t =
      rw (ready.known, ready.keyed, ready.read) (rw (ready.claimable, claimed) refl)

  -- A request whose Reserve has got a token runs the handler.
  pub serve-ran :
      (c : Codec) (clock : ℕ → ℕ) (others : Others) (ttl token : ℕ)
      (meanwhile : List Row → List Row) (next : HttpHandler W) (writer : Writer) (w : W)
      (rows rows1 : List Row) (t : ℕ)
      → reserve c clock others ttl (pos (lease_of cfg)) token (request_of pf r body) rows
        ≡ (Answer.done (held t), rows1)
      → serve pf cfg (postgres c clock others ttl token) meanwhile next r writer w rows
        ≡ run_handler pf cfg
            (postgres c clock others ttl token)
            meanwhile
            next
            r
            (request_of pf r body)
            t
            writer
            w
            rows1
  unfolding reserved postgres
  serve-ran c clock others ttl token meanwhile next writer w rows rows1 t h =
      serve-reserved (postgres c clock others ttl token) meanwhile next writer w rows
      ∙ rw (h, reserved) refl

  module _ (c : Codec) (clock clock2 : ℕ → ℕ) (others others2 : Others) (ttl token ttl2 token2 : ℕ)
      (meanwhile meanwhile2 : List Row → List Row) (next next2 : HttpHandler W)
      (writer writer2 : Writer) (w w' w2 : W) (rows rows1 : List Row) (t : ℕ) (ops : List Op) where
    abbrev first : Served W (List Row)
    first = serve pf cfg (postgres c clock others ttl token) meanwhile next r writer w rows

    abbrev retried : List Row → Served W (List Row)
    retried rows =
        serve pf cfg (postgres c clock2 others2 ttl2 token2) meanwhile2 next2 r writer2 w2 rows

    abbrev recorded : Response
    recorded =
        recorded_response pf writer (record_ops ops (new_recorder (response_limit cfg) writer))

    -- A retry gets the stored response of the first request: if the handler returned a response that
    -- is below 500 and within the limit, and the store has taken it, then until the key expires the
    -- same request is answered with it, the handler does not run again, and the table stays as the
    -- first request left it. Other requests may do anything but change the row of the key while the
    -- first handler runs and between the retry's claim and its read; what JSON encodes must decode as
    -- it was.
    pub serve-replays :
        (rows2 : List Row)
        → RoundTrips c
        → reserve c clock others ttl (pos (lease_of cfg)) token (request_of pf r body) rows
          ≡ (Answer.done (held t), rows1)
        → next r w ≡ ((ops, false), w')
        → is_kept (record_ops ops (new_recorder (response_limit cfg) writer)) ≡ true
        → complete c (request_of pf r body) t recorded (meanwhile rows1) ≡ Answer.done rows2
        → row_of (request_of pf r body).scope (request_of pf r body).key (meanwhile rows1)
          ≡ row_of (request_of pf r body).scope (request_of pf r body).key rows1
        → ((m : ℕ) → m < reserve_attempts → clock2 2 < clock m + micros ttl)
        → Spares others2 (request_of pf r body)
        → (first.table ≡ rows2)
          × (retried first.table
              ≡ served (replay_to recorded writer2) w2 (others2.before_read 2 rows2))
    unfolding run_handler settle postgres reserved
    serve-replays rows2 rt h ran kept stored spared live spares =
        let req = request_of pf r body in
        let (lease, m, same, below, taken) =
          held-Holds cfg c clock others ttl token req rows rows1 t h in
        let table : first.table ≡ rows2 =
          ap (λ (x : Served W (List Row)). x.table)
            (serve-ran c clock others ttl token meanwhile next writer w rows rows1 t h)
          ∙ rw (ran, kept, stored) refl in
        let (n, e) = lease_of-positive cfg in
        let again =
          held-replays c clock2 others2 ttl lease token (clock m) t ttl2 n token2 req
            (meanwhile rows1) rows2 recorded rt ready.claimable (spared ∙ taken) stored
            (live m below) spares in
        (
          table,
          ap retried table
              ∙ serve-reserved (postgres c clock2 others2 ttl2 token2) meanwhile2 next2 writer2 w2
                  rows2
              ∙ rw (e, again, reserved) refl,
        )
