-- ===== src/Idempotency/Http/Serve.antt =====
-- idempotency/httpx/middleware.go: Middleware and serve, over any Store, and the store of
-- idempotency/postgres as one.
use vogel.Prelude.{
  ℕ, suc, leb, String, Bool, false, not, ◌||◌, none, some, List, [], ◌∷◌, is_empty, ℤ, pos,
  if◌then◌else◌,
}
use vogel.Idempotency.{Fault, Answer, Request, Response, Row, is_claimable, release}
use vogel.Idempotency.Calls.{Codec, Others, Reservation, held, replay, complete, reserve}
use vogel.Idempotency.Http.{
  Platform, fingerprint, scope, BodyRead, bytes, too_large, unreadable, HttpRequest, problem,
  Writer, send, handler_headers, replay_to,
}
use vogel.Idempotency.Http.Recorder.{Recorder, Op, record_ops, pass_ops, new_recorder, result_of}

-- The interface Store; `T` is what its database holds.
pub record Store (T : Type 0) : Type 0 where
  pub reserve : Request → ℤ → T → Answer Reservation × T
  pub complete : Request → ℕ → Response → T → Answer T
  pub release : Request → ℕ → T → Answer T

-- idempotency/postgres.Store during one request: its clock, the other transactions, the token that
-- it draws and its time to live.
unfoldable pub postgres : Codec → (ℕ → ℕ) → Others → ℕ → ℕ → Store (List Row)
postgres c clock others ttl token = record {
  reserve = λ req lease rows. reserve c clock others ttl lease token req rows;
  complete = λ req t resp rows. complete c req t resp rows;
  release = λ req t rows. Answer.done (release req t rows);
}

pub record Config : Type 0 where
  pub lease : ℤ
  pub required : Bool
  pub max_request_bytes : ℤ
  pub max_response_bytes : ℤ

-- `<= 0`, and then the default.
abbrev pub at_least_one : ℤ → ℕ → ℕ
at_least_one (pos (suc n)) default = suc n
at_least_one _ default = default

abbrev pub lease_of : Config → ℕ
lease_of cfg = at_least_one cfg.lease 60000000000

abbrev pub request_limit : Config → ℕ
request_limit cfg = at_least_one cfg.max_request_bytes 1048576

abbrev pub response_limit : Config → ℕ
response_limit cfg = at_least_one cfg.max_response_bytes 1048576

-- A handler: its calls on the ResponseWriter, whether it ends in a panic, and the world after it.
abbrev pub HttpHandler : Type 0 → Type 0
HttpHandler W = HttpRequest → W → (List Op × Bool) × W

-- What a request ends with.
pub record Served (W : Type 0) (T : Type 0) : Type 0 where
  pub writer : Writer
  pub world : W
  pub table : T
  pub panicked : Bool

abbrev pub user_of : HttpRequest → List ℕ
user_of r = elim r.user [ none ↦ [] | some u ↦ u ]

-- The idempotency.Request of an HTTP request whose body has been read.
unfoldable pub request_of : Platform → HttpRequest → List ℕ → Request
request_of pf r body = record {
  scope = scope pf (user_of r) r.method r.path;
  key = r.key;
  fingerprint = fingerprint pf (r.method ∷ r.path ∷ r.query ∷ body ∷ []);
}

-- The table after a call of Complete or Release: an error is logged.
abbrev pub or_same : {T : Type 0} → Answer T → T → T
or_same (Answer.done t') t = t'
or_same (Answer.failed f) t = t

-- The response that is stored.
unfoldable pub recorded_response : Platform → Writer → Recorder → Response
recorded_response pf before rec =
    let (status, header) = result_of rec in
    record {
      status = status;
      header = some (handler_headers pf before.header header);
      body = some rec.body;
    }

abbrev pub is_kept : Recorder → Bool
is_kept rec = not (leb 500 (result_of rec).0 || rec.overflow)

-- What follows the handler: the deferred release, or the end of serve.
unfoldable pub settle :
    {T : Type 0} → Platform → Store T → Request → ℕ → Writer → Recorder → Bool → T → T
unfolding recorded_response
settle pf store req token before rec panics t =
    if panics || not (is_kept rec)
    then or_same (store.release req token t) t
    else or_same (store.complete req token (recorded_response pf before rec) t) t

module _ {W : Type 0} {T : Type 0} where
  abbrev pub served : Writer → W → T → Served W T
  served writer w t = record { writer = writer; world = w; table = t; panicked = false }

  abbrev passed : Writer → (List Op × Bool) × W → T → Served W T
  passed writer ((ops, panics), w) t = record {
    writer = pass_ops ops writer;
    world = w;
    table = t;
    panicked = panics;
  }

  -- The handler's run under a reservation; `meanwhile` is what other requests do to the database.
  unfoldable pub run_handler :
      Platform
      → Config
      → Store T
      → (T → T)
      → HttpHandler W
      → HttpRequest
      → Request
      → ℕ
      → Writer
      → W
      → T
      → Served W T
  unfolding settle
  run_handler pf cfg store meanwhile next r req token writer w t =
      let ((ops, panics), w') = next r w in
      let rec = record_ops ops (new_recorder (response_limit cfg) writer) in
      record {
        writer = rec.writer;
        world = w';
        table = settle pf store req token writer rec panics (meanwhile t);
        panicked = panics;
      }

  abbrev pub refuse : ℕ → String → Writer → W → T → Served W T
  refuse status code writer w t = served (send (problem status code) writer) w t

  -- What follows Reserve.
  unfoldable pub reserved :
      Platform
      → Config
      → Store T
      → (T → T)
      → HttpHandler W
      → HttpRequest
      → Request
      → Writer
      → W
      → Answer Reservation × T
      → Served W T
  unfolding run_handler
  reserved pf cfg store meanwhile next r req writer w (Answer.failed Fault.in_progress, t) =
      refuse 409 "CONFLICT" writer w t
  reserved pf cfg store meanwhile next r req writer w (Answer.failed Fault.key_reused, t) =
      refuse 422 "UNPROCESSABLE_ENTITY" writer w t
  reserved pf cfg store meanwhile next r req writer w (Answer.failed f, t) =
      refuse 503 "SERVICE_UNAVAILABLE" writer w t
  reserved pf cfg store meanwhile next r req writer w (Answer.done (replay resp), t) =
      served (replay_to resp writer) w t
  reserved pf cfg store meanwhile next r req writer w (Answer.done (held token), t) =
      run_handler pf cfg store meanwhile next r req token writer w t

  abbrev pub claimed :
      Platform
      → Config
      → Store T
      → (T → T)
      → HttpHandler W
      → HttpRequest
      → BodyRead
      → Writer
      → W
      → T
      → Served W T
  claimed pf cfg store meanwhile next r too_large writer w t =
      refuse 413 "BODY_TOO_LARGE" writer w t
  claimed pf cfg store meanwhile next r unreadable writer w t =
      refuse 400 "VALIDATION_ERROR" writer w t
  claimed pf cfg store meanwhile next r (bytes body) writer w t =
      let req = request_of pf r body in
      if not (is_claimable req)
      then refuse 400 "VALIDATION_ERROR" writer w t
      else reserved pf cfg store meanwhile next r req writer w
          (store.reserve req (pos (lease_of cfg)) t)

  -- serve
  unfoldable pub serve :
      Platform
      → Config
      → Store T
      → (T → T)
      → HttpHandler W
      → HttpRequest
      → Writer
      → W
      → T
      → Served W T
  unfolding request_of reserved
  serve pf cfg store meanwhile next r writer w t =
      if is_empty (user_of r)
      then passed writer (next r w) t
      else if is_empty r.key
      then (if cfg.required
          then refuse 400 "VALIDATION_ERROR" writer w t
          else passed writer (next r w) t)
      else claimed pf cfg store meanwhile next r (r.body (request_limit cfg)) writer w t
