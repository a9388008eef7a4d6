-- ===== src/Idempotency/Http/Tests.antt =====
-- The middleware on small requests, and its theorems at them.
use vogel.Prelude.{
  ℕ, ◌+◌, true, false, none, some, List, [], ◌∷◌, ◌≡◌, refl, arith, pos, ◌==◌, list_eq, nat_eq,
  if◌then◌else◌,
}
use vogel.Idempotency.{Answer, Row, Stage, is_claimable, row_of, put, upsert, fresh, claim_lease}
use vogel.Idempotency.Calls.{
  held, existing, read_row, attempt, reserve, complete, store_response, null_token,
}
use vogel.Idempotency.Unique.{Unique}
use vogel.Idempotency.Tests.{plain, plain-RoundTrips, nobody, second}
use vogel.Idempotency.Http.{
  framed, fingerprint, scope, bytes, HttpRequest, head, data', problem, Writer, send, assign,
  handler_headers, add_headers, replay_to,
}
use vogel.Idempotency.Http.Recorder.{
  Recorder, write_header, write, Op, writes_header, writes, record_op, record_ops, new_recorder,
  result_of,
}
use vogel.Idempotency.Http.Serve.{
  postgres, Config, HttpHandler, request_of, served, recorded_response, is_kept, serve,
}
use vogel.Idempotency.Http.Recorded.{Recorded}
use vogel.Idempotency.Http.Framed.{request_of-apart}
use vogel.Idempotency.Http.Retried.{Ready, serve-replays}
use vogel.Idempotency.Http.Released.{serve-conflicts, serve-retries}
use vogel.Idempotency.Http.Strokes.{text_of-apart, simple}

abbrev config : Config
config = record {
  lease = pos 500000000;
  required = false;
  max_request_bytes = pos 0;
  max_response_bytes = pos 4;
}

abbrev post : HttpRequest
post = record {
  user = some (97 ∷ []);
  method = 80 ∷ [];
  path = 47 ∷ [];
  query = [];
  key = 107 ∷ [];
  body = λ n. bytes (123 ∷ []);
}

post-Ready : Ready simple config post (123 ∷ [])
unfolding is_claimable request_of scope fingerprint framed
post-Ready = record { known = refl; keyed = refl; read = refl; claimable = refl }

-- A handler that counts its runs and creates something.
abbrev creates : HttpHandler ℕ
creates r n = ((writes_header 201 ∷ writes (111 ∷ 107 ∷ []) ∷ [], false), n + 1)

abbrev fails : HttpHandler ℕ
fails r n = ((writes_header 503 ∷ [], false), n + 1)

abbrev nothing_sent : Writer
nothing_sent = record { header = []; sent = [] }

abbrev alone : List Row → List Row
alone rows = rows

abbrev running : Row
running = fresh (request_of simple post (123 ∷ [])) 5 1000000 (some 500005) (some 3)

abbrev finished : Row
finished = record running {
  stage = Stage.completed;
  response_status = some 201;
  response_header = some (123 ∷ 125 ∷ []);
  response_body = some (111 ∷ 107 ∷ []);
  locked_until = none;
  reservation = none;
}

abbrev ops : List Op
ops = writes_header 201 ∷ writes (111 ∷ 107 ∷ []) ∷ []

abbrev recorder : Recorder
recorder = record_ops ops (new_recorder 4 nothing_sent)

reserve-post :
    reserve plain (λ n. 5) nobody second (pos 500000000) 3 (request_of simple post (123 ∷ [])) []
    ≡ (Answer.done (held 3), running ∷ [])
unfolding reserve attempt is_claimable claim_lease upsert row_of put existing read_row request_of
    scope fingerprint framed
reserve-post = refl

ops-kept : is_kept recorder ≡ true
unfolding record_ops record_op write_header write result_of
ops-kept = refl

complete-post :
    complete plain
      (request_of simple post (123 ∷ []))
      3
      (recorded_response simple nothing_sent recorder)
      (running ∷ [])
    ≡ Answer.done (finished ∷ [])
unfolding complete store_response row_of put null_token request_of scope fingerprint framed
    recorded_response record_ops record_op write_header write result_of handler_headers
complete-post = refl

serve-replays_example :
    ((serve simple config
        (postgres plain (λ n. 5) nobody second 3)
        alone
        creates
        post
        nothing_sent
        0
        []).table
      ≡ finished ∷ [])
    × (serve simple config
          (postgres plain (λ n. 999) nobody second 4)
          alone
          creates
          post
          nothing_sent
          1
          (serve simple config
            (postgres plain (λ n. 5) nobody second 3)
            alone
            creates
            post
            nothing_sent
            0
            []).table
        ≡ served
            (replay_to (recorded_response simple nothing_sent recorder) nothing_sent)
            1
            (finished ∷ []))
serve-replays_example =
    serve-replays simple config post (123 ∷ []) post-Ready plain (λ n. 5) (λ n. 999) nobody nobody
      second 3 second 4 alone alone creates creates nothing_sent nothing_sent 0 1 1 []
      (running ∷ []) 3 ops (finished ∷ []) plain-RoundTrips reserve-post refl ops-kept complete-post
      refl (λ m below. omega arith) (λ n rows. refl)

replayed :
    (replay_to (recorded_response simple nothing_sent recorder) nothing_sent).sent
    ≡ head 201 (("Idempotent-Replayed", "true" ∷ []) ∷ []) ∷ data' (111 ∷ 107 ∷ []) ∷ []
unfolding replay_to recorded_response record_ops record_op write_header write result_of
    handler_headers add_headers assign
replayed = refl

serve-conflicts_example :
    serve simple config
      (postgres plain (λ n. 500004) nobody second 4)
      alone
      creates
      post
      nothing_sent
      1
      (running ∷ [])
    ≡ served
        (send
          (if (request_of simple post (123 ∷ [])).fingerprint
              == (request_of simple post (123 ∷ [])).fingerprint
            then problem 409 "CONFLICT"
            else problem 422 "UNPROCESSABLE_ENTITY")
          nothing_sent)
        1
        (running ∷ [])
serve-conflicts_example =
    serve-conflicts simple config post post (123 ∷ []) (123 ∷ []) plain (λ n. 5) (λ n. 500004)
      nobody nobody second 3 second 4 alone creates nothing_sent 1 [] (running ∷ []) 3 post-Ready
      reserve-post refl refl (λ m below. omega arith) (λ m below. omega arith) (λ n rows. refl)

fails-unkept : is_kept (record_ops (writes_header 503 ∷ []) (new_recorder 4 nothing_sent)) ≡ false
unfolding record_ops record_op write_header write result_of
fails-unkept = refl

running-Unique : Unique (running ∷ [])
unfolding row_of
running-Unique = (refl, tt)

serve-retries_example :
    let first =
      serve simple config
        (postgres plain (λ n. 5) nobody second 3)
        alone
        fails
        post
        nothing_sent
        0
        [] in
    let again =
      serve simple config
        (postgres plain (λ n. 6) nobody second 4)
        alone
        creates
        post
        nothing_sent
        1
        first.table in
    (first.panicked ≡ false)
    × (row_of
          (request_of simple post (123 ∷ [])).scope
          (request_of simple post (123 ∷ [])).key
          first.table
        ≡ none)
    × (again.world ≡ 2)
    × (again.panicked ≡ false)
serve-retries_example =
    serve-retries simple config post (123 ∷ []) post-Ready plain (λ n. 5) (λ n. 6) nobody nobody
      second 3 second 4 alone alone fails creates nothing_sent nothing_sent 0 1 1 [] (running ∷ [])
      3 (writes_header 503 ∷ []) false reserve-post refl (rw fails-unkept refl) running-Unique refl

request_of-apart_example :
    (◌≡◌ {A = List ℕ} (97 ∷ []) (97 ∷ []))
    × (post.method ≡ post.method)
    × (post.path ≡ post.path)
    × (post.query ≡ post.query)
    × (◌≡◌ {A = List ℕ} (123 ∷ []) (123 ∷ []))
request_of-apart_example =
    request_of-apart simple (λ a b e. e) text_of-apart post post (97 ∷ []) (97 ∷ []) (123 ∷ [])
      (123 ∷ []) refl refl (omega arith) (omega arith) refl refl
