-- ===== src/Idempotency/Http/Recorder.antt =====
-- idempotency/httpx/middleware.go: the recorder, which passes a response on and keeps a copy.
use vogel.Prelude.{
  ℕ, ◌+◌, ltb, leb, String, Bool, true, false, ◌&&◌, List, [], ◌∷◌, ◌++◌, length, ◌==◌, string_eq,
  nat_eq, list_eq, if◌then◌else◌,
}
use vogel.Idempotency.{Header}
use vogel.Idempotency.Http.{head, data', flushed, Writer, send, assign, remove}

pub record Recorder : Type 0 where
  pub max : ℕ
  -- 0 until a status is written.
  pub status : ℕ
  pub header : Header
  pub body : List ℕ
  pub overflow : Bool
  pub writer : Writer

-- recorder.WriteHeader
unfoldable pub write_header : ℕ → Recorder → Recorder
write_header code r =
    let seen : Recorder =
      if r.status == 0 && leb 200 code
      then (record r { status = code; header = r.writer.header })
      else r in
    record seen { writer = send (head code r.writer.header) r.writer }

abbrev pub implied_status : Recorder → Recorder
implied_status r = if r.status == 0 then write_header 200 r else r

abbrev pub keep_body : List ℕ → Recorder → Recorder
keep_body b r =
    if r.overflow
    then r
    else if ltb r.max (length r.body + length b)
    then (record r { overflow = true; body = [] })
    else (record r { body = r.body ++ b })

-- recorder.Write
unfoldable pub write : List ℕ → Recorder → Recorder
unfolding write_header
write b r =
    let kept = keep_body b (implied_status r) in record kept { writer = send (data' b) kept.writer }

-- recorder.Flush
unfoldable pub flush : Recorder → Recorder
unfolding write_header
flush r = let begun = implied_status r in record begun { writer = send flushed begun.writer }

-- What a handler does to its ResponseWriter.
pub data Op : Type 0 where
  sets : String → List String → Op
  deletes : String → Op
  writes_header : ℕ → Op
  writes : List ℕ → Op
  flushes : Op

unfoldable pub record_op : Op → Recorder → Recorder
unfolding write_header write flush assign remove
record_op (sets name values) r = record r {
  writer = record (r.writer) { header = assign name values r.writer.header };
}
record_op (deletes name) r = record r {
  writer = record (r.writer) { header = remove name r.writer.header };
}
record_op (writes_header code) r = write_header code r
record_op (writes b) r = write b r
record_op flushes r = flush r

unfoldable pub record_ops : List Op → Recorder → Recorder
unfolding record_op
record_ops [] r = r
record_ops (op ∷ ops) r = record_ops ops (record_op op r)

-- The same on the writer itself.
unfoldable pub pass_op : Op → Writer → Writer
unfolding assign remove
pass_op (sets name values) w = record w { header = assign name values w.header }
pass_op (deletes name) w = record w { header = remove name w.header }
pass_op (writes_header code) w = send (head code w.header) w
pass_op (writes b) w = send (data' b) w
pass_op flushes w = send flushed w

unfoldable pub pass_ops : List Op → Writer → Writer
unfolding pass_op
pass_ops [] w = w
pass_ops (op ∷ ops) w = pass_ops ops (pass_op op w)

abbrev pub new_recorder : ℕ → Writer → Recorder
new_recorder max w = record {
  max = max;
  status = 0;
  header = [];
  body = [];
  overflow = false;
  writer = w;
}

-- recorder.result
unfoldable pub result_of : Recorder → ℕ × Header
result_of r = if r.status == 0 then (200, r.writer.header) else (r.status, r.header)
