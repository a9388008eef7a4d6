-- ===== src/Idempotency/Http/Recorded.antt =====
-- The recorder of idempotency/httpx/middleware.go: what it has recorded is what it has sent.
use vogel.Prelude.{
  ℕ, ◌≤◌, leb, false, Option, none, some, List, [], ◌∷◌, ◌++◌, ◌≡◌, length, ◌==◌, nat_eq,
  if◌then◌else◌,
}
use vogel.Idempotency.{Header}
use vogel.Idempotency.Http.{Sent, head, data'}
use vogel.Idempotency.Http.Recorder.{Recorder}

-- The body that was sent, and the first status that is final with the headers at that time.
abbrev pub body_of : List Sent → List ℕ
body_of [] = []
body_of (data' b ∷ sent) = b ++ body_of sent
body_of (s ∷ sent) = body_of sent

abbrev pub head_of : List Sent → Option (ℕ × Header)
head_of [] = none
head_of (head code h ∷ sent) = if leb 200 code then some (code, h) else head_of sent
head_of (s ∷ sent) = head_of sent

abbrev recorded_head : ℕ → Header → Option (ℕ × Header)
recorded_head status header = if status == 0 then none else some (status, header)

-- Since `before`, the writer was sent `since`: its first final status is the recorded one, and its
-- body the recorded one unless it has overflown.
pub record Recorded (before : List Sent) (r : Recorder) : Type 0 where
  pub since : List Sent
  pub sent : r.writer.sent ≡ before ++ since
  pub status : head_of since ≡ recorded_head r.status r.header
  pub body : r.overflow ≡ false → (r.body ≡ body_of since) × (length r.body ≤ r.max)
