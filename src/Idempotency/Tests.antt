-- ===== src/Idempotency/Tests.antt =====
-- Tests of the idempotency store, and its theorems at concrete requests.
use vogel.Prelude.{
  ℕ, ◌+◌, true, false, none, some, List, [], ◌∷◌, ◌≡◌, ◌≢◌, refl, arith, list_eq, nat_eq, pos,
}
use vogel.Idempotency.{
  Fault, Answer, Request, Response, Row, Stage, Header, is_claimable, row_of, put, upsert, fresh,
  claim, claim_lease, release,
}
use vogel.Idempotency.Calls.{
  Codec, null_token, existing, read_row, store_response, complete, do_once, held, replay, Others,
  attempt, reserve,
}
use vogel.Idempotency.Replay.{do_once-replays, do_once-reused}
use vogel.Idempotency.Lease.{reserve-exclusive}
use vogel.Idempotency.Fence.{complete-fenced, reserve-replays}

-- An encoding that knows the empty header only.
abbrev pub plain : Codec
plain = record {
  encode = λ h. elim h [ [] ↦ Answer.done (123 ∷ 125 ∷ []) | _ ↦ Answer.failed (Fault.external 1) ];
  decode = λ b. Answer.done [];
}

pub plain-RoundTrips :
    (h : Header) (bytes : List ℕ)
    → plain.encode h ≡ Answer.done bytes
    → plain.decode bytes ≡ Answer.done h
plain-RoundTrips [] bytes e = refl
plain-RoundTrips (x ∷ h) bytes e = cc

abbrev payment : Request
payment = record { scope = "alice POST /payments"; key = 107 ∷ 49 ∷ []; fingerprint = 7 ∷ [] }

abbrev other_payment : Request
other_payment = record payment { fingerprint = 8 ∷ [] }

abbrev pub created : Response
created = record { status = 201; header = some []; body = some (111 ∷ 107 ∷ []) }

-- The operation counts its runs.
abbrev pub pay : ℕ → Answer Response × ℕ
pay n = (Answer.done created, n + 1)

abbrev pub nobody : Others
nobody = record { before_read = λ n rows. rows; after_read = λ n rows. rows }

-- A second, in nanoseconds and in microseconds.
abbrev pub second : ℕ
second = 1000000000

abbrev paid : Row
paid = record (fresh payment 5 1000000 none none) {
  stage = Stage.completed;
  response_status = some 201;
  response_header = some (123 ∷ 125 ∷ []);
  response_body = some (111 ∷ 107 ∷ []);
}

abbrev reserved : Row
reserved = fresh payment 5 1000000 (some 500005) (some 3)

abbrev served : Row
served = record paid { locked_until = none; reservation = none }

do_once-paid :
    do_once plain ℕ 5 second payment pay [] 0 ≡ (Answer.done (created, false), paid ∷ [], 1)
unfolding do_once is_claimable claim upsert row_of put complete store_response null_token
do_once-paid = refl

reserve-payment :
    reserve plain (λ n. 5) nobody second (pos 500000000) 3 payment []
    ≡ (Answer.done (held 3), reserved ∷ [])
unfolding reserve attempt is_claimable claim_lease upsert row_of put existing read_row
reserve-payment = refl

complete-payment : complete plain payment 3 created (reserved ∷ []) ≡ Answer.done (served ∷ [])
unfolding complete store_response row_of put null_token
complete-payment = refl

do_once-replays_example :
    do_once plain ℕ 999 second payment pay (paid ∷ []) 1
    ≡ (Answer.done (created, true), paid ∷ [], 1)
do_once-replays_example =
    do_once-replays plain ℕ 5 second payment pay [] (paid ∷ []) 0 1 created 999 second pay 1
      plain-RoundTrips do_once-paid (omega arith)

do_once-reused_example :
    do_once plain ℕ 999 second other_payment pay (paid ∷ []) 1
    ≡ (Answer.failed Fault.key_reused, paid ∷ [], 1)
unfolding is_claimable
do_once-reused_example =
    do_once-reused plain ℕ 5 second payment pay [] (paid ∷ []) 0 1 created 999 second other_payment
      pay 1 do_once-paid (omega arith) refl refl (λ e. cc) refl

reserve-exclusive_example :
    reserve plain (λ n. 500004) nobody second (pos 500000000) 4 payment (reserved ∷ [])
    ≡ (Answer.failed Fault.in_progress, reserved ∷ [])
unfolding is_claimable
reserve-exclusive_example =
    reserve-exclusive plain (λ n. 5) (λ n. 500004) nobody nobody second 499999999 3 second 499999999
      4 payment payment [] (reserved ∷ []) 3 reserve-payment refl refl refl (λ m below. omega arith)
      (λ m below. omega arith) (λ n rows. refl)

complete-fenced_example :
    ((rows : List Row) → complete plain payment 2 created (reserved ∷ []) ≢ Answer.done rows)
    × (row_of payment.scope payment.key (release payment 2 (reserved ∷ []))
        ≡ row_of payment.scope payment.key (reserved ∷ []))
complete-fenced_example =
    complete-fenced plain (λ n. 5) nobody second 499999999 3 payment [] (reserved ∷ []) 3 payment 2
      created reserve-payment refl refl (omega arith)

reserve-replays_example :
    reserve plain (λ n. 999999) nobody second (pos 500000000) 4 payment (served ∷ [])
    ≡ (Answer.done (replay created), served ∷ [])
unfolding is_claimable
reserve-replays_example =
    reserve-replays plain (λ n. 5) (λ n. 999999) nobody nobody second 499999999 3 second 499999999 4
      payment [] (reserved ∷ []) (served ∷ []) 3 created plain-RoundTrips refl reserve-payment
      complete-payment (λ m below. omega arith) (λ n rows. refl)
