-- ===== src/Action/WorkerTests.antt =====
-- Effects run by a worker, logged, and fanned out, on small cases.
use vogel.Prelude.{
  ℕ, ◌+◌, String, true, Option, none, some, List, [], ◌∷◌, ◌++◌, ◌≡◌, refl, map, ◌==◌, string_eq,
  nat_eq, arith, if◌then◌else◌,
}
use vogel.Examples.{open_row}
use vogel.Action.{Args, Run, Registry, handler, event_actor_id, job_of}
use vogel.Action.Attempt.{
  GoError, Kind, Outcome, Job, Attempt, holds_error, is_cancel, failed_outcome, attempt_outcome,
  innermost_type, error_class, snooze_count, insert_attempt,
}
use vogel.Action.Worker.{
  Ending, EnqueueParts, Handler, Log, Book, actor_of, run_of, attempt_row, write_attempt,
  record_attempt, work,
}
use vogel.Action.Logged.{Apart, idle, works, Works-Apart}
use vogel.Action.Notify.{
  Message, Send, is_sendable, invalid_message, first_invalid, send_all, notify_handler, enqueued,
}
use vogel.Action.Fanned.{run_parts, notify_handler-sends}
use vogel.Action.Tests.{sending, execution}

-- A handler that counts its calls, fails once, and then records a result.
abbrev counting : Handler ℕ
counting parts r w =
    if w == 0
    then (record {
      ending = Ending.returned (some (GoError.plain "*errors.errorString" Kind.other));
      result = none;
      world = 1;
    })
    else (record {
      ending = Ending.returned none;
      result = some (record { ref = "receipt"; digest = "" });
      world = w + 1;
    })

abbrev desk : Registry (Handler ℕ)
desk = record { handlers = ("notify", counting) ∷ [] }

abbrev no_parts : Args → EnqueueParts ℕ
no_parts a n w = (none, w)

abbrev job_at : ℕ → Job
job_at attempt = record {
  args = job_of open_row sending "notify";
  row = some (record { id = 31; attempt = attempt; max_attempts = 2; metadata = [] });
}

abbrev log : Log
log = record {
  new_id = some 900;
  is_up = true;
  started_at = 10;
  finished_at = 11;
  request_id = "";
  trace_id = "";
  unmarshal = λ _. none;
}

abbrev blank : Book
blank = record { rows = []; lost = 0 }

abbrev once : Book
once = (work desk no_parts (some log) (job_at 1) 0 blank).2

abbrev twice : Book
twice = (work desk no_parts (some log) (job_at 2) 1 once).2

logged :
    map {B = ℕ × Outcome × String}
      (λ (a : Attempt). (a.attempt, a.outcome, a.result_ref))
      twice.rows
    ≡ (1, Outcome.retry, "") ∷ (2, Outcome.succeeded, "receipt") ∷ []
unfolding work record_attempt write_attempt attempt_row insert_attempt handler run_of actor_of
    attempt_outcome failed_outcome holds_error is_cancel error_class innermost_type snooze_count
    job_of event_actor_id
logged = refl

Works-Apart_example : ((later : List Attempt) × (twice.rows ≡ [] ++ later)) × Apart twice.rows
Works-Apart_example =
    Works-Apart ℕ blank twice
      (works desk no_parts (some log) (job_at 2) 1
        (works desk no_parts (some log) (job_at 1) 0 idle refl) refl)
      tt

-- Two messages, and a notifier that keeps the addresses that it sends to.
abbrev message : String → Message
message to = record { to = to; from = ""; subject = "s"; html = ""; text = "t" }

abbrev both : List (Option Message)
both = some (message "ana") ∷ some (message "eva") ∷ []

abbrev keep : Send (List String)
keep m sent = (none, sent ++ m.to ∷ [])

abbrev build_both : Run → List String → (Option GoError × List (Option Message)) × List String
build_both r sent = ((none, both), sent)

abbrev enqueues : EnqueueParts (List String)
enqueues n sent = (none, sent ++ "parts" ∷ [])

both-valid : first_invalid (λ _. true) both ≡ none
unfolding first_invalid invalid_message is_sendable
both-valid = refl

both-sent :
    (notify_handler (λ _. true) keep build_both none (execution "notify" 0) []).ending
    ≡ Ending.returned none
unfolding notify_handler first_invalid invalid_message is_sendable send_all
both-sent = refl

notify_handler-sends_example :
    (notify_handler (λ _. true) keep build_both (some enqueues) (execution "notify" 0) []
      ≡ enqueued (enqueues 2 []))
    × (run_parts
          (notify_handler (λ _. true) keep build_both)
          (some enqueues)
          (execution "notify" 0)
          1
          2
          []
        ≡ "ana" ∷ "eva" ∷ [])
    × ((notify_handler (λ _. true) keep build_both none (execution "notify" 0) []).world
        ≡ "ana" ∷ "eva" ∷ [])
notify_handler-sends_example =
    notify_handler-sends (λ _. true) keep build_both (execution "notify" 0) both enqueues [] []
      (λ i w. refl) both-valid (omega arith) both-sent
