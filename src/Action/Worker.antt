-- ===== src/Action/Worker.antt =====
-- action/worker.go: the worker that runs the jobs of effects. A handler acts on a world of which
-- nothing else is known; the attempt log's database and identifiers are what they answer one call.
use vogel.Prelude.{
  ℕ, zero, suc, ◌+◌, String, Bool, false, not, ◌&&◌, Option, none, some, List, ◌==◌, string_eq,
  if◌then◌else◌,
}
use vogel.Case.{Actor, ActorKind}
use vogel.Event.{no_actor}
use vogel.Action.{Args, Run, Registry, handler}
use vogel.Action.Attempt.{
  Sentinel, Kind, GoError, Outcome, JobRow, Job, Attempt, Result, failed_outcome, attempt_outcome,
  error_class, snooze_count, insert_attempt,
}

-- How a call of a handler ends.
pub data Ending : Type 0 where
  returned : Option GoError → Ending
  panicked : Ending

-- The function under partsKey: it enqueues so many parts of the effect.
abbrev pub EnqueueParts : Type 0 → Type 0
EnqueueParts W = ℕ → W → Option GoError × W

-- A call of a handler: how it ends, what it passed last to RecordResult, and the world after it.
pub record Handled (W : Type 0) : Type 0 where
  pub ending : Ending
  pub result : Option Result
  pub world : W

abbrev pub Handler : Type 0 → Type 0
Handler W = Option (EnqueueParts W) → Run → W → Handled W

-- What the attempt log writes to, during one call: `none` without WithAttemptLog.
pub record Log : Type 0 where
  -- uuid.NewV7, and whether the insertion succeeds.
  pub new_id : Option ℕ
  pub is_up : Bool
  pub started_at : ℕ
  pub finished_at : ℕ
  pub request_id : String
  -- "" without WithTraceIDs.
  pub trace_id : String
  pub unmarshal : List ℕ → Option ℕ

-- The table action_attempt, and the counter of rows that could not be written.
pub record Book : Type 0 where
  pub rows : List Attempt
  pub lost : ℕ

abbrev is_no_actor : Actor → Bool
is_no_actor a = elim a.kind [
  | ActorKind.unset ↦ a.id == "" && a.acting_as == "" && a.on_behalf_of == "" && a.via == ""
  | _ ↦ false
]

-- The actor of a run: a job enqueued before Args carried one has only an identifier.
unfoldable pub actor_of : Args → Actor
actor_of a =
    if is_no_actor a.actor && not (a.actor_id == "")
    then (record no_actor { kind = ActorKind.unspecified; id = a.actor_id })
    else a.actor

abbrev attempt_of : Option JobRow → ℕ
attempt_of none = 0
attempt_of (some r) = r.attempt

-- The Run that Work builds.
unfoldable pub run_of : Job → Run
unfolding actor_of
run_of job =
    let a = job.args in
    record {
      effect = a.effect;
      case_id = a.case_id;
      token_id = a.token_id;
      seq = a.seq;
      definition = a.definition;
      version = a.version;
      domain = a.domain;
      external_id = a.external_id;
      unit = a.unit;
      actor = actor_of a;
      actor_id = a.actor_id;
      attempt = attempt_of job.row;
      part = a.part;
    }

abbrev pub result_ref : Option Result → String
result_ref none = ""
result_ref (some r) = r.ref

abbrev pub result_digest : Option Result → String
result_digest none = ""
result_digest (some r) = r.digest

-- The row that recordAttempt writes, with the identifier `id`.
unfoldable pub attempt_row : Log → JobRow → Run → Outcome → String → Option Result → ℕ → Attempt
attempt_row l row run outcome class res id = record {
  id = id;
  case_id = run.case_id;
  seq = run.seq;
  effect = run.effect;
  part = run.part;
  attempt = row.attempt;
  snooze = snooze_count l.unmarshal row.metadata;
  job_id = row.id;
  started_at = l.started_at;
  finished_at = l.finished_at;
  outcome = outcome;
  error_class = class;
  request_id = l.request_id;
  trace_id = l.trace_id;
  actor_kind = run.actor.kind;
  actor_id = run.actor.id;
  result_ref = result_ref res;
  result_digest = result_digest res;
}

abbrev lose : Book → Book
lose b = record b { lost = b.lost + 1 }

-- The rest of recordAttempt, on a job that has a row.
unfoldable pub write_attempt : Log → JobRow → Run → Outcome → String → Option Result → Book → Book
unfolding attempt_row
write_attempt l row run outcome class res b = elim l.new_id [
  | none ↦ lose b
  | some id ↦
      if l.is_up
      then (record b { rows = insert_attempt (attempt_row l row run outcome class res id) b.rows })
      else lose b
]

-- recordAttempt
unfoldable pub record_attempt :
    Option Log → Job → Run → Outcome → String → Option Result → Book → Book
record_attempt none job run outcome class res b = b
record_attempt (some l) job run outcome class res b = elim job.row [
  | none ↦ b
  | some row ↦ write_attempt l row run outcome class res b
]

-- The error that Work returns for an effect without a handler: `fmt.Errorf` with one `%w`.
abbrev pub unknown_effect_error : GoError
unknown_effect_error =
    GoError.wraps "*fmt.wrapError" Kind.other
      (GoError.plain "*errors.errorString" (Kind.sentinel Sentinel.unknown_effect))

-- What the deferred call, or the statement after the handler, records of its ending.
abbrev pub outcome_of : Ending → Job → Outcome
outcome_of (Ending.returned e) job = attempt_outcome e job
outcome_of Ending.panicked job = failed_outcome job

abbrev pub class_of : Ending → String
class_of (Ending.returned e) = error_class e
class_of Ending.panicked = "panic"

module _ {W : Type 0} where
  -- Worker.Work; `parts` enqueues the parts of the job that it is given.
  unfoldable pub work :
      Registry (Handler W)
      → (Args → EnqueueParts W)
      → Option Log
      → Job
      → W
      → Book
      → Ending × W × Book
  work reg parts log job w b =
      let run = run_of job in
      elim (handler reg job.args.effect) [
        | none ↦ (
          Ending.returned (some unknown_effect_error),
          w,
          record_attempt log job run Outcome.unknown_effect
              (error_class (some unknown_effect_error)) none b,
        )
        | some h ↦
            let handled = h (some (parts job.args)) run w in
            (
              handled.ending,
              handled.world,
              record_attempt log job run (outcome_of handled.ending job) (class_of handled.ending)
                  handled.result b,
            )
      ]

  -- Worker.enqueueParts: parts `i`, `i + 1`, and so on, `n` of them; `insert` is Queue.Enqueue.
  unfoldable pub enqueue_from :
      (Args → W → Option GoError × W) → Args → ℕ → ℕ → W → Option GoError × W
  enqueue_from insert a i zero w = (none, w)
  enqueue_from insert a i (suc n) w =
      let (failure, w') = insert (record a { part = i }) w in
      elim failure [
        | none ↦ enqueue_from insert a (suc i) n w'
        | some e ↦ (some (GoError.wraps "*fmt.wrapError" Kind.other e), w')
      ]

  unfoldable pub enqueue_parts : (Args → W → Option GoError × W) → Args → EnqueueParts W
  enqueue_parts insert a n w = enqueue_from insert a 1 n w
