-- ===== src/Action/Attempt.antt =====
-- action/attempt.go: the attempt log, one row for each run of an effect's job, and how it describes
-- what the handler returned; action/postgres/repository.go, which reads it.
use vogel.Prelude.{
  ℕ, String, str_append, Bool, true, false, not, ◌&&◌, ◌||◌, Option, none, some, List, [], ◌∷◌,
  ◌++◌, any, filter, sort_by, ltb, leb, ◌==◌, string_eq, nat_eq, if◌then◌else◌,
}
use vogel.Names.{text_before}
use vogel.Case.{ActorKind}
use vogel.Action.{Args}

-- The errors that the code compares with.
pub data Sentinel : Type 0 where
  canceled deadline_exceeded unknown_effect : Sentinel

-- What an error value is, by its Go type: rivertype's two, a sentinel, or any other.
pub data Kind : Type 0 where
  cancel snooze : Kind
  sentinel : Sentinel → Kind
  other : Kind

-- An error with the errors that it wraps: `Unwrap() error` gives one, `Unwrap() []error` several.
mutual
  pub data GoError : Type 0 where
    plain : (type : String) → Kind → GoError
    wraps : (type : String) → Kind → GoError → GoError
    joins : (type : String) → Kind → Causes → GoError

  pub data Causes : Type 0 where
    nil : Causes
    cons : GoError → Causes → Causes

-- errors.Is and errors.As: whether an error of the tree passes.
unfoldable mutual
  pub holds_error : (Kind → Bool) → GoError → Bool
  holds_error p (plain type k) = p k
  holds_error p (wraps type k e) = p k || holds_error p e
  holds_error p (joins type k es) = p k || holds_any p es

  pub holds_any : (Kind → Bool) → Causes → Bool
  holds_any p nil = false
  holds_any p (cons e es) = holds_error p e || holds_any p es

abbrev pub is_cancel_kind : Kind → Bool
is_cancel_kind Kind.cancel = true
is_cancel_kind _ = false

abbrev pub is_snooze_kind : Kind → Bool
is_snooze_kind Kind.snooze = true
is_snooze_kind _ = false

abbrev same_sentinel : Sentinel → Sentinel → Bool
same_sentinel Sentinel.canceled Sentinel.canceled = true
same_sentinel Sentinel.deadline_exceeded Sentinel.deadline_exceeded = true
same_sentinel Sentinel.unknown_effect Sentinel.unknown_effect = true
same_sentinel _ _ = false

abbrev is_sentinel : Sentinel → Kind → Bool
is_sentinel s (Kind.sentinel t) = same_sentinel t s
is_sentinel s _ = false

-- IsCancel
unfoldable pub is_cancel : GoError → Bool
unfolding holds_error
is_cancel e = holds_error is_cancel_kind e

pub data Outcome : Type 0 where
  succeeded retry cancelled snoozed discarded unknown_effect : Outcome

pub record JobRow : Type 0 where
  pub id : ℕ
  pub attempt : ℕ
  pub max_attempts : ℕ
  pub metadata : List ℕ

-- river.Job; a job that does not come from River has no row.
pub record Job : Type 0 where
  pub args : Args
  pub row : Option JobRow

-- failedOutcome
unfoldable pub failed_outcome : Job → Outcome
failed_outcome job = elim job.row [
  | none ↦ Outcome.retry
  | some r ↦
      if ltb 0 r.max_attempts && leb r.max_attempts r.attempt
      then Outcome.discarded
      else Outcome.retry
]

-- attemptOutcome
unfoldable pub attempt_outcome : Option GoError → Job → Outcome
unfolding holds_error is_cancel failed_outcome
attempt_outcome none job = Outcome.succeeded
attempt_outcome (some e) job =
    if holds_error is_snooze_kind e
    then Outcome.snoozed
    else if is_cancel e
    then Outcome.cancelled
    else failed_outcome job

-- The loop of errorClass over errors.Unwrap, then `%T`.
unfoldable pub innermost_type : GoError → String
innermost_type (plain type k) = type
innermost_type (wraps type k e) = innermost_type e
innermost_type (joins type k es) = type

abbrev known_sentinels : List (Sentinel × String)
known_sentinels =
    (Sentinel.canceled, "context.Canceled")
    ∷ (Sentinel.deadline_exceeded, "context.DeadlineExceeded")
    ∷ (Sentinel.unknown_effect, "workflow.ErrUnknownEffect")
    ∷ []

sentinel_suffix : GoError → List (Sentinel × String) → String
sentinel_suffix e [] = ""
sentinel_suffix e ((s, name) ∷ rest) =
    if holds_error (is_sentinel s) e
    then str_append " (" (str_append name ")")
    else sentinel_suffix e rest

-- errorClass
unfoldable pub error_class : Option GoError → String
unfolding innermost_type sentinel_suffix holds_error
error_class none = ""
error_class (some e) = str_append (innermost_type e) (sentinel_suffix e known_sentinels)

-- What a handler passes to RecordResult.
pub record Result : Type 0 where
  pub ref : String
  pub digest : String

pub record Attempt : Type 0 where
  pub id : ℕ
  pub case_id : ℕ
  pub seq : ℕ
  pub effect : String
  pub part : ℕ
  pub attempt : ℕ
  pub snooze : ℕ
  pub job_id : ℕ
  pub started_at : ℕ
  pub finished_at : ℕ
  pub outcome : Outcome
  pub error_class : String
  pub request_id : String
  pub trace_id : String
  pub actor_kind : ActorKind
  pub actor_id : String
  pub result_ref : String
  pub result_digest : String

-- `ON CONFLICT (job_id, attempt, snooze)`
abbrev pub same_attempt : Attempt → Attempt → Bool
same_attempt a b = a.job_id == b.job_id && a.attempt == b.attempt && a.snooze == b.snooze

-- insertAttemptSQL
unfoldable pub insert_attempt : Attempt → List Attempt → List Attempt
insert_attempt a rows = if any (same_attempt a) rows then rows else rows ++ a ∷ []

-- snoozeCount; `unmarshal` reads the key "snoozes" of a JSON object, 0 where it is missing.
unfoldable pub snooze_count : (List ℕ → Option ℕ) → List ℕ → ℕ
snooze_count unmarshal [] = 0
snooze_count unmarshal (b ∷ bytes) = elim (unmarshal (b ∷ bytes)) [ none ↦ 0 | some n ↦ n ]

-- attemptOrder
attempt_before : Attempt → Attempt → Bool
attempt_before a b =
    if not (a.seq == b.seq)
    then ltb a.seq b.seq
    else if not (a.attempt == b.attempt)
    then ltb a.attempt b.attempt
    else if not (a.started_at == b.started_at)
    then ltb a.started_at b.started_at
    else if not (a.effect == b.effect)
    then text_before a.effect b.effect
    else if not (a.part == b.part)
    then ltb a.part b.part
    else ltb a.id b.id

-- AttemptRepository.ListByCase
unfoldable pub list_by_case : ℕ → List Attempt → List Attempt
unfolding attempt_before
list_by_case id rows = sort_by attempt_before (filter (λ (a : Attempt). a.case_id == id) rows)

-- AttemptRepository.ListByEvent
unfoldable pub list_by_event : ℕ → ℕ → List Attempt → List Attempt
unfolding attempt_before
list_by_event id seq rows =
    sort_by attempt_before (filter (λ (a : Attempt). a.case_id == id && a.seq == seq) rows)
