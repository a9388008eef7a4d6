-- ===== src/Action/Logged.antt =====
-- The attempt log of Worker.Work (action/worker.go, action/attempt.go): it never changes what a job
-- returns, and it is append-only with one row for each attempt.
use mathlib.Core.List.{append-nil, append_assoc}
use vogel.Prelude.{
  String, Bool, true, false, ◌||◌, Option, none, some, List, [], ◌∷◌, ◌++◌, ◌≡◌, ◌∙◌, inl, inr,
  refl, sym, ap, arith, any, ==_iff, nat_eq, Bool-cases, Option-cases,
}
use vogel.Action.{Args, Run, Registry, handler}
use vogel.Action.Attempt.{Outcome, JobRow, Job, Attempt, Result, same_attempt, insert_attempt}
use vogel.Action.Worker.{
  EnqueueParts, Handler, Log, Book, run_of, attempt_row, write_attempt, record_attempt, outcome_of,
  class_of, work,
}

module _ {W : Type 0} (reg : Registry (Handler W)) (parts : Args → EnqueueParts W) where
  -- The attempt log changes neither what Work returns to River nor what the handler does: both are
  -- those of a worker without one, whether or not the rows can be written.
  work-unlogged :
      (log : Log) (job : Job) (w : W) (b : Book)
      → ((work reg parts (some log) job w b).0 ≡ (work reg parts none job w b).0)
        × ((work reg parts (some log) job w b).1 ≡ (work reg parts none job w b).1)
        × ((work reg parts none job w b).2 ≡ b)
  unfolding work record_attempt
  work-unlogged log job w b = elim (Option-cases (handler reg job.args.effect)) [
    | inl unknown ↦ rw (unknown, work) (refl, refl, refl)
    | inr (h, found) ↦ rw (found, work) (refl, refl, refl)
  ]

-- No two rows are of one attempt.
abbrev pub Apart : List Attempt → Type 0
Apart [] = Unit
Apart (a ∷ rows) = (any (same_attempt a) rows ≡ false) × Apart rows

same_attempt-sym : (a b : Attempt) → same_attempt a b ≡ false → same_attempt b a ≡ false
same_attempt-sym a b h = ground (
  arith,
  ==_iff a.job_id b.job_id,
  ==_iff a.attempt b.attempt,
  ==_iff a.snooze b.snooze,
  ==_iff b.job_id a.job_id,
  ==_iff b.attempt a.attempt,
  ==_iff b.snooze a.snooze,
)

same_attempt_refl : (a : Attempt) → same_attempt a a ≡ true
same_attempt_refl a =
    ground (arith, ==_iff a.job_id a.job_id, ==_iff a.attempt a.attempt, ==_iff a.snooze a.snooze)

any-append : (p : Attempt → Bool) (xs ys : List Attempt) → any p (xs ++ ys) ≡ (any p xs || any p ys)
any-append p [] ys = refl
any-append p (x ∷ xs) ys = ground (arith, any-append p xs ys)

Apart-append :
    (a : Attempt) (rows : List Attempt)
    → any (same_attempt a) rows ≡ false
    → Apart rows
    → Apart (rows ++ a ∷ [])
Apart-append a [] fresh h = (refl, tt)
Apart-append a (b ∷ rows) fresh h = elim (Bool-cases (same_attempt a b)) [
  | inl same ↦ let q = rw same at fresh in cc
  | inr other ↦ (
    any-append (same_attempt b) rows (a ∷ []) ∙ rw (h.0, same_attempt-sym a b other) refl,
    Apart-append a rows (rw other at fresh) h.1,
  )
]

-- The rows after some calls of Work: those before, and others after them.
abbrev Kept : Book → Book → Type 0
Kept b b' = ((later : List Attempt) × (b'.rows ≡ b.rows ++ later)) × (Apart b.rows → Apart b'.rows)

insert_attempt-Kept :
    (a : Attempt) (rows : List Attempt)
    → ((later : List Attempt) × (insert_attempt a rows ≡ rows ++ later))
      × (Apart rows → Apart (insert_attempt a rows))
unfolding insert_attempt
insert_attempt-Kept a rows = elim (Bool-cases (any (same_attempt a) rows)) [
  | inl there ↦ rw there (([], sym (append-nil rows)), λ h. h)
  | inr fresh ↦ rw fresh ((a ∷ [], refl), λ h. Apart-append a rows fresh h)
]

Kept-refl : (b : Book) → Kept b b
Kept-refl b = (([], sym (append-nil b.rows)), λ h. h)

write_attempt-Kept :
    (l : Log) (row : JobRow) (run : Run) (outcome : Outcome) (class : String) (res : Option Result)
    (b : Book)
    → Kept b (write_attempt l row run outcome class res b)
unfolding write_attempt
write_attempt-Kept l row run outcome class res b = elim (Option-cases l.new_id) [
  | inl no_id ↦ rw no_id (Kept-refl b)
  | inr (id, drew) ↦ elim (Bool-cases l.is_up) [
    | inl up ↦
        rw (drew, up) (insert_attempt-Kept (attempt_row l row run outcome class res id) b.rows)
    | inr down ↦ rw (drew, down) (Kept-refl b)
  ]
]

record_attempt-Kept :
    (log : Option Log) (job : Job) (run : Run) (outcome : Outcome) (class : String)
    (res : Option Result) (b : Book)
    → Kept b (record_attempt log job run outcome class res b)
unfolding record_attempt
record_attempt-Kept none job run outcome class res b = Kept-refl b
record_attempt-Kept (some l) job run outcome class res b = elim (Option-cases job.row) [
  | inl no_row ↦ rw no_row (Kept-refl b)
  | inr (row, has) ↦ rw has (write_attempt-Kept l row run outcome class res b)
]

module _ {W : Type 0} where
  work-Kept :
      (reg : Registry (Handler W)) (parts : Args → EnqueueParts W) (log : Option Log) (job : Job)
      (w : W) (b : Book)
      → Kept b (work reg parts log job w b).2
  unfolding work
  work-Kept reg parts log job w b = elim (Option-cases (handler reg job.args.effect)) [
    | inl unknown ↦ rw (unknown, work) (record_attempt-Kept log job (run_of job) _ _ none b)
    | inr (h, found) ↦
        rw (found, work)
          (record_attempt-Kept log job (run_of job)
            (outcome_of (h (some (parts job.args)) (run_of job) w).ending job)
            (class_of (h (some (parts job.args)) (run_of job) w).ending)
            (h (some (parts job.args)) (run_of job) w).result b)
  ]

module _ (W : Type 0) where
  -- The attempt logs that calls of Work make of one, by any workers, on any jobs, with any handlers.
  pub data Works (b : Book) : Book → Type 0 where
    idle : Works b b
    works :
        {b' b'' : Book} (reg : Registry (Handler W)) (parts : Args → EnqueueParts W)
        (log : Option Log) (job : Job) (w : W)
        → Works b b'
        → b'' ≡ (work reg parts log job w b').2
        → Works b b''

  -- The attempt log is append-only: whatever jobs run and whatever fails, the rows stay as they are
  -- and new ones follow them; and no attempt of a job, by its number and its count of snoozes, has
  -- two rows.
  pub Works-Apart :
      (b b' : Book)
      → Works b b'
      → Apart b.rows
      → ((later : List Attempt) × (b'.rows ≡ b.rows ++ later)) × Apart b'.rows
  Works-Apart b _ idle h = (([], sym (append-nil b.rows)), h)
  Works-Apart b b'' (works {b'} reg parts log job w before e) h =
      let ((later, same), apart) = Works-Apart b b' before h in
      let ((newest, more), keep) = work-Kept reg parts log job w b' in
      (
        (
          later ++ newest,
          ap (λ (x : Book). x.rows) e
              ∙ more
              ∙ ap (λ (r : List Attempt). r ++ newest) same
              ∙ append_assoc b.rows later newest,
        ),
        rw e (keep apart),
      )
