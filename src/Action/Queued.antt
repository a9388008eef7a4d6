-- ===== src/Action/Queued.antt =====
-- Registry.Dispatch on River's job table (action/action.go): what one call leaves there, and what the
-- same call does again.
use vogel.Prelude.{
  Bool, true, false, ◌&&◌, ◌||◌, List, [], ◌∷◌, ◌++◌, ◌≡◌, ◌∙◌, refl, arith, any, ap, ◌==◌, ==_iff,
  string_eq, nat_eq, Bool-cases, inl, inr, All, All-of_All, if◌then◌else◌,
}
use vogel.Errors.{Result, ok, cases-of_result}
use vogel.Definition.{Definition}
use vogel.Case.{Case}
use vogel.Event.{Event}
use vogel.Action.{
  Args, Registry, Queue, Handle, plan, resolve_tx, enqueue_all, enqueue_on, dispatch,
}

-- The fields marked river:"unique".
abbrev pub same_job : Args → Args → Bool
same_job a b = a.case_id == b.case_id && a.seq == b.seq && a.effect == b.effect && a.part == b.part

abbrev pub has_job : Args → List Args → Bool
has_job a jobs = any (same_job a) jobs

-- The jobs after a unique insertion that succeeded: a duplicate is skipped.
abbrev pub admitted : Args → List Args → List Args
admitted a jobs = if has_job a jobs then jobs else jobs ++ a ∷ []

-- What River documents of an insertion that is unique by its arguments; `jobs` are the jobs of the
-- table in one of the unique states.
pub record Unique {T : Type 0} (q : Queue T) (jobs : T → List Args) : Type 0 where
  pub inserts :
      (a : Args) (t t' : T) (u : Unit {0})
      → q.insert a t ≡ (ok u, t')
      → jobs t' ≡ admitted a (jobs t)

-- No two jobs have the same key.
abbrev pub Distinct : List Args → Type 0
Distinct [] = Unit
Distinct (a ∷ jobs) = (has_job a jobs ≡ false) × Distinct jobs

same_job_refl : (a : Args) → same_job a a ≡ true
same_job_refl a = ground (
  arith,
  ==_iff a.case_id a.case_id,
  ==_iff a.seq a.seq,
  ==_iff a.effect a.effect,
  ==_iff a.part a.part,
)

has_job-append :
    (a : Args) (xs ys : List Args) → has_job a (xs ++ ys) ≡ (has_job a xs || has_job a ys)
has_job-append a [] ys = refl
has_job-append a (x ∷ xs) ys = ground (arith, has_job-append a xs ys)

has_job-admitted_self : (a : Args) (jobs : List Args) → has_job a (admitted a jobs) ≡ true
has_job-admitted_self a jobs = elim (Bool-cases (has_job a jobs)) [
  | inl there ↦ rw there there
  | inr fresh ↦
      rw fresh (has_job-append a jobs (a ∷ []) ∙ rw fresh (ground (arith, same_job_refl a)))
]

has_job-admitted :
    (a b : Args) (jobs : List Args) → has_job b jobs ≡ true → has_job b (admitted a jobs) ≡ true
has_job-admitted a b jobs h = elim (Bool-cases (has_job a jobs)) [
  | inl there ↦ rw there h
  | inr fresh ↦ rw fresh (has_job-append b jobs (a ∷ []) ∙ rw h refl)
]

same_job-sym : (a b : Args) → same_job a b ≡ false → same_job b a ≡ false
same_job-sym a b h = ground (
  arith,
  ==_iff a.case_id b.case_id,
  ==_iff a.seq b.seq,
  ==_iff a.effect b.effect,
  ==_iff a.part b.part,
  ==_iff b.case_id a.case_id,
  ==_iff b.seq a.seq,
  ==_iff b.effect a.effect,
  ==_iff b.part a.part,
)

Distinct-append :
    (a : Args) (jobs : List Args)
    → has_job a jobs ≡ false
    → Distinct jobs
    → Distinct (jobs ++ a ∷ [])
Distinct-append a [] fresh d = (refl, tt)
Distinct-append a (b ∷ jobs) fresh d = elim (Bool-cases (same_job a b)) [
  | inl same ↦ let q = rw same at fresh in cc
  | inr other ↦
      let later = rw other at fresh in
      (
        has_job-append b jobs (a ∷ []) ∙ rw (d.0, same_job-sym a b other) refl,
        Distinct-append a jobs later d.1,
      )
]

Distinct-admitted : (a : Args) (jobs : List Args) → Distinct jobs → Distinct (admitted a jobs)
Distinct-admitted a jobs d = elim (Bool-cases (has_job a jobs)) [
  | inl there ↦ rw there d
  | inr fresh ↦ rw fresh (Distinct-append a jobs fresh d)
]

All-has_job : (jobs : List Args) → All (λ b. has_job b jobs ≡ true) jobs
All-has_job [] = tt
All-has_job (a ∷ jobs) = (
  rw (same_job_refl a) refl,
  All-of_All (λ b. has_job b (a ∷ jobs) ≡ true) jobs (λ b h. ground (arith, h)) (All-has_job jobs),
)

module _ {T : Type 0} (q : Queue T) (jobs : T → List Args) (unique : Unique q jobs) where
  -- `t'` has every job that `t` has, and is as free of duplicates.
  abbrev Extends : T → T → Type 0
  Extends t t' =
      ((b : Args) → has_job b (jobs t) ≡ true → has_job b (jobs t') ≡ true)
      × (Distinct (jobs t) → Distinct (jobs t'))

  insert-Extends : (a : Args) (t t' : T) (u : Unit {0}) → q.insert a t ≡ (ok u, t') → Extends t t'
  insert-Extends a t t' u h =
      let after = unique.inserts a t t' u h in
      (
        λ b there. rw after (has_job-admitted a b (jobs t) there),
        λ d. rw after (Distinct-admitted a (jobs t) d),
      )

  enqueue_all-cons :
      (a : Args) (rest : List Args) (t t' : T) (u : Unit {0})
      → enqueue_all q (a ∷ rest) t ≡ (ok u, t')
      → (v : Unit {0}) × (s : T) × (q.insert a t ≡ (ok v, s)) × (enqueue_all q rest s ≡ (ok u, t'))
  unfolding enqueue_all
  enqueue_all-cons a rest t t' u h = elim (cases-of_result (q.insert a t).0) [
    | inr (x, e) ↦ let bad = rw (e, enqueue_all) at h in cc
    | inl (v, e) ↦ (
      v,
      (q.insert a t).1,
      ap (λ (r : Result (Unit {0})). (r, (q.insert a t).1)) e,
      rw (e, enqueue_all) at h,
    )
  ]

  enqueue_all-Holds :
      (as' : List Args) (t t' : T) (u : Unit {0})
      → enqueue_all q as' t ≡ (ok u, t')
      → All (λ a. has_job a (jobs t') ≡ true) as' × Extends t t'
  unfolding enqueue_all
  enqueue_all-Holds [] t t' u h =
      let e : t ≡ t' = ap (λ (p : Result (Unit {0}) × T). p.1) h in
      (tt, rw (← e) (λ b there. there, λ d. d))
  enqueue_all-Holds (a ∷ as') t t' u h =
      let (v, s, e, ran) = enqueue_all-cons a as' t t' u h in
      let (there, (keeps, distinct)) = enqueue_all-Holds as' s t' u ran in
      let (kept, still) = insert-Extends a t s v e in
      (
        (keeps a (rw (unique.inserts a t s v e) (has_job-admitted_self a (jobs t))), there),
        (λ b was. keeps b (kept b was), λ d. distinct (still d)),
      )

  enqueue_all-again :
      (as' : List Args) (t t' : T) (u : Unit {0})
      → All (λ a. has_job a (jobs t) ≡ true) as'
      → enqueue_all q as' t ≡ (ok u, t')
      → jobs t' ≡ jobs t
  unfolding enqueue_all
  enqueue_all-again [] t t' u there h =
      let e : t ≡ t' = ap (λ (p : Result (Unit {0}) × T). p.1) h in rw e refl
  enqueue_all-again (a ∷ as') t t' u there h =
      let (v, s, e, ran) = enqueue_all-cons a as' t t' u h in
      let same : jobs s ≡ jobs t = unique.inserts a t s v e ∙ rw there.0 refl in
      enqueue_all-again as' s t' u (rw same there.1) ran ∙ same

  module _ {H : Type 0} (r : Registry H) (d : Definition) (c : Case) (events : List Event) where
    dispatch-enqueues :
        (db : Handle) (t t' : T) (u : Unit {0})
        → dispatch q r db d c events t ≡ (ok u, t')
        → (planned : List Args) × (plan r d c events ≡ ok planned)
          × (enqueue_all q planned t ≡ (ok tt, t'))
    unfolding dispatch resolve_tx enqueue_all
    dispatch-enqueues db t t' u h = elim (cases-of_result (plan r d c events)) [
      | inr (x, bad) ↦ let no_plan = rw bad at h in cc
      | inl ([], none') ↦
          ([], none', let e = rw none' at h in ap (λ (p : Result (Unit {0}) × T). (ok tt, p.1)) e)
      | inl (a ∷ rest, planned) ↦ (a ∷ rest, planned, on_tx db a rest (rw planned at h))
    ]
      where
        on_tx :
            (db : Handle) (a : Args) (rest : List Args)
            → enqueue_on q (resolve_tx db) (a ∷ rest) t ≡ (ok u, t')
            → enqueue_all q (a ∷ rest) t ≡ (ok tt, t')
        on_tx Handle.tx a rest e = e
        on_tx Handle.pool a rest e = cc

    -- A call of Dispatch that succeeded has left in the job table a job for each effect that it
    -- planned, keeps the jobs that were there, and makes no duplicate of a table without one. While
    -- the jobs are retained, the same call again, where it succeeds, leaves them as they are.
    pub dispatch-once :
        (db db2 : Handle) (t t' t2 t3 : T) (u v : Unit {0})
        → Distinct (jobs t)
        → dispatch q r db d c events t ≡ (ok u, t')
        → jobs t2 ≡ jobs t'
        → dispatch q r db2 d c events t2 ≡ (ok v, t3)
        → (planned : List Args) × (plan r d c events ≡ ok planned)
          × All (λ a. has_job a (jobs t') ≡ true) planned
          × All (λ b. has_job b (jobs t') ≡ true) (jobs t)
          × Distinct (jobs t')
          × (jobs t3 ≡ jobs t')
    dispatch-once db db2 t t' t2 t3 u v none_twice h retained again =
        let (planned, made, ran) = dispatch-enqueues db t t' u h in
        let (there, (keeps, distinct)) = enqueue_all-Holds planned t t' tt ran in
        let (planned2, made2, ran2) = dispatch-enqueues db2 t2 t3 v again in
        let one : planned2 ≡ planned = cc in
        (
          planned,
          made,
          there,
          All-of_All (λ b. has_job b (jobs t') ≡ true) (jobs t) keeps (All-has_job (jobs t)),
          distinct none_twice,
          enqueue_all-again planned t2 t3 tt (rw retained there) (rw one at ran2) ∙ retained,
        )
