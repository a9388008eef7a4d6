-- ===== src/Failure/Races.antt =====
-- Failures recorded while another call plans (workflow/failure.go: RecordFailure; workflow/run.go:
-- persist): the Seqs that they take.
use vogel.Prelude.{
  ℕ, suc, ◌+◌, ◌≡◌, ◌≢◌, ◌∙◌, refl, sym, ap, subst, arith, inl, inr, String, Bool, not, ◌&&◌, none,
  some, List, [], ◌∷◌, find, find-passes, Bool-cases, Option-cases, ==_iff, ◌==◌, string_eq, nat_eq,
}
use vogel.Errors.{Err, Result, ok, err, fail_if, Returns}
use vogel.Case.{Case}
use vogel.Event.{Event}
use vogel.Engine.{Engine, resolve_actor}
use vogel.Run.{Run}
use vogel.Store.{Db, find_case, put_case, advance_last_seq, list_tokens}
use vogel.Tx.{Tx, continue, returned, returns}
use vogel.History.{append}
use vogel.Persist.{persist}
use vogel.Persist.Tables.{append-same}
use vogel.Persist.Exclusive.{find-put, persist-behind}
use vogel.Failure.{FailureInput, is_known, named_token, record_failure}

ok-same : {A : Type 0} (a b : A) → ok a ≡ ok b → a ≡ b
ok-same a b h = cc

advance-found :
    (id : ℕ) (db : Db) (u : Case)
    → find_case id db ≡ some u
    → advance_last_seq id db ≡ (
        let c : Case = record u { last_seq = u.last_seq + 1 } in
        ok (c, record db { cases = put_case c db.cases }))
unfolding advance_last_seq
advance-found id db u h = rw (h, advance_last_seq) refl

advance-none :
    (id : ℕ) (db : Db) → find_case id db ≡ none → advance_last_seq id db ≡ err Err.case_not_found
unfolding advance_last_seq
advance-none id db h = rw (h, advance_last_seq) refl

-- The row of another identifier stays as it is.
find-put_other :
    (id : ℕ) (c : Case) (cs : List Case)
    → c.id ≢ id
    → find (λ (x : Case). x.id == id) (put_case c cs) ≡ find (λ (x : Case). x.id == id) cs
unfolding put_case
find-put_other id c [] other = refl
find-put_other id c (x ∷ cs) other = elim (Bool-cases (x.id == c.id)) [
  | inl same ↦
      rw same (ground (arith, ==_iff c.id id, ==_iff x.id c.id, find-put_other id c cs other))
  | inr apart ↦ rw apart (elim (Bool-cases (x.id == id)) [
    | inl here ↦ rw here refl
    | inr gone ↦ rw gone (find-put_other id c cs other)
  ])
]

-- What a call of RecordFailure that succeeds has done to the rows.
abbrev Advances : ℕ → Db → Result Event × Db → Type 0
Advances id db x =
    Returns
      (λ (v : Event).
        (u : Case) × (find_case id db ≡ some u)
        × (x.1.cases ≡ put_case (record u { last_seq = u.last_seq + 1 }) db.cases))
      x.0

Returns-always : {A : Type 0} (P : Type 0) (r : Result A) → P → Returns (λ _. P) r
Returns-always P (ok a) p = p
Returns-always P (err x) p = tt

module _ (id : ℕ) (db : Db) where
  Advances-step :
      {A : Type 0} (r : Result A) (k : A → Tx Event)
      → ((a : A) → Advances id db (k a db))
      → Advances id db (continue r k db)
  Advances-step (ok a) k h = h a
  Advances-step (err x) k h = tt

  Advances-returned :
      (r : Result (Case × Db)) (k : Case → Tx Event)
      → ((c : Case) (db' : Db) → r ≡ ok (c, db') → Advances id db (k c db'))
      → Advances id db (continue (returned r db).0 k (returned r db).1)
  unfolding returned
  Advances-returned (ok (c, db')) k h = h c db' refl
  Advances-returned (err x) k h = tt

  advance-cases :
      (c : Case) (db' : Db)
      → advance_last_seq id db ≡ ok (c, db')
      → (u : Case) × (find_case id db ≡ some u)
        × (db'.cases ≡ put_case (record u { last_seq = u.last_seq + 1 }) db.cases)
  advance-cases c db' h = elim (Option-cases (find_case id db)) [
    | inl gone ↦ let q = advance-none id db gone in cc
    | inr (u, found) ↦
        let q = sym h ∙ advance-found id db u found in
        (u, found, ap (λ (x : Case × Db). x.1.cases) (ok-same _ _ q))
  ]

-- A failure that is recorded moves the last Seq of its case by one, and leaves the other rows alone.
record_failure-Advances :
    (is_object : String → Bool) (e : Engine) (input : FailureInput) (db : Db)
    → Advances input.case_id db (record_failure is_object e input db)
unfolding record_failure returns
record_failure-Advances is_object e input db =
    let id = input.case_id in
    Advances-step id db (fail_if (not (is_known input.kind)) Err.invalid_failure) _ λ _.
      Advances-step id db
        (fail_if (not (input.raw == "") && not (is_object input.raw)) Err.invalid_failure) _
        λ _. Advances-step id db (resolve_actor input.actor "") _ λ actor.
          Advances-step id db (named_token input.token_id (list_tokens id db)) _ λ tok.
            Advances-returned id db (advance_last_seq id db) _ λ c db' h.
              let (u, found, moved) = advance-cases id db c db' h in
              Returns-always _ (append e c (e.uuid 0) _ db').0
                (u, found, append-same e c (e.uuid 0) _ db' ∙ moved)

some-same : {A : Type 0} (a b : A) → some a ≡ some b → a ≡ b
some-same a b h = cc

found-id : (id : ℕ) (db : Db) (u : Case) → find_case id db ≡ some u → u.id ≡ id
unfolding find_case
found-id id db u h = (==_iff u.id id).0 (find-passes (λ (x : Case). x.id == id) db.cases u h)

-- The row that advanced, in tables with these cases, and a row that did not.
row-own :
    (id : ℕ) (db db' : Db) (u : Case)
    → find_case id db ≡ some u
    → db'.cases ≡ put_case (record u { last_seq = u.last_seq + 1 }) db.cases
    → find_case id db' ≡ some (record u { last_seq = u.last_seq + 1 })
unfolding find_case
row-own id db db' u found moved =
    let next : Case = record u { last_seq = u.last_seq + 1 } in
    let own = found-id id db u found in
    subst (λ (cs : List Case). find (λ (x : Case). x.id == id) cs ≡ some next) (sym moved)
      (subst (λ (i : ℕ). find (λ (x : Case). x.id == i) (put_case next db.cases) ≡ some next) own
        (find-put next u db.cases
          (subst (λ (i : ℕ). find (λ (x : Case). x.id == i) db.cases ≡ some u) (sym own) found)))

row-other :
    (id other : ℕ) (db db' : Db) (u : Case)
    → other ≢ id
    → find_case other db ≡ some u
    → db'.cases ≡ put_case (record u { last_seq = u.last_seq + 1 }) db.cases
    → find_case id db' ≡ find_case id db
unfolding find_case
row-other id other db db' u apart found moved =
    let next : Case = record u { last_seq = u.last_seq + 1 } in
    ap (λ (cs : List Case). find (λ (x : Case). x.id == id) cs) moved
    ∙ find-put_other id next db.cases (λ same. apart (sym (found-id other db u found) ∙ same))

module _ (is_object : String → Bool) (id : ℕ) where
  -- Calls of RecordFailure that succeeded one after another, `n` of them on the case `id` and any
  -- number on other cases, led from tables to tables.
  pub data Failures : ℕ → Db → Db → Type 0 where
    none_yet : {db : Db} → Failures 0 db db
    of_case :
        {n : ℕ} {db db' db'' : Db}
        → Failures n db db'
        → (e : Engine) (input : FailureInput) (v : Event) → input.case_id ≡ id
        → record_failure is_object e input db' ≡ (ok v, db'')
        → Failures (suc n) db db''
    elsewhere :
        {n : ℕ} {db db' db'' : Db}
        → Failures n db db'
        → (e : Engine) (input : FailureInput) (v : Event) → input.case_id ≢ id
        → record_failure is_object e input db' ≡ (ok v, db'')
        → Failures n db db''

  recorded-cases :
      (e : Engine) (input : FailureInput) (db db' : Db) (v : Event)
      → record_failure is_object e input db ≡ (ok v, db')
      → (u : Case) × (find_case input.case_id db ≡ some u)
        × (db'.cases ≡ put_case (record u { last_seq = u.last_seq + 1 }) db.cases)
  recorded-cases e input db db' v h =
      subst (λ (x : Result Event × Db). Advances input.case_id db x) h
        (record_failure-Advances is_object e input db)

  Failures-row :
      (n : ℕ) (db db' : Db) (c : Case)
      → find_case id db ≡ some c
      → Failures n db db'
      → (u : Case) × (find_case id db' ≡ some u) × (u.last_seq ≡ c.last_seq + n)
  Failures-row _ db _ c read none_yet = (c, read, omega arith)
  Failures-row _ _ db'' c read (of_case {n} {db} {db'} before e input v same h) =
      let (u, found, counted) = Failures-row n db db' c read before in
      let (w, here, moved) = recorded-cases e input db' db'' v h in
      let again : find_case id db' ≡ some w =
        subst (λ (i : ℕ). find_case i db' ≡ some w) same here in
      let one : w ≡ u = some-same w u (sym again ∙ found) in
      (
        record w { last_seq = w.last_seq + 1 },
        row-own id db' db'' w again moved,
        omega (arith, counted, ap (λ (x : Case). x.last_seq) one),
      )
  Failures-row _ _ db'' c read (elsewhere {n} {db} {db'} before e input v apart h) =
      let (u, found, counted) = Failures-row n db db' c read before in
      let (w, here, moved) = recorded-cases e input db' db'' v h in
      (u, row-other id input.case_id db' db'' w apart here moved ∙ found, counted)

-- Failures that RecordFailure records between a call's read of a case and its write, one or more on
-- that case and any number on others, make the write fail with ErrConflict and write nothing, if the
-- call planned from the last Seq of the row that it read.
pub persist-after-Failures :
    (is_object : String → Bool) (e : Engine) (r : Run) (n : ℕ) (db db' : Db) (c : Case)
    → find_case r.case.id db ≡ some c
    → r.base_seq ≡ c.last_seq
    → Failures is_object r.case.id (suc n) db db'
    → persist e r db' ≡ (err Err.conflict, db')
persist-after-Failures is_object e r n db db' c read base failed =
    let (u, found, counted) = Failures-row is_object r.case.id (suc n) db db' c read failed in
    persist-behind e r db' u found (omega (arith, base, counted))
