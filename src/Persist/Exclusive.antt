-- ===== src/Persist/Exclusive.antt =====
-- Optimistic concurrency (Engine.persist over Repository.Update): of the calls that read one
-- revision of a case, one writes.
use vogel.Prelude.{
  ℕ, ◌<◌, ◌+◌, Bool, true, false, ◌≡◌, refl, sym, subst, ◌∙◌, ap, inl, inr, none, some, List, [],
  ◌∷◌, find, length, arith, Bool-cases, Option-cases, ==_iff, ◌==◌, nat_eq, ◌&&◌, if◌then◌else◌,
}
use vogel.Errors.{Err, Result, ok, err, cases-of_result}
use vogel.Case.{Case}
use vogel.Event.{Event}
use vogel.Engine.{Engine}
use vogel.Run.{Run}
use vogel.Store.{Db, find_case, put_case, update}
use vogel.Tx.{returned, ◌>>◌, Tx, continue, ◌>>=◌, pure, returns}
use vogel.Persist.{project, persist, write_scopes, write_tokens, append_all}
use vogel.Persist.Tables.{
  SameCases, append_all-same, same-continue, write_scopes-same, write_tokens-same,
}

-- What a successful Update leaves under the case's identifier.
pub find-put :
    (c u : Case) (cs : List Case)
    → find (λ (x : Case). x.id == c.id) cs ≡ some u
    → find (λ (x : Case). x.id == c.id) (put_case c cs) ≡ some c
unfolding put_case
find-put c u [] h = cc
find-put c u (x ∷ cs) h = elim (Bool-cases (x.id == c.id)) [
  | inl same ↦ rw (same, (==_iff c.id c.id).1 refl) refl
  | inr other ↦ rw (other, other) (find-put c u cs (ground arith))
]

project-id : (r : Run) → ((project r).id ≡ r.case.id) × ((project r).revision ≡ r.case.revision)
unfolding project
project-id r = ground arith

if-ok :
    {A : Type 0} (b : Bool) (a : A) (x : Err) (z : A) → (if b then ok a else err x) ≡ ok z → a ≡ z
if-ok true a x z h = cc
if-ok false a x z h = cc

module _ (c : Case) (expected : ℕ) (db : Db) where
  abbrev updated : Case
  updated = record c { revision = c.revision + 1; join_result = none }

  update-none : find_case c.id db ≡ none → update c expected db ≡ err Err.case_not_found
  unfolding update
  update-none h = rw (h, update) refl

  update-found :
      (u : Case)
      → find_case c.id db ≡ some u
      → update c expected db ≡ (
          if u.revision == c.revision && u.last_seq == expected
          then ok (updated, record db { cases = put_case updated db.cases })
          else err Err.conflict)
  unfolding update
  update-found u h = rw (h, update) refl

  -- A successful Update leaves the row at the next revision.
  update-cases :
      (c' : Case) (db' : Db)
      → update c expected db ≡ ok (c', db')
      → (c' ≡ updated) × (find_case c.id db' ≡ some updated)
  unfolding find_case
  update-cases c' db' h = elim (Option-cases (find_case c.id db)) [
    | inl gone ↦ let q = update-none gone in cc
    | inr (u, found) ↦
        let q =
          if-ok (u.revision == c.revision && u.last_seq == expected) _ Err.conflict (c', db')
            (sym (update-found u found) ∙ h) in
        (
          ap (λ (x : Case × Db). x.0) (sym q),
          subst (λ (x : Case × Db). find_case c.id x.1 ≡ some updated) q
              (find-put updated u db.cases found),
        )
  ]

  update-stale :
      (u : Case)
      → find_case c.id db ≡ some u
      → u.revision ≡ c.revision + 1
      → update c expected db ≡ err Err.conflict
  update-stale u found stale = update-found u found ∙ (ground arith)

-- The last Seq moved on since the caller read it.
update-behind :
    (c : Case) (expected : ℕ) (db : Db) (u : Case)
    → find_case c.id db ≡ some u
    → expected < u.last_seq
    → update c expected db ≡ err Err.conflict
update-behind c expected db u found moved = update-found c expected db u found ∙ (ground arith)

-- What persist hands to Update.
abbrev row : Run → Case
row r = record (project r) { last_seq = r.base_seq + length r.events }

abbrev update_row : Run → Tx Case
update_row r = returns (update (row r) r.base_seq)

-- What persist does once the row is written.
abbrev write_rest : Engine → Run → Case → Tx (Case × List Event)
write_rest e r c =
    write_scopes r r.scopes
    >> (write_tokens r r.tokens
        >> (append_all e c r.drawn r.events >>= λ appended. pure (c, appended)))

persist-steps :
    (e : Engine) (r : Run) (db : Db) (y : Result Case × Db)
    → update_row r db ≡ y
    → persist e r db ≡ continue y.0 (write_rest e r) y.1
unfolding persist
persist-steps e r db y h =
    subst (λ (z : Result Case × Db). persist e r db ≡ continue z.0 (write_rest e r) z.1) h refl

update_row-ok :
    (r : Run) (db : Db) (u : Result (Case × Db))
    → update (row r) r.base_seq db ≡ u
    → update_row r db ≡ returned u db
unfolding returns
update_row-ok r db u h = ap (λ (x : Result (Case × Db)). returned x db) h

write_rest-same : (e : Engine) (r : Run) (c : Case) (db : Db) → SameCases db (write_rest e r c db)
write_rest-same e r c db =
    same-continue db (write_scopes r r.scopes db) _ (write_scopes-same r r.scopes db) λ _ db1 h1.
      same-continue db (write_tokens r r.tokens db1) _ (write_tokens-same r r.tokens db1 ∙ h1)
        λ _ db2 h2.
          same-continue db (append_all e c r.drawn r.events db2) _
            (append_all-same e c r.events r.drawn db2 ∙ h2) (λ _ db3 h3. h3)

-- After a call that persisted, the case's row is at the next revision and at the Seq of the last
-- event planned; a call whose row was not written leaves the tables as they were.
persist-row :
    (e : Engine) (r : Run) (db : Db) (x : Case × List Event)
    → (persist e r db).0 ≡ ok x
    → find_case (row r).id (persist e r db).1 ≡ some (updated (row r) r.base_seq db)
unfolding returned find_case
persist-row e r db x h = elim (cases-of_result (update (row r) r.base_seq db)) [
  | inr (y, failed) ↦
      let q = persist-steps e r db _ (update_row-ok r db _ failed) in
      let q' : err y ≡ ok x = sym (ap (λ (z : Result (Case × List Event) × Db). z.0) q) ∙ h in cc
  | inl ((c', db'), wrote') ↦
      let q = persist-steps e r db _ (update_row-ok r db _ wrote') in
      let same =
        ap (λ (z : Result (Case × List Event) × Db). z.1.cases) q ∙ write_rest-same e r c' db' in
      subst
        (λ (cs : List Case).
          find (λ (u : Case). u.id == (row r).id) cs ≡ some (updated (row r) r.base_seq db))
        (sym same) (update-cases (row r) r.base_seq db c' db' wrote').1
]

-- Where the last Seq of the row is not the one that the call read, it fails and writes nothing.
pub persist-behind :
    (e : Engine) (r : Run) (db : Db) (u : Case)
    → find_case r.case.id db ≡ some u
    → r.base_seq < u.last_seq
    → persist e r db ≡ (err Err.conflict, db)
unfolding returned
persist-behind e r db u found moved =
    let here : find_case (row r).id db ≡ some u =
      subst (λ (i : ℕ). find_case i db ≡ some u) (sym (project-id r).0) found in
    persist-steps e r db _ (update_row-ok r db _ (update-behind (row r) r.base_seq db u here moved))

-- Of two calls that planned on the same revision of a case, the second to persist fails with
-- ErrConflict and writes nothing, whatever either planned.
pub persist-exclusive :
    (e e' : Engine) (r r' : Run) (db : Db) (x : Case × List Event)
    → r'.case.id ≡ r.case.id
    → r'.case.revision ≡ r.case.revision
    → (persist e r db).0 ≡ ok x
    → persist e' r' (persist e r db).1 ≡ (err Err.conflict, (persist e r db).1)
unfolding returned
persist-exclusive e e' r r' db x same_case same_revision h =
    let db1 = (persist e r db).1 in
    let same_id : (row r').id ≡ (row r).id =
      (project-id r').0 ∙ (same_case ∙ sym (project-id r).0) in
    let found : find_case (row r').id db1 ≡ some (updated (row r) r.base_seq db) =
      subst (λ (i : ℕ). find_case i db1 ≡ some (updated (row r) r.base_seq db)) (sym same_id)
        (persist-row e r db x h) in
    let ahead : (project r).revision + 1 ≡ (project r').revision + 1 =
      omega (arith, (project-id r').1, (project-id r).1, same_revision) in
    persist-steps e' r' db1 _
      (update_row-ok r' db1 _ (update-stale (row r') r'.base_seq db1 _ found ahead))

-- After a call that persisted, the case's row is at the revision after the one that the call planned
-- on, and its last Seq is as far past the one that the call read as the call planned events.
pub persist-advances :
    (e : Engine) (r : Run) (db : Db) (x : Case × List Event)
    → (persist e r db).0 ≡ ok x
    → (c : Case) × (find_case r.case.id (persist e r db).1 ≡ some c)
      × (c.revision ≡ r.case.revision + 1)
      × (c.last_seq ≡ r.base_seq + length r.events)
persist-advances e r db x h = (
  updated (row r) r.base_seq db,
  subst (λ (i : ℕ). find_case i (persist e r db).1 ≡ some (updated (row r) r.base_seq db))
      (project-id r).0 (persist-row e r db x h),
  omega (arith, (project-id r).1),
  refl,
)
