-- ===== src/Persist/Tables.antt =====
-- The statements after Update (workflow/run.go: writeState, persist's loop) leave the case rows alone.
use vogel.Prelude.{
  ℕ, suc, Bool, true, false, ◌≡◌, refl, ◌∙◌, List, [], ◌∷◌, arith, nat_eq, if◌then◌else◌,
}
use vogel.Errors.{Result, ok, err}
use vogel.Case.{Case, Scope, Token}
use vogel.Event.{Event}
use vogel.Engine.{Engine}
use vogel.Run.{Run, contains}
use vogel.Store.{Db, create_scope, update_scope, create_token, update_token, append_event}
use vogel.Tx.{Tx, continue, pure, writes, wrote}
use vogel.History.{append, stamp}
use vogel.Persist.{write_scopes, write_tokens, append_all}

-- The case rows are those of `db`.
abbrev pub SameCases : {A : Type 0} → Db → Result A × Db → Type 0
SameCases db x = x.1.cases ≡ db.cases

module _ (db : Db) where
  pub same-continue :
      {A B : Type 0} (x : Result A × Db) (k : A → Tx B)
      → SameCases db x
      → ((a : A) (db' : Db) → db'.cases ≡ db.cases → SameCases db (k a db'))
      → SameCases db (continue x.0 k x.1)
  same-continue (ok a, db') k h hk = hk a db' h
  same-continue (err e, db') k h hk = h

wrote-same :
    (r : Result Db) (db : Db)
    → ((db' : Db) → r ≡ ok db' → db'.cases ≡ db.cases)
    → SameCases db (wrote r db)
unfolding wrote
wrote-same (ok db') db h = h db' refl
wrote-same (err e) db h = refl

create_scope-same : (s : Scope) (db : Db) → SameCases db (writes (create_scope s) db)
unfolding writes wrote create_scope
create_scope-same s db = ground arith

update_scope-same : (s : Scope) (db : Db) → SameCases db (writes (update_scope s) db)
unfolding writes wrote update_scope
update_scope-same s db = ground arith

create_token-same : (t : Token) (db : Db) → SameCases db (writes (create_token t) db)
unfolding writes wrote create_token
create_token-same t db = ground arith

update_token-same : (t : Token) (db : Db) → SameCases db (writes (update_token t) db)
unfolding writes wrote update_token
update_token-same t db = ground arith

append_event-same : (v : Event) (db : Db) → SameCases db (writes (append_event v) db)
unfolding writes wrote append_event
append_event-same v db = ground arith

pub append-same :
    (e : Engine) (c : Case) (id : ℕ) (v : Event) (db : Db) → SameCases db (append e c id v db)
unfolding append
append-same e c id v db =
    same-continue db (writes (append_event (stamp e c id v)) db) _
      (append_event-same (stamp e c id v) db) (λ _ db' h. h)

if-same :
    {A : Type 0} (b : Bool) (m n : Tx A) (db : Db)
    → SameCases db (m db)
    → SameCases db (n db)
    → SameCases db ((if b then m else n) db)
if-same true m n db hm hn = hm
if-same false m n db hm hn = hn

pub write_scopes-same : (r : Run) (ss : List Scope) (db : Db) → SameCases db (write_scopes r ss db)
unfolding write_scopes
write_scopes-same r [] db = refl
write_scopes-same r (s ∷ ss) db =
    same-continue db
      ((if contains r.created s.id
          then writes (create_scope s)
          else if contains r.changed s.id
          then writes (update_scope s)
          else pure tt)
        db)
      _
      (if-same (contains r.created s.id) _ _ db (create_scope-same s db)
        (if-same (contains r.changed s.id) _ _ db (update_scope-same s db) refl))
      (λ _ db' h. write_scopes-same r ss db' ∙ h)

pub write_tokens-same : (r : Run) (ts : List Token) (db : Db) → SameCases db (write_tokens r ts db)
unfolding write_tokens
write_tokens-same r [] db = refl
write_tokens-same r (t ∷ ts) db =
    same-continue db
      ((if contains r.created t.id
          then writes (create_token t)
          else if contains r.changed t.id
          then writes (update_token t)
          else pure tt)
        db)
      _
      (if-same (contains r.created t.id) _ _ db (create_token-same t db)
        (if-same (contains r.changed t.id) _ _ db (update_token-same t db) refl))
      (λ _ db' h. write_tokens-same r ts db' ∙ h)

pub append_all-same :
    (e : Engine) (c : Case) (vs : List Event) (n : ℕ) (db : Db)
    → SameCases db (append_all e c n vs db)
unfolding append_all
append_all-same e c [] n db = refl
append_all-same e c (v ∷ vs) n db =
    same-continue db (append e c (e.uuid n) v db) _ (append-same e c (e.uuid n) v db)
      (λ stored db' h.
        same-continue db (append_all e c (suc n) vs db') _ (append_all-same e c vs (suc n) db' ∙ h)
          (λ _ db'' h'. h'))
