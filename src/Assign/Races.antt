-- ===== src/Assign/Races.antt =====
-- Calls that race for the tokens of one case (workflow/assign.go: ClaimWith; workflow/run.go: loadRun).
use vogel.Prelude.{ℕ, String, ◌≡◌, ◌∙◌, refl, sym, ap, List, arith, string_eq, ==_iff}
use vogel.Errors.{Err, Result, ok, err, Ensures-ok, AnyErr}
use vogel.Case.{Case, Token, Actor}
use vogel.Event.{Event, EventKind, Detail}
use vogel.Engine.{Engine, resolve_definition}
use vogel.Run.{Run, pick, begin, emit, write_token, load_run}
use vogel.Run.Load.{Loaded, load_run-Loaded}
use vogel.Store.{Db, list_tokens, list_scopes}
use vogel.Tx.{continue}
use vogel.Tx.ReadsOnly.{Reads, Reads-step}
use vogel.Persist.{persist, load, load_token}
use vogel.Persist.Exclusive.{persist-exclusive}
use vogel.Assign.{reassigned, save, claim_token}

load_token-Reads :
    (e : Engine) (c : Case) (id : ℕ) (db : Db)
    → Reads (λ (x : Run × Token). x.0.case ≡ c) db (load_token e c id db)
unfolding load_token load
load_token-Reads e c id db = Reads-step _ (resolve_definition e c.definition c.version) _ db λ d _.
    Reads-step _ (load_run (list_tokens c.id db) (list_scopes c.id db) c d) _ db λ run loaded.
      Reads-step _ (pick id run) _ db λ tok _. (
        refl,
        (Ensures-ok AnyErr (Loaded (λ _. Unit) c d (list_tokens c.id db)) _ run
            (load_run-Loaded (λ _. Unit) c d (list_tokens c.id db) (λ _ _ u. u)
              (list_scopes c.id db))
            loaded).case,
      )

reassigned-case :
    (e : Engine) (a : Actor) (k : EventKind) (x : Detail) (to : String) (tok : Token) (r : Run)
    → (reassigned e a k x to tok r).case ≡ r.case
unfolding reassigned emit write_token begin
reassigned-case e a k x to tok r = ground arith

-- A call that ends in a value has gone on from one.
continued :
    {A B : Type 0} (r : Result A) (f : A → B) (db : Db) (b : B)
    → (continue r (λ x db'. (ok (f x), db')) db).0 ≡ ok b
    → (a : A) × (r ≡ ok a) × ((continue r (λ x db'. (ok (f x), db')) db).1 ≡ db)
continued (ok a) f db b h = (a, refl, refl)
continued (err x) f db b h = cc

save-persisted :
    (e : Engine) (r : Run) (db : Db) (won : Case)
    → (save e r db).0 ≡ ok won
    → (x : Case × List Event) × ((persist e r db).0 ≡ ok x) × ((save e r db).1 ≡ (persist e r db).1)
unfolding save
save-persisted e r db won h =
    continued (persist e r db).0 (λ (x : Case × List Event). x.0) (persist e r db).1 won h

save-failed :
    (e : Engine) (r : Run) (db : Db) (x : Err)
    → persist e r db ≡ (err x, db)
    → save e r db ≡ (err x, db)
unfolding save
save-failed e r db x h = rw h refl

-- The run that a claim of a free token persists.
abbrev claiming : Engine → Actor → Token → Run → Run
claiming e a tok run = reassigned e a EventKind.assigned (Detail.assignment "" a.id "") a.id tok run

claim_token-free :
    (e : Engine) (a : Actor) (c : Case) (run : Run) (tok : Token) (db : Db)
    → tok.assigned_to ≡ ""
    → claim_token e a c run tok db ≡ save e (claiming e a tok run) db
unfolding claim_token
claim_token-free e a c run tok db free = rw ((==_iff tok.assigned_to "").1 free) refl

claiming-case :
    (e : Engine) (a : Actor) (tok : Token) (run : Run) → (claiming e a tok run).case ≡ run.case
claiming-case e a tok run = reassigned-case e a _ _ a.id tok run

module _ (e e' : Engine) (c : Case) (run run' : Run) (tok tok' : Token) (a b : Actor) where
  -- Two racing claimers can never both win: of two claims of free tokens (of the same one, or of two
  -- tokens of the case) that loaded the case from one row, whatever else their engines and the tables
  -- they read held, once the first has persisted, the second fails with ErrConflict and writes
  -- nothing.
  pub claim_token-races :
      (i j : ℕ) (read read' db : Db) (won : Case)
      → (load_token e c i read).0 ≡ ok (run, tok)
      → (load_token e' c j read').0 ≡ ok (run', tok')
      → tok.assigned_to ≡ ""
      → tok'.assigned_to ≡ ""
      → (claim_token e a c run tok db).0 ≡ ok won
      → let after = (claim_token e a c run tok db).1 in
        claim_token e' b c run' tok' after ≡ (err Err.conflict, after)
  claim_token-races i j read read' db won loaded loaded' free free' h =
      let r = claiming e a tok run in
      let r' = claiming e' b tok' run' in
      let first = Ensures-ok AnyErr _ _ (run, tok) (load_token-Reads e c i read).1 loaded in
      let second = Ensures-ok AnyErr _ _ (run', tok') (load_token-Reads e' c j read').1 loaded' in
      let same : r'.case ≡ r.case =
        claiming-case e' b tok' run' ∙ second ∙ sym (claiming-case e a tok run ∙ first) in
      let one = claim_token-free e a c run tok db free in
      let (x, wrote, left) = save-persisted e r db won (ap (λ z. z.0) (sym one) ∙ h) in
      let lost =
        persist-exclusive e e' r r' db x (ap (λ (c : Case). c.id) same)
          (ap (λ (c : Case). c.revision) same) wrote in
      rw one (
        claim_token-free e' b c run' tok' (save e r db).1 free'
        ∙ save-failed e' r' (save e r db).1 Err.conflict (rw left lost))
