-- ===== src/Run/Fields.antt =====
-- What the writes of workflow/run.go leave alone, and what a lookup by identifier finds.
use vogel.Prelude.{find-passes, ℕ, ◌≡◌, some, arith, ==_iff, ◌==◌, nat_eq}
use vogel.Case.{Token, Scope}
use vogel.Run.{Run, write_token, write_scope, scope}

module _ (t : Token) (r : Run) where
  pub scopes-write_token : (write_token t r).scopes ≡ r.scopes
  unfolding write_token
  scopes-write_token = ground arith

module _ (s : Scope) (r : Run) where
  pub tokens-write_scope : (write_scope s r).tokens ≡ r.tokens
  unfolding write_scope
  tokens-write_scope = ground arith

pub id-scope : (id : ℕ) (r : Run) (s : Scope) → scope id r ≡ some s → s.id ≡ id
unfolding scope
id-scope id r s h = (==_iff s.id id).0 (find-passes (λ (u : Scope). u.id == id) r.scopes s h)
