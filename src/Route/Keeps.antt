-- ===== src/Route/Keeps.antt =====
-- What a proof about automatic routing (workflow/run.go: route) has to show of each of its state
-- changes.
use vogel.Prelude.{
  find-passes, ℕ, String, true, false, ◌≡◌, sym, subst, find, Option, some, List, arith, ==_iff,
  ◌==◌, string_eq, nat_eq,
}
use vogel.Errors.{Result}
use vogel.Definition.{
  Definition, Node, node, Transition, NodeKind, is_split, is_decision, is_join, is_automatic,
  JoinPolicy, Outcome,
}
use vogel.Case.{Token, TokenStatus, Scope, is_opened}
use vogel.Event.{Event}
use vogel.Engine.{Engine}
use vogel.Run.{Run, scope, resolved_eligibility, emit, write_token, add_token, next_seq}
use vogel.Run.Fields.{scopes-write_token, id-scope}
use vogel.Split.{open_scope}
use vogel.Join.{close_round, park}
use vogel.Settle.{settled, assign_to, closing}
use vogel.Route.{entering, enter}

pub definition-enter :
    (tok : Token) (tr : Transition) (comment : String) (n : Node) (r : Run)
    → (enter tok tr comment n r).definition ≡ r.definition
unfolding enter write_token emit
definition-enter tok tr comment n r = ground arith

-- A lookup by its own identifier finds a node that a lookup found.
pub node-own : (d : Definition) (id : String) (n : Node) → node d id ≡ some n → node d n.id ≡ some n
unfolding node
node-own d id n h =
    subst (λ (i : String). find (λ (m : Node). m.id == i) d.nodes ≡ some n)
      (sym ((==_iff n.id id).0 (find-passes (λ (m : Node). m.id == id) d.nodes n h))) h

pub scope-park :
    (tok : Token) (n : Node) (outcome : Outcome) (r : Run) (s : Scope)
    → scope tok.scope_id r ≡ some s
    → scope s.id (park tok n outcome r) ≡ some s
unfolding park scope emit
scope-park tok n outcome r s h =
    rw (scopes-write_token (record tok { status = TokenStatus.waiting; outcome = outcome }) r) (
      subst (λ (i : ℕ). find (λ (u : Scope). u.id == i) r.scopes ≡ some s)
        (sym (id-scope tok.scope_id r s h)) h)

pub not_automatic :
    (k : NodeKind)
    → is_decision k ≡ false
    → is_split k ≡ false
    → is_join k ≡ false
    → is_automatic k ≡ false
unfolding is_automatic
not_automatic k d s j = rw (d, s, j)

-- `Mid t r` holds while token `t` is under way, `Done r` once every token has come to rest.
pub record Keeps (e : Engine) (stored : Result (List Event)) (Mid : Token → Run → Type 0)
    (Done : Run → Type 0) : Type 0 where
  pub enters :
      (tok : Token) (tr : Transition) (comment : String) (n : Node) (r : Run)
      → Mid tok r
      → Mid (entering tok n (next_seq r) r) (enter tok tr comment n r)
  pub rests :
      (tok : Token) (n : Node) (h : ℕ) (r : Run)
      → Mid tok r
      → node r.definition tok.node ≡ some n
      → is_automatic n.kind ≡ false
      → n.terminal ≡ false
      → (deadline : Option ℕ)
      → let resting = record tok {
        status = TokenStatus.active;
        eligible = resolved_eligibility n r.case.unit;
        deadline_at = deadline;
      } in
        Done (settled resting h r)
        × ((to : String) → Done (assign_to resting n to (settled resting h r)))
  pub ends :
      (tok : Token) (n : Node) (action : String) (r : Run)
      → Mid tok r
      → node r.definition tok.node ≡ some n
      → n.terminal ≡ true
      → Done (closing tok n action r)
  pub counts :
      (tok : Token) (k : ℕ) (r : Run) → Mid tok r → Mid tok (record r { gateway_steps = k })
  pub opens :
      (tok : Token) (n : Node) (bs : List (Token × Transition)) (r : Run)
      → Mid tok r
      → Done (open_scope e tok n bs r)
  pub starts : (tok : Token) (r : Run) → Done r → Mid tok (add_token tok r)
  pub parks :
      (tok : Token) (n : Node) (outcome : Outcome) (s : Scope) (r : Run)
      → Mid tok r
      → tok.node ≡ n.id
      → scope tok.scope_id r ≡ some s
      → s.join_node ≡ n.id
      → node r.definition tok.node ≡ some n
      → is_join n.kind ≡ true
      → Done (park tok n outcome r)
  pub fires :
      (s : Scope) (n : Node) (policy : JoinPolicy) (verdict : Outcome) (parent k : ℕ) (r : Run)
      → Done r
      → scope s.id r ≡ some s
      → is_opened s.status ≡ true
      → let (joined, next, r') =
          close_round e s n policy verdict parent r (record r { gateway_steps = k }) in
        Mid next r'
