-- ===== src/Route/Steps.antt =====
-- The gateway steps that a call has counted (caseRun.gatewayStep) and the definition that it runs on,
-- under the state changes of workflow/run.go, which leave them alone.
use vogel.Prelude.{
  ℕ, String, ◌≡◌, refl, ap, ◌∙◌, inl, inr, Option, none, some, List, [], ◌∷◌, arith, Bool-cases,
  ◌==◌, string_eq,
}
use vogel.Definition.{Definition, Node, Transition, JoinPolicy, Outcome}
use vogel.Case.{Token, TokenStatus, Scope, BranchResult}
use vogel.Event.{Event}
use vogel.Engine.{Engine}
use vogel.Run.{Run, emit, end, write_token, write_scope, add_token, add_scope, next_seq}
use vogel.JoinPolicy.{cancel_pending, cancel_event, close_branches}
use vogel.Split.{open_scope}
use vogel.Join.{
  end_all, cancel_scopes, finish_branches, consume_round, note_join_result, close_round, park,
}
use vogel.Settle.{settled, assign_to, close_root, closing}
use vogel.Route.{enter}

-- The two fields that no state change of a call of `route` touches but gatewayStep.
abbrev kept : Run → ℕ × Definition
kept r = (r.gateway_steps, r.definition)

abbrev Same : Run → Run → Type 0
Same r' r = kept r' ≡ kept r

abbrev pub steps_of : {a b : ℕ × Definition} → a ≡ b → a.0 ≡ b.0
steps_of q = ap (λ (p : ℕ × Definition). p.0) q

abbrev pub definition_of : {a b : ℕ × Definition} → a ≡ b → a.1 ≡ b.1
definition_of q = ap (λ (p : ℕ × Definition). p.1) q

kept-emit : (v : Event) (r : Run) → Same (emit v r) r
unfolding emit
kept-emit v r = refl

kept-write_token : (t : Token) (r : Run) → Same (write_token t r) r
unfolding write_token
kept-write_token t r = ground arith

kept-write_scope : (s : Scope) (r : Run) → Same (write_scope s r) r
unfolding write_scope
kept-write_scope s r = ground arith

kept-end : (t : Token) (st : TokenStatus) (k : ℕ) (r : Run) → Same (end t st k r) r
unfolding end
kept-end t st k r = ground arith

kept-end_all : (ts : List Token) (k : ℕ) (r : Run) → Same (end_all ts k r) r
unfolding end_all
kept-end_all [] k r = refl
kept-end_all (t ∷ ts) k r =
    kept-end_all ts k (end t TokenStatus.consumed k r) ∙ kept-end t TokenStatus.consumed k r

kept-cancel_scopes : (ss : List Scope) (k : ℕ) (r : Run) → Same (cancel_scopes ss k r) r
unfolding cancel_scopes
kept-cancel_scopes [] k r = refl
kept-cancel_scopes (s ∷ ss) k r = kept-cancel_scopes ss k _ ∙ kept-write_scope _ r

kept-cancel_pending :
    (reason : String) (nested : List (Scope × ℕ)) (ts : List Token) (reported : List ℕ)
    (bs : List BranchResult) (r : Run)
    → Same (cancel_pending reason nested reported bs ts r).1 r
unfolding cancel_pending
kept-cancel_pending reason nested [] reported bs r = refl
kept-cancel_pending reason nested (t ∷ ts) reported bs r =
    kept-cancel_pending reason nested ts _ _ _
    ∙ (kept-end t TokenStatus.cancelled (next_seq r) (emit (cancel_event reason t) r)
        ∙ kept-emit (cancel_event reason t) r)

kept-finish_branches : (s : Scope) (p : JoinPolicy) (r : Run) → Same (finish_branches s p r).2 r
unfolding finish_branches close_branches
kept-finish_branches s JoinPolicy.no_policy r = refl
kept-finish_branches s _ r = kept-cancel_pending _ _ _ [] [] r

kept-note :
    (next : ℕ) (s : Scope) (p : JoinPolicy) (o : Outcome) (k : ℕ) (bs : List BranchResult) (r : Run)
    → Same (note_join_result next s p o k bs r) r
unfolding note_join_result
kept-note next s JoinPolicy.no_policy o k bs r = refl
kept-note next s _ o k bs r = refl

kept-consume_round :
    (s : Scope) (n : Node) (p : JoinPolicy) (o : Outcome) (ws : List Token) (bs : List BranchResult)
    (ss : List Scope) (id : ℕ) (r : Run)
    → Same (consume_round s n p o ws bs ss id r) r
unfolding consume_round
kept-consume_round s n p o ws bs ss id r =
    kept-write_scope _ _ ∙ (kept-cancel_scopes ss _ _ ∙ (kept-end_all ws _ _ ∙ kept-emit _ r))

pub kept-add_token : (t : Token) (r : Run) → Same (add_token t r) r
unfolding add_token
kept-add_token t r = refl

pub kept-close_round :
    (e : Engine) (s : Scope) (n : Node) (p : JoinPolicy) (o : Outcome) (parent : ℕ) (r0 r1 : Run)
    → Same (close_round e s n p o parent r0 r1).2 r1
unfolding close_round
kept-close_round e s n p o parent r0 r1 =
    kept-note _ s p o _ _ _
    ∙ (kept-add_token _ _ ∙ (kept-consume_round s n p o _ _ _ _ _ ∙ kept-finish_branches s p r1))

pub kept-settled : (tok : Token) (i : ℕ) (r : Run) → Same (settled tok i r) r
unfolding settled
kept-settled tok i r = kept-write_token tok _

pub kept-assign_to :
    (tok : Token) (n : Node) (to : String) (r : Run) → Same (assign_to tok n to r) r
unfolding assign_to
kept-assign_to tok n to r = elim (Bool-cases (to == "")) [
  | inl t ↦ rw t refl
  | inr f ↦ rw f (kept-emit _ _ ∙ kept-write_token _ r)
]

kept-close_root : (s : Option Scope) (k : ℕ) (r : Run) → Same (close_root s k r) r
unfolding close_root
kept-close_root none k r = refl
kept-close_root (some s) k r = kept-write_scope _ r

pub kept-closing :
    (tok : Token) (n : Node) (action : String) (r : Run) → Same (closing tok n action r) r
unfolding closing
kept-closing tok n action r = kept-close_root _ _ _ ∙ (kept-end tok _ _ _ ∙ kept-emit _ r)

pub kept-enter :
    (tok : Token) (tr : Transition) (comment : String) (n : Node) (r : Run)
    → Same (enter tok tr comment n r) r
unfolding enter
kept-enter tok tr comment n r = kept-write_token _ _ ∙ kept-emit _ r

pub kept-open_scope :
    (e : Engine) (tok : Token) (n : Node) (bs : List (Token × Transition)) (r : Run)
    → Same (open_scope e tok n bs r) r
unfolding open_scope add_scope
kept-open_scope e tok n bs r = kept-end tok _ _ _ ∙ kept-emit _ r

pub kept-park : (tok : Token) (n : Node) (o : Outcome) (r : Run) → Same (park tok n o r) r
unfolding park
kept-park tok n o r = kept-emit _ _ ∙ kept-write_token _ r
