-- ===== src/Route/Stands.antt =====
-- Where tokens stand after each state change of automatic routing (workflow/run.go).
use vogel.Prelude.{
  ℕ, String, true, false, ◌≡◌, ◌≢◌, refl, subst, ◌∙◌, inl, inr, Option, none, some, List, [], ◌∷◌,
  arith, Bool-cases, ==_iff, ◌==◌, nat_eq, string_eq, All, All-append, All-of_All,
}
use vogel.Definition.{
  Definition, Node, node, Transition, is_automatic, is_join, JoinPolicy, Outcome,
}
use vogel.Case.{Token, TokenStatus, Scope, BranchResult}
use vogel.Event.{Event}
use vogel.Engine.{Engine}
use vogel.Run.{
  Run, emit, end, ended, write_token, write_scope, put_token, add_token, add_scope, next_seq,
}
use vogel.JoinPolicy.{cancel_pending, cancel_event, close_branches}
use vogel.Settle.{settled, assign_to, close_root, closing}
use vogel.Split.{open_scope}
use vogel.Join.{
  end_all, cancel_scopes, finish_branches, consume_round, note_join_result, close_round, park,
}
use vogel.Route.{entering, enter}

-- A token in this status at the node `at` of `d`: an active one on a task that is not terminal, a
-- waiting one on a join.
abbrev pub StandsAs : Definition → String → TokenStatus → Type 0
StandsAs d at TokenStatus.active =
    (n : Node) × (node d at ≡ some n) × (is_automatic n.kind ≡ false) × (n.terminal ≡ false)
StandsAs d at TokenStatus.waiting = (n : Node) × (node d at ≡ some n) × (is_join n.kind ≡ true)
StandsAs d at _ = Unit

abbrev pub Stands : Definition → Token → Type 0
Stands d t = StandsAs d t.node t.status

-- Every token that `except` does not name stands as it should.
abbrev pub AllStand : Definition → (ℕ → Type 0) → Run → Type 0
AllStand d except r =
    (r.definition ≡ d) × All (λ (t : Token). (except t.id → ⊥) → Stands d t) r.tokens

-- Every token of a run on the definition `d` stands as it should.
abbrev pub EveryStands : Definition → Run → Type 0
EveryStands d r = (r.definition ≡ d) × All (Stands d) r.tokens

abbrev pub NoOne : ℕ → Type 0
NoOne i = ⊥

put_token-All :
    (P Q : Token → Type 0) (t : Token)
    → Q t
    → ((u : Token) → u.id ≢ t.id → P u → Q u)
    → (ts : List Token) → All P ts
    → All Q (put_token t ts)
unfolding put_token
put_token-All P Q t new old [] h = tt
put_token-All P Q t new old (u ∷ ts) h = (
  elim (Bool-cases (u.id == t.id)) [
    | inl same ↦ rw same new
    | inr other ↦ rw other (old u (λ e. ground (arith, (==_iff u.id t.id).1 e)) h.0)
  ],
  put_token-All P Q t new old ts h.1,
)

module _ (d : Definition) where
  tokens-write_token : (t : Token) (r : Run) → (write_token t r).tokens ≡ put_token t r.tokens
  unfolding write_token
  tokens-write_token t r = ground arith

  definition-write_token : (t : Token) (r : Run) → (write_token t r).definition ≡ r.definition
  unfolding write_token
  definition-write_token t r = ground arith

  -- A write of a token that stands as it should: the token is no longer excepted.
  stand-write_token :
      (t : Token) (r : Run)
      → AllStand d (λ i. i ≡ t.id) r
      → Stands d t
      → AllStand d NoOne (write_token t r)
  stand-write_token t r h new = (
    definition-write_token t r ∙ h.0,
    rw (tokens-write_token t r) (
        put_token-All (λ u. (u.id ≢ t.id) → Stands d u) (λ u. (⊥ → ⊥) → Stands d u) t (λ _. new)
          (λ u other g _. g other) r.tokens h.1),
  )

  stand-except : (i : ℕ) (r : Run) → AllStand d NoOne r → AllStand d (λ j. j ≡ i) r
  stand-except i r h = (h.0, All-of_All _ r.tokens (λ t f _. f (λ no'. no')) h.1)

  pub stand-emit : (x : ℕ → Type 0) (v : Event) (r : Run) → AllStand d x r → AllStand d x (emit v r)
  unfolding emit
  stand-emit x v r h = h

  stand-write_scope :
      (x : ℕ → Type 0) (s : Scope) (r : Run) → AllStand d x r → AllStand d x (write_scope s r)
  unfolding write_scope
  stand-write_scope x s r h = ground arith

  -- Ending a token, whichever it is.
  pub stand-end :
      (t : Token) (k : ℕ) (r : Run)
      → AllStand d (λ i. i ≡ t.id) r
      → AllStand d NoOne (end t TokenStatus.consumed k r)
        × AllStand d NoOne (end t TokenStatus.cancelled k r)
  unfolding end
  stand-end t k r h = (
    stand-write_token (ended r TokenStatus.consumed k t) r h tt,
    stand-write_token (ended r TokenStatus.cancelled k t) r h tt,
  )

  stand-end_all :
      (ts : List Token) (k : ℕ) (r : Run) → AllStand d NoOne r → AllStand d NoOne (end_all ts k r)
  unfolding end_all
  stand-end_all [] k r h = h
  stand-end_all (t ∷ ts) k r h =
      stand-end_all ts k (end t TokenStatus.consumed k r)
        (stand-end t k r (stand-except t.id r h)).0

  stand-cancel_scopes :
      (ss : List Scope) (k : ℕ) (r : Run)
      → AllStand d NoOne r
      → AllStand d NoOne (cancel_scopes ss k r)
  unfolding cancel_scopes
  stand-cancel_scopes [] k r h = h
  stand-cancel_scopes (s ∷ ss) k r h = stand-cancel_scopes ss k _ (stand-write_scope NoOne _ r h)

  stand-cancel_pending :
      (reason : String) (nested : List (Scope × ℕ)) (ts : List Token) (reported : List ℕ)
      (bs : List BranchResult) (r : Run)
      → AllStand d NoOne r
      → AllStand d NoOne (cancel_pending reason nested reported bs ts r).1
  unfolding cancel_pending
  stand-cancel_pending reason nested [] reported bs r h = h
  stand-cancel_pending reason nested (t ∷ ts) reported bs r h =
      let r' = emit (cancel_event reason t) r in
      stand-cancel_pending reason nested ts _ _ _
        (stand-end t (next_seq r) r'
          (stand-except t.id r' (stand-emit NoOne (cancel_event reason t) r h))).1

  stand-finish_branches :
      (s : Scope) (p : JoinPolicy) (r : Run)
      → AllStand d NoOne r
      → AllStand d NoOne (finish_branches s p r).2
  unfolding finish_branches close_branches
  stand-finish_branches s JoinPolicy.no_policy r h = h
  stand-finish_branches s _ r h = stand-cancel_pending _ _ _ [] [] r h

  stand-note :
      (x : ℕ → Type 0) (next : ℕ) (s : Scope) (p : JoinPolicy) (o : Outcome) (k : ℕ)
      (bs : List BranchResult) (r : Run)
      → AllStand d x r
      → AllStand d x (note_join_result next s p o k bs r)
  unfolding note_join_result
  stand-note x next s JoinPolicy.no_policy o k bs r h = h
  stand-note x next s _ o k bs r h = h

  stand-consume_round :
      (s : Scope) (n : Node) (p : JoinPolicy) (o : Outcome) (ws : List Token)
      (bs : List BranchResult) (ss : List Scope) (id : ℕ) (r : Run)
      → AllStand d NoOne r
      → AllStand d NoOne (consume_round s n p o ws bs ss id r)
  unfolding consume_round
  stand-consume_round s n p o ws bs ss id r h =
      stand-write_scope NoOne _ _
        (stand-cancel_scopes ss _ _ (stand-end_all ws _ _ (stand-emit NoOne _ r h)))

  pub stand-add_token :
      (t : Token) (r : Run) → AllStand d NoOne r → AllStand d (λ i. i ≡ t.id) (add_token t r)
  unfolding add_token
  stand-add_token t r h = (
    h.0,
    All-append _ r.tokens (t ∷ []) (stand-except t.id r h).1 ((λ no'. absurd (no' refl)), tt),
  )

  pub stand-close_round :
      (e : Engine) (s : Scope) (n : Node) (p : JoinPolicy) (o : Outcome) (parent : ℕ) (r0 r1 : Run)
      → AllStand d NoOne r1
      → let (_, next, r') = close_round e s n p o parent r0 r1 in AllStand d (λ i. i ≡ next.id) r'
  unfolding close_round
  stand-close_round e s n p o parent r0 r1 h =
      stand-note _ _ s p o _ _ _ (
        stand-add_token _ _
          (stand-consume_round s n p o _ _ _ _ _ (stand-finish_branches s p r1 h)))

  pub stand-settled :
      (tok : Token) (i : ℕ) (r : Run)
      → AllStand d (λ j. j ≡ tok.id) r
      → Stands d tok
      → AllStand d NoOne (settled tok i r)
  unfolding settled
  stand-settled tok i r h new = stand-write_token tok _ h new

  pub stand-assign_to :
      (tok : Token) (n : Node) (to : String) (r : Run)
      → AllStand d NoOne r
      → Stands d tok
      → AllStand d NoOne (assign_to tok n to r)
  unfolding assign_to
  stand-assign_to tok n to r h new = elim (Bool-cases (to == "")) [
    | inl t ↦ rw t h
    | inr f ↦ rw f (
        stand-emit NoOne _ _
          (stand-write_token (record tok { assigned_to = to }) r (stand-except tok.id r h) new))
  ]

  stand-close_root :
      (s : Option Scope) (k : ℕ) (r : Run)
      → AllStand d NoOne r
      → AllStand d NoOne (close_root s k r)
  unfolding close_root
  stand-close_root none k r h = h
  stand-close_root (some s) k r h = stand-write_scope NoOne _ r h

  pub stand-closing :
      (tok : Token) (n : Node) (action : String) (r : Run)
      → AllStand d (λ i. i ≡ tok.id) r
      → AllStand d NoOne (closing tok n action r)
  unfolding closing
  stand-closing tok n action r h = stand-close_root _ _ _ (stand-end tok _ _ (stand-emit _ _ r h)).0

  pub stand-enter :
      (tok : Token) (tr : Transition) (comment : String) (n : Node) (r : Run)
      → AllStand d (λ i. i ≡ tok.id) r
      → AllStand d (λ i. i ≡ tok.id) (enter tok tr comment n r)
  unfolding enter
  stand-enter tok tr comment n r h =
      let t = entering tok n (next_seq r) r in
      (
        definition-write_token t _ ∙ (stand-emit (λ i. i ≡ tok.id) _ r h).0,
        rw (tokens-write_token t _) (
            put_token-All _ (λ u. (u.id ≢ tok.id) → Stands d u) t (λ no'. absurd (no' refl))
              (λ u other g. g) _ (stand-emit (λ i. i ≡ tok.id) _ r h).1),
      )

  pub stand-open_scope :
      (e : Engine) (tok : Token) (n : Node) (bs : List (Token × Transition)) (r : Run)
      → AllStand d (λ i. i ≡ tok.id) r
      → AllStand d NoOne (open_scope e tok n bs r)
  unfolding open_scope add_scope
  stand-open_scope e tok n bs r h = (stand-end tok _ _ (stand-emit _ _ r h)).0

  pub stand-park :
      (tok : Token) (n : Node) (o : Outcome) (r : Run)
      → AllStand d (λ i. i ≡ tok.id) r
      → node r.definition tok.node ≡ some n
      → is_join n.kind ≡ true
      → AllStand d NoOne (park tok n o r)
  unfolding park
  stand-park tok n o r h known joins = stand-emit NoOne _ _ (
      stand-write_token (record tok { status = TokenStatus.waiting; outcome = o }) r h
        (n, subst (λ x. node x tok.node ≡ some n) h.0 known, joins))
