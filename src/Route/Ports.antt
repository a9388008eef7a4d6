-- ===== src/Route/Ports.antt =====
-- The parts of automatic routing that do not call `route` never answer with the error that only the
-- model has, if the ports do not: workflow/run.go, workflow/move.go, workflow/operations.go.
use vogel.Prelude.{
  ℕ, ◌+◌, ◌≤◌, if◌then◌else◌, String, ◌≡◌, none, some, List, [], ◌∷◌, arith, pos, negsuc, not, ltb,
  ◌==◌, string_eq, nat_eq, inl, inr, Option-cases, ◌⊎◌, is_empty, All, All-every, true, false, refl,
}
use vogel.Errors.{
  Err, Result, ok, err, Ensures, Ensures-bind, Ensures-if, Ensures-weaken, Only, Only-bind,
  or_fail-Only,
}
use vogel.Rules.Routes.{ends_unguarded}
use vogel.Definition.{Node, Transition, transitions_from, JoinPolicy, Outcome, has_policy}
use vogel.Case.{Case, JoinRecord, Token, TokenStatus}
use vogel.Event.{Event}
use vogel.Engine.{Engine, lookup_guard, max_gateway_steps}
use vogel.Run.{Run}
use vogel.JoinPolicy.{RoundTally}
use vogel.Split.{is_parallel, resolve_route, inclusive_routes, taken_routes}
use vogel.Join.{count_round, join_check, vote}
use vogel.Settle.{full_history, deadline_for, apply_assign_rule, rest, settled, assign_to}
use vogel.Route.Depth.{PortsAnswer, Allows, Grown}

pub Grown-same :
    (r r' : Run)
    → r'.gateway_steps ≡ r.gateway_steps
    → r.gateway_steps ≤ max_gateway_steps
    → Grown r.gateway_steps r'
Grown-same r r' h below = (omega (arith, h), omega (arith, h))

module _ (E : Err → Type 0) (allows : Allows E) where
  pub join_check-Only : (e : Engine) (j : JoinRecord) → Only E (join_check e j)
  unfolding join_check
  join_check-Only e j = elim (Option-cases e.join_check) [
    | inl n ↦ rw n tt
    | inr (check, y) ↦
        rw y
          (elim (check j)
            as (λ u. Only E (elim u [ ok _ ↦ ok tt | err _ ↦ err Err.join_rejected ])) [
              | ok _ ↦ tt
              | err _ ↦ allows.rejects
            ])
  ]

  vote-Only :
      (p : JoinPolicy) (st : TokenStatus) (o : Outcome) (t : RoundTally) → Only E (vote p st o t)
  unfolding vote
  vote-Only p TokenStatus.waiting Outcome.approved t = tt
  vote-Only p TokenStatus.waiting Outcome.rejected t = tt
  vote-Only p TokenStatus.waiting Outcome.no_outcome t =
      Ensures-if E (λ _. Unit) (has_policy p) _ _ (λ _. allows.bad_outcome) (λ _. tt)
  vote-Only p TokenStatus.waiting _ t =
      Ensures-if E (λ _. Unit) (has_policy p) _ _ (λ _. allows.bad_outcome) (λ _. tt)
  vote-Only p TokenStatus.cancelled _ t = tt
  vote-Only p _ _ t = tt

  pub count_round-Only :
      (p : JoinPolicy) (id : ℕ) (toks : List Token) (t : RoundTally)
      → Only E (count_round p id toks t)
  unfolding count_round
  count_round-Only p id [] t = tt
  count_round-Only p id (tok ∷ toks) t =
      Only-bind E (λ _. Unit) (if tok.scope_id == id then vote p tok.status tok.outcome t else ok t)
        (count_round p id toks)
        (Ensures-if E (λ _. Unit) (tok.scope_id == id) _ _
          (λ _. vote-Only p tok.status tok.outcome t) (λ _. tt))
        (λ t' _. count_round-Only p id toks t')

  pub lookup_guard-Only : (e : Engine) (name : String) → Only E (lookup_guard e name)
  unfolding lookup_guard
  lookup_guard-Only e name = or_fail-Only E _ _ allows.guard_missing

  tail_ends :
      (t : Transition) (ts : List Transition)
      → (t.guard == "") ≡ false
      → ends_unguarded (t ∷ ts) ≡ true
      → ends_unguarded ts ≡ true
  tail_ends t [] guarded h = cc
  tail_ends t (u ∷ us) guarded h = h

  still_left :
      (t : Transition) (ts : List Transition)
      → (t.guard == "") ≡ false
      → E Err.no_route ⊎ (ends_unguarded (t ∷ ts) ≡ true)
      → E Err.no_route ⊎ (ends_unguarded ts ≡ true)
  still_left t ts guarded (inl h) = inl h
  still_left t ts guarded (inr h) = inr (tail_ends t ts guarded h)

  either-All :
      (P : Transition → Type 0) (xs ys : List Transition)
      → All P xs
      → All P ys
      → All P (if is_empty xs then ys else xs)
  either-All P [] ys hx hy = hy
  either-All P (x ∷ xs) ys hx hy = hx

  either-some :
      (xs ys : List Transition)
      → is_empty ys ≡ false
      → is_empty (if is_empty xs then ys else xs) ≡ false
  either-some [] ys h = h
  either-some (x ∷ xs) ys h = refl

  module _ (e : Engine) (stored : Result (List Event)) (ports : PortsAnswer E e stored) where
    -- The routes that resolveRoute and the loop of an inclusive split choose are among those they were
    -- given, and some are left where the last one has no guard.
    pub resolve_route-Among :
        (P : Transition → Type 0) (trs : List Transition) (c : Case)
        → All P trs
        → E Err.no_route ⊎ (ends_unguarded trs ≡ true)
        → Ensures E P (resolve_route e trs c)
    unfolding resolve_route
    resolve_route-Among P [] c all (inl h) = h
    resolve_route-Among P [] c all (inr h) = cc
    resolve_route-Among P (t ∷ ts) c all left =
        Ensures-if E P (t.guard == "") _ _ (λ _. all.0)
          λ guarded.
            Only-bind E P (lookup_guard e t.guard) _ (lookup_guard-Only e t.guard) λ g found.
              Only-bind E P (g c) _ (ports.guards t.guard g c found) λ passes _.
                Ensures-if E P passes _ _ (λ _. all.0)
                  (λ _. resolve_route-Among P ts c all.1 (still_left t ts guarded left))

    abbrev pub Chosen :
        (Transition → Type 0) → List Transition → List Transition × List Transition → Type 0
    Chosen P trs p = All P p.0 × All P p.1 × (ends_unguarded trs ≡ true → is_empty p.1 ≡ false)

    pub inclusive_routes-Chosen :
        (P : Transition → Type 0) (trs : List Transition) (c : Case)
        → All P trs
        → Ensures E (Chosen P trs) (inclusive_routes e trs c)
    unfolding inclusive_routes
    inclusive_routes-Chosen P [] c all = (tt, tt, λ h. cc)
    inclusive_routes-Chosen P (t ∷ ts) c all =
        let later = inclusive_routes-Chosen P ts c all.1 in
        Ensures-if E (Chosen P (t ∷ ts)) (t.guard == "") _ _
          (λ _.
            Ensures-bind E (Chosen P ts) (Chosen P (t ∷ ts)) (inclusive_routes e ts c) _ later
              (λ p _ h. (h.0, (all.0, h.1), λ _. refl)))
          λ guarded.
            Only-bind E (Chosen P (t ∷ ts)) (lookup_guard e t.guard) _ (lookup_guard-Only e t.guard)
              λ g found.
                Only-bind E (Chosen P (t ∷ ts)) (g c) _ (ports.guards t.guard g c found) λ passes _.
                  Ensures-if E (Chosen P (t ∷ ts)) passes _ _
                    (λ _.
                      Ensures-bind E (Chosen P ts) (Chosen P (t ∷ ts)) (inclusive_routes e ts c) _
                        later (λ p _ h. ((all.0, h.0), h.1, λ x. h.2 (tail_ends t ts guarded x))))
                    (λ _.
                      Ensures-weaken E (Chosen P ts) (Chosen P (t ∷ ts)) (inclusive_routes e ts c)
                        (λ p h. (h.0, h.1, λ x. h.2 (tail_ends t ts guarded x))) later)

    -- The routes that a split takes, from where there are some to take.
    pub taken_routes-Among :
        (P : Transition → Type 0) (tok : Token) (n : Node) (r : Run)
        → All P (transitions_from r.definition n.id)
        → Ensures E
            (λ ts.
              All P ts
              × (is_parallel n.kind ≡ false
                  → ends_unguarded (transitions_from r.definition n.id) ≡ true
                  → is_empty ts ≡ false)
              × (is_parallel n.kind ≡ true → ts ≡ transitions_from r.definition n.id))
            (taken_routes e tok n r)
    unfolding taken_routes
    taken_routes-Among P tok n r all =
        Ensures-if E _ (is_parallel n.kind) _ _ (λ y. (all, λ f. cc, λ _. refl))
          λ serial.
            Ensures-bind E (Chosen P (transitions_from r.definition n.id)) _
              (inclusive_routes e _ _) _
              (inclusive_routes-Chosen P (transitions_from r.definition n.id) _ all)
              λ p _ h. (either-All P p.0 p.1 h.0 h.1, λ _ x. either-some p.0 p.1 (h.2 x), λ y. cc)

    pub resolve_route-Only :
        (trs : List Transition) (c : Case) → E Err.no_route → Only E (resolve_route e trs c)
    resolve_route-Only trs c h =
        resolve_route-Among (λ _. Unit) trs c (All-every _ trs (λ _. tt)) (inl h)

    pub taken_routes-Only : (tok : Token) (n : Node) (r : Run) → Only E (taken_routes e tok n r)
    taken_routes-Only tok n r =
        Ensures-weaken E _ (λ _. Unit) (taken_routes e tok n r) (λ _ _. tt)
          (taken_routes-Among (λ _. Unit) tok n r (All-every _ _ (λ _. tt)))

    deadline_for-Only :
        (n : Node) (from : ℕ) (c : Case) (tok : Token) → Only E (deadline_for e stored n from c tok)
    unfolding deadline_for
    deadline_for-Only n from c tok =
        Ensures-if E (λ _. Unit) (not (n.deadline_rule == "")) _ _
          (λ _. elim (Option-cases e.deadlines) [
            | inl none' ↦ rw none' allows.deadline_missing
            | inr (due, found) ↦
                rw found
                  (Only-bind E (λ _. Unit) (due _) _ (ports.deadlines due _ found) (λ _ _. tt))
          ])
          (λ _.
            elim n.deadline
              as (λ d. Only E (elim d [
                | pos duration ↦ if ltb 0 duration then ok (some (from + duration)) else ok none
                | negsuc _ ↦ ok none
              ])) [
                | pos k ↦ Ensures-if E (λ _. Unit) (ltb 0 k) _ _ (λ _. tt) (λ _. tt)
                | negsuc k ↦ tt
              ])

    -- A token at rest: what holds of the state with it holds of what the call returns.
    pub rest-Ensures :
        (Q : Run → Type 0) (tok : Token) (n : Node) (h : ℕ) (r : Run)
        → ((t : Token) → Q (settled t h r))
        → ((t : Token) (to : String) → Q (assign_to t n to (settled t h r)))
        → Ensures E Q (rest e stored tok n h r)
    unfolding rest apply_assign_rule full_history
    rest-Ensures Q tok n h r plain assigned =
        Only-bind E Q (deadline_for e stored n r.now r.case _) _
          (deadline_for-Only n r.now r.case _)
          λ deadline _.
            Ensures-if E Q (n.assign_rule == "") _ _ (λ _. plain _)
              λ _. elim (Option-cases e.assignees) [
                | inl none' ↦ rw none' allows.assign_missing
                | inr (assignee, found) ↦ rw found (
                    Only-bind E Q _ _ (Only-bind E (λ _. Unit) stored _ ports.history (λ _ _. tt))
                      λ history _.
                        Only-bind E Q (assignee _) _ (ports.assignees assignee _ found)
                          λ to _. assigned _ to)
              ]
