-- ===== src/JoinPolicy.antt =====
-- workflow/joinpolicy.go, the run-time half: when a round closes and with what verdict, and how a
-- policy finishes the branches still pending. `childOnPath` walks towards the root by `parent_id`;
-- its fuel is the scope's `opened_seq`, which falls at each step in a stored case.
pub mod Verdict
pub mod Results
pub mod Recorded
pub mod Tests
use vogel.Prelude.{
  ℕ, zero, suc, ◌+◌, String, Bool, true, false, ◌&&◌, ◌||◌, Option, none, some, List, [], ◌∷◌, ◌++◌,
  map, filter, sort_by, ltb, ◌==◌, string_eq, nat_eq, if◌then◌else◌, str_append,
}
use vogel.Definition.{JoinPolicy, Outcome}
use vogel.Case.{Case, Token, TokenStatus, live, is_active, Scope, is_opened, BranchResult}
use vogel.Event.{EventKind, Event, Detail, event}
use vogel.Run.{Run, scope, emit, end, contains, next_seq}

-- roundTally
pub record RoundTally : Type 0 where
  pub approved : ℕ
  pub rejected : ℕ
  pub cancelled : ℕ
  pub expected : ℕ

abbrev complete : RoundTally → Bool
complete t =
    let waiting = t.approved + t.rejected in ltb 0 waiting && (waiting + t.cancelled == t.expected)

-- JoinPolicy.closes
unfoldable pub closes : JoinPolicy → RoundTally → Bool × Outcome
closes JoinPolicy.all_approve t =
    if ltb 0 t.rejected
    then (true, Outcome.rejected)
    else if complete t
    then (true, Outcome.approved)
    else (false, Outcome.no_outcome)
closes JoinPolicy.any_approve t =
    if ltb 0 t.approved
    then (true, Outcome.approved)
    else if complete t
    then (true, Outcome.rejected)
    else (false, Outcome.no_outcome)
closes JoinPolicy.collect t = (complete t, Outcome.no_outcome)
closes _ t = (false, Outcome.no_outcome)

-- JoinRejected, a GuardFunc.
is_rejected : Outcome → Bool
is_rejected Outcome.rejected = true
is_rejected _ = false

unfoldable pub join_rejected : Case → Bool
unfolding is_rejected
join_rejected c = elim c.join_result [ none ↦ false | some j ↦ is_rejected j.verdict ]

-- caseRun.childOnPath
unfoldable pub child_on_path : ℕ → Scope → ℕ → Run → Option Scope
child_on_path zero s ancestor r = none
child_on_path (suc fuel) s ancestor r = elim (is_opened s.status) [
  | false ↦ none
  | true ↦ elim s.parent_id [
    | none ↦ none
    | some parent ↦ elim (parent == ancestor) [
      | true ↦ some s
      | false ↦ elim (scope parent r) [ none ↦ none | some up ↦ child_on_path fuel up ancestor r ]
    ]
  ]
]

-- The scopes open inside `outer`, each with the identifier of the direct child it lies in:
-- `nested` and `branchOf`.
unfoldable pub nested_scopes : List Scope → Scope → Run → List (Scope × ℕ)
nested_scopes [] outer r = []
nested_scopes (s ∷ ss) outer r =
    let rest = nested_scopes ss outer r in
    if is_opened s.status
    then elim (child_on_path (suc s.opened_seq) s outer.id r) [
      | none ↦ rest
      | some child ↦ (s, child.id) ∷ rest
    ]
    else rest

branch_of : ℕ → List (Scope × ℕ) → Option ℕ
branch_of id [] = none
branch_of id ((s, child) ∷ rest) = if s.id == id then some child else branch_of id rest

is_pending : Scope → List (Scope × ℕ) → Token → Bool
unfolding branch_of
is_pending outer nested t =
    (t.scope_id == outer.id && is_active t.status)
    || elim (branch_of t.scope_id nested) [ none ↦ false | some child ↦ live t.status ]

-- sortTokens (queries.go): by EnteredSeq, then ID.
unfoldable pub token_before : Token → Token → Bool
token_before a b =
    if a.entered_seq == b.entered_seq then ltb a.id b.id else ltb a.entered_seq b.entered_seq

unfoldable pub sort_tokens : List Token → List Token
sort_tokens = sort_by token_before

abbrev pub cancel_event : String → Token → Event
cancel_event reason t = record (event EventKind.token_cancelled t.id t.scope_id t.node t.node) {
  detail = Detail.cancel reason;
}

-- A nested branch is reported once, by the first token cancelled in it.
report : Token → ℕ → Option ℕ → List ℕ → List BranchResult → List ℕ × List BranchResult
report t seq none reported branches = (reported, branches)
report t seq (some child) reported branches =
    if contains reported child then (reported, branches) else (
      child ∷ reported,
      branches ++ record { token = t.id; outcome = Outcome.unanswered; seq = seq } ∷ [],
    )

-- The loop of closeBranches over the pending tokens.
unfoldable pub cancel_pending :
    String
    → List (Scope × ℕ)
    → List ℕ
    → List BranchResult
    → List Token
    → Run
    → List BranchResult × Run
unfolding report branch_of
cancel_pending reason nested reported branches [] r = (branches, r)
cancel_pending reason nested reported branches (t ∷ ts) r =
    let seq = next_seq r in
    let (reported', branches') = report t seq (branch_of t.scope_id nested) reported branches in
    cancel_pending reason nested reported' branches' ts
      (end t TokenStatus.cancelled seq (emit (cancel_event reason t) r))

-- What a token of the round itself reports.
own_result : Token → TokenStatus → List BranchResult
own_result t TokenStatus.waiting =
    record { token = t.id; outcome = t.outcome; seq = t.entered_seq } ∷ []
own_result t TokenStatus.cancelled =
    record { token = t.id; outcome = Outcome.unanswered; seq = t.ended_seq } ∷ []
own_result t _ = []

own_results : ℕ → List Token → List BranchResult
unfolding own_result
own_results id [] = []
own_results id (t ∷ ts) =
    let rest = own_results id ts in if t.scope_id == id then own_result t t.status ++ rest else rest

unfoldable pub policy_text : JoinPolicy → String
policy_text JoinPolicy.no_policy = ""
policy_text JoinPolicy.all_approve = "all_approve"
policy_text JoinPolicy.any_approve = "any_approve"
policy_text JoinPolicy.collect = "collect"
policy_text (JoinPolicy.unknown s) = s

abbrev pub pending_tokens : Scope → Run → List Token
unfolding is_pending
pending_tokens outer r =
    sort_tokens (filter (is_pending outer (nested_scopes r.scopes outer r)) r.tokens)

-- caseRun.closeBranches: the branches by Seq, and the nested scopes.
unfoldable pub close_branches : Scope → JoinPolicy → Run → List BranchResult × List Scope × Run
unfolding own_results is_pending
close_branches outer policy r =
    let nested = nested_scopes r.scopes outer r in
    let (branches, r') =
      cancel_pending (str_append "join_policy:" (policy_text policy)) nested [] []
        (pending_tokens outer r) r in
    (
      sort_by (λ (a b : BranchResult). ltb a.seq b.seq)
          (branches ++ own_results outer.id r'.tokens),
      map (λ (p : Scope × ℕ). p.0) nested,
      r',
    )
