-- ===== src/Join.antt =====
-- workflow/run.go: a token's arrival at its join, and the join firing (Engine.arrive, tryJoin,
-- caseRun.noteJoinResult).
pub mod Tally
pub mod Tests
use vogel.Prelude.{
  ℕ, ◌+◌, String, Bool, true, false, not, ◌&&◌, Option, none, some, List, [], ◌∷◌, ◌++◌, map,
  filter, length, ◌==◌, string_eq, nat_eq, if◌then◌else◌,
}
use vogel.Errors.{Err, Result, ok, err, ◌>>=◌, ◌>>◌, fail_if, or_fail}
use vogel.Definition.{
  Node, node, Transition, transitions_from, JoinPolicy, has_policy, Outcome, no_eligibility,
}
use vogel.Case.{
  Token, TokenStatus, is_waiting, Scope, ScopeStatus, is_opened, JoinRecord, BranchResult,
}
use vogel.Event.{EventKind, Detail, event}
use vogel.Engine.{Engine}
use vogel.Run.{
  Run, Route, emit, end, ended, write_token, write_scope, add_token, scope, gateway_step, next_seq,
}
use vogel.JoinPolicy.{RoundTally, closes, close_branches}

is_no_outcome : Outcome → Bool
is_no_outcome Outcome.no_outcome = true
is_no_outcome _ = false

unfoldable pub join_policy_of : Option Node → JoinPolicy
join_policy_of none = JoinPolicy.no_policy
join_policy_of (some n) = n.join_policy

unfoldable pub the_only : List Transition → Result Transition
the_only (tr ∷ []) = ok tr
the_only _ = err Err.bad_join

-- A token of the round, counted by tryJoin's loop.
unfoldable pub vote : JoinPolicy → TokenStatus → Outcome → RoundTally → Result RoundTally
vote p TokenStatus.waiting Outcome.approved t = ok (record t { approved = t.approved + 1 })
vote p TokenStatus.waiting Outcome.rejected t = ok (record t { rejected = t.rejected + 1 })
vote p TokenStatus.waiting _ t = if has_policy p then err Err.invalid_outcome else ok t
vote p TokenStatus.cancelled _ t = ok (record t { cancelled = t.cancelled + 1 })
vote p _ _ t = ok t

unfoldable pub count_round : JoinPolicy → ℕ → List Token → RoundTally → Result RoundTally
count_round p id [] t = ok t
count_round p id (tok ∷ toks) t = do
  t' ← (if tok.scope_id == id then vote p tok.status tok.outcome t else ok t)
  count_round p id toks t'

abbrev pub waiting_tokens : Scope → Run → List Token
waiting_tokens s run = filter (λ (t : Token). t.scope_id == s.id && is_waiting t.status) run.tokens

-- Whether the round closes, and its verdict: with no policy, once every branch has arrived.
unfoldable pub round_closes : JoinPolicy → ℕ → RoundTally → Bool × Outcome
round_closes JoinPolicy.no_policy waiting t =
    (not (waiting == 0) && (waiting + t.cancelled == t.expected), Outcome.no_outcome)
round_closes p waiting t = closes p t

unfoldable pub end_all : List Token → ℕ → Run → Run
end_all [] seq run = run
end_all (t ∷ ts) seq run = end_all ts seq (end t TokenStatus.consumed seq run)

unfoldable pub cancel_scopes : List Scope → ℕ → Run → Run
cancel_scopes [] seq run = run
cancel_scopes (s ∷ ss) seq run =
    cancel_scopes ss seq
      (write_scope (record s { status = ScopeStatus.cancelled; closed_seq = seq }) run)

-- `policy != ""`: finish the branches still pending.
unfoldable pub finish_branches : Scope → JoinPolicy → Run → List BranchResult × List Scope × Run
finish_branches s JoinPolicy.no_policy run = ([], [], run)
finish_branches s p run = close_branches s p run

unfoldable pub join_check : Engine → JoinRecord → Result (Unit {0})
join_check e rec = elim e.join_check [
  | none ↦ ok tt
  | some check ↦ elim (check rec) [ ok _ ↦ ok tt | err _ ↦ err Err.join_rejected ]
]

unfoldable pub note_join_result :
    ℕ → Scope → JoinPolicy → Outcome → ℕ → List BranchResult → Run → Run
note_join_result next s JoinPolicy.no_policy verdict seq branches run = run
note_join_result next s policy verdict seq branches run = record run {
  join_results =
      (
        next,
        record {
          scope = s.id;
          join_node = s.join_node;
          policy = policy;
          verdict = verdict;
          seq = seq;
          branches = branches;
        },
      )
      ∷ run.join_results;
}

-- The token that continues in the parent scope.
unfoldable pub continuation : ℕ → ℕ → ℕ → String → Token
continuation id case_id scope_id at = record {
  id = id;
  case_id = case_id;
  scope_id = scope_id;
  node = at;
  status = TokenStatus.active;
  eligible = no_eligibility;
  assigned_to = "";
  deadline_at = none;
  expired_deadline = none;
  entered_seq = 0;
  entered_at = 0;
  ended_seq = 0;
  ended_at = none;
  outcome = Outcome.no_outcome;
}

-- Records the join, consumes the waiting tokens and closes the scopes; `id` is the new token's.
unfoldable pub consume_round :
    Scope
    → Node
    → JoinPolicy
    → Outcome
    → List Token
    → List BranchResult
    → List Scope
    → ℕ
    → Run
    → Run
consume_round s n policy verdict waiting branches nested id run =
    let seq = next_seq run in
    let joined =
      emit
        (record (event EventKind.joined id s.id n.id n.id) {
          detail =
              Detail.join s.id n.id (map (λ (t : Token). t.id) waiting) policy verdict branches;
        })
        run in
    write_scope (record s { status = ScopeStatus.joined; closed_seq = seq })
      (cancel_scopes nested seq (end_all waiting seq joined))

-- What a join that fires leaves behind: its record, the token that continues in the parent scope,
-- and the run before that token is routed. `run0` is the run before its gateway step `run1`.
unfoldable pub close_round :
    Engine → Scope → Node → JoinPolicy → Outcome → ℕ → Run → Run → JoinRecord × Token × Run
unfolding finish_branches note_join_result continuation
close_round e s n policy verdict parent run0 run1 =
    let waiting = waiting_tokens s run0 in
    let (branches, nested, run2) = finish_branches s policy run1 in
    let id = e.uuid run2.drawn in
    let seq = next_seq run2 in
    let run3 = consume_round s n policy verdict waiting branches nested id run2 in
    let joined : JoinRecord = record {
      scope = record s { status = ScopeStatus.joined; closed_seq = seq };
      tokens = map (ended run2 TokenStatus.consumed seq) waiting;
      verdict = verdict;
      branches = branches;
    } in
    let next = continuation id run3.case.id parent n.id in
    (
      joined,
      next,
      note_join_result id s policy verdict seq branches (
          add_token next
            (record run3 { joined = run3.joined ++ joined ∷ []; drawn = run3.drawn + 1 })),
    )

-- The token waiting at its join, and the event that records it.
unfoldable pub park : Token → Node → Outcome → Run → Run
unfolding is_no_outcome
park tok n outcome run =
    emit
      (record (event EventKind.waiting tok.id tok.scope_id n.id n.id) {
        detail = if is_no_outcome outcome then Detail.empty else Detail.waiting outcome;
      })
      (write_token (record tok { status = TokenStatus.waiting; outcome = outcome }) run)

module _ (e : Engine) where
  -- tryJoin, once the round closes.
  unfoldable pub fire : Route → Scope → Option Node → JoinPolicy → Outcome → Run → Result Run
  fire rec s n' policy verdict run0 = do
    run1 ← gateway_step run0
    n ← or_fail n' Err.node_not_found
    out ← the_only (transitions_from run1.definition n.id)
    parent ← or_fail s.parent_id Err.nil_dereference
    let (joined, next, run) = close_round e s n policy verdict parent run0 run1
    join_check e joined
    rec next out "" 0 run

  -- Engine.tryJoin
  unfoldable pub try_join : Route → Scope → Run → Result Run
  try_join rec s run = if not (is_opened s.status) then ok run else do
    let n = node run.definition s.join_node
    let policy = join_policy_of n
    tally ←
        count_round policy s.id run.tokens
          (record { approved = 0; rejected = 0; cancelled = 0; expected = s.expected })
    let (closing, verdict) = round_closes policy (length (waiting_tokens s run)) tally
    if closing then fire rec s n policy verdict run else ok run

  -- Engine.arrive
  unfoldable pub arrive : Route → Token → Node → Outcome → Run → Result Run
  arrive rec tok n outcome run = do
    s ← or_fail (scope tok.scope_id run) Err.outside_block
    fail_if (not (s.join_node == n.id)) Err.outside_block
    try_join rec s (park tok n outcome run)
