-- ===== src/Rules/Policies.antt =====
-- workflow/joinpolicy.go: validateJoinPolicies, checkBranchOutcomes, checkRejectedRoute, reaches.
use vogel.Prelude.{
  ℕ, zero, suc, String, Bool, true, false, not, ◌&&◌, ◌||◌, Option, none, some, List, [], ◌∷◌, ◌++◌,
  any, length, ◌==◌, string_eq, if◌then◌else◌,
}
use vogel.Definition.{
  Definition, Node, Transition, JoinPolicy, has_policy, Outcome, is_automatic, is_decision, is_join,
  transitions_from,
}
use vogel.Rules.{
  Rule, Violation, at_node, at_transition, report_if, concat, concat_map, node_by_id, node_has,
  outgoing, needs_comment, is_join_policy, is_parallel_split, is_inclusive_split, has_outcome,
}
use vogel.Rules.Reach.{Visit, offer_all, start_at, targets}
use vogel.Rules.Blocks.{Branch, Block, build_block}

-- `reaches`, which stops at the node it looks for.
unfoldable pub reaches_by : Definition → String → ℕ → Visit → Bool
reaches_by d to zero v = false
reaches_by d to (suc fuel) v = elim v.queue [
  | [] ↦ false
  | id ∷ rest ↦
      let later =
        reaches_by d to fuel
          (offer_all (targets (outgoing d id)) (record { seen = v.seen; queue = rest })) in
      id == to || later
]

unfoldable pub reaches : Definition → String → String → Bool
reaches d from to = reaches_by d to (suc (length d.transitions)) (start_at from)

abbrev pub is_approved : Outcome → Bool
is_approved Outcome.approved = true
is_approved _ = false

abbrev pub is_rejected : Outcome → Bool
is_rejected Outcome.rejected = true
is_rejected _ = false

abbrev pub is_collect : JoinPolicy → Bool
is_collect JoinPolicy.collect = true
is_collect _ = false

-- `JoinAllApprove` or `JoinAnyApprove`
abbrev pub is_verdict : JoinPolicy → Bool
is_verdict JoinPolicy.all_approve = true
is_verdict JoinPolicy.any_approve = true
is_verdict _ = false

-- Whether a transition out of the branch into the join has such an outcome.
unfoldable pub answers : Definition → Block → (Outcome → Bool) → List String → Bool
answers d b p ids =
    any (λ (id : String). any (λ (t : Transition). t.to == b.join && p t.outcome) (outgoing d id))
      ids

unfoldable pub check_branch_outcomes : Definition → Block → List Violation
check_branch_outcomes d b =
    concat_map
      (λ (r : Branch).
        report_if (not (answers d b is_approved r.order) || not (answers d b is_rejected r.order))
          (at_node Rule.branch_outcomes b.split.id))
      b.branches

unfoldable pub check_rejected_route : Definition → Node → Node → List Transition → List Violation
check_rejected_route d split join (t ∷ []) =
    report_if
      (node_has (λ n. is_decision n.kind) (node_by_id d t.to)
        && not (
            any (λ (r : Transition). not (r.guard == "") && reaches d r.to split.id)
              (outgoing d t.to)))
      (at_node Rule.no_way_back join.id)
check_rejected_route d split join _ = []

parallel_check : Definition → Node → Option Node → List Violation
parallel_check d n none = []
parallel_check d n (some join) =
    if not (is_join join.kind) || not (has_policy join.join_policy)
    then []
    else (check_branch_outcomes d (build_block d n)
        ++ (if is_verdict join.join_policy
            then check_rejected_route d n join (outgoing d join.id)
            else []))

unfoldable pub parallel_checks : Definition → List Violation
unfolding parallel_check
parallel_checks d =
    concat_map
      (λ (n : Node).
        if is_parallel_split n.kind then parallel_check d n (node_by_id d n.join) else [])
      d.nodes

target_check : Node → Option Node → List Violation
target_check n none = []
target_check n (some to) =
    if is_collect n.join_policy
    then report_if (is_automatic to.kind || to.terminal) (at_node Rule.collect_target n.id)
    else report_if (is_verdict n.join_policy && not (is_decision to.kind))
        (at_node Rule.verdict_target n.id)

unfoldable pub policy_checks : Definition → List Violation
unfolding target_check
policy_checks d =
    concat_map
      (λ (n : Node).
        if not (has_policy n.join_policy)
        then []
        else if not (is_join n.kind)
        then at_node Rule.policy_without_join n.id ∷ []
        else (report_if (not (is_join_policy n.join_policy)) (at_node Rule.invalid_policy n.id)
            ++ concat_map (λ (t : Transition). target_check n (node_by_id d t.to))
                (transitions_from d n.id)))
      d.nodes

abbrev policy_join : Option Node → Bool
policy_join n = node_has (λ j. is_join j.kind && has_policy j.join_policy) n

unfoldable pub inclusive_checks : Definition → List Violation
inclusive_checks d =
    concat_map
      (λ (n : Node).
        report_if (is_inclusive_split n.kind && policy_join (node_by_id d n.join))
          (at_node Rule.inclusive_policy n.join))
      d.nodes

-- The last switch: the outcome of a transition into a join with a policy.
unfoldable pub answer_checks : ℕ → Transition → JoinPolicy → Outcome → List Violation
answer_checks i t p Outcome.approved = []
answer_checks i t p Outcome.rejected =
    report_if (not (is_collect p) && not (needs_comment t.comment))
      (at_transition Rule.rejected_comment i)
answer_checks i t p Outcome.no_outcome = at_transition Rule.missing_outcome i ∷ []
answer_checks i t p _ = at_transition Rule.invalid_outcome i ∷ []

outcome_check : Definition → ℕ → Transition → Option Node → List Violation
outcome_check d i t none = []
outcome_check d i t (some to) =
    if not (is_join to.kind) || not (has_policy to.join_policy)
    then report_if (has_outcome t.outcome) (at_transition Rule.stray_outcome i)
    else (report_if (node_has (λ n. is_automatic n.kind) (node_by_id d t.from))
          (at_transition Rule.policy_from_automatic i)
        ++ answer_checks i t to.join_policy t.outcome)

unfoldable pub outcome_checks : Definition → ℕ → List Transition → List Violation
unfolding outcome_check
outcome_checks d i [] = []
outcome_checks d i (t ∷ ts) = outcome_check d i t (node_by_id d t.to) ++ outcome_checks d (suc i) ts

-- validateJoinPolicies
unfoldable pub policies_checks : Definition → List Violation
policies_checks d = concat (
    parallel_checks d
    ∷ policy_checks d
    ∷ inclusive_checks d
    ∷ outcome_checks d 0 d.transitions
    ∷ [])
