-- ===== src/JoinPolicy/Results.antt =====
-- workflow/joinpolicy.go: JoinResults, which reads the rounds of a case back from its history.
use vogel.Prelude.{
  ℕ, ltb, String, Bool, true, false, Option, none, some, List, [], ◌∷◌, sort_by, ◌==◌, nat_eq,
  if◌then◌else◌,
}
use vogel.Errors.{Err, Result, ok, ◌>>=◌, or_fail}
use vogel.Definition.{JoinPolicy, has_policy, Outcome}
use vogel.Case.{Actor, BranchResult}
use vogel.Event.{Event, EventKind, Detail}
use vogel.Store.{Db, get_by_id}
use vogel.History.{events_of}

pub record JoinBranch : Type 0 where
  pub result : BranchResult
  pub actor : Actor
  pub comment : String
  pub cause : String

pub record RoundResult : Type 0 where
  pub scope : ℕ
  pub join_node : String
  pub policy : JoinPolicy
  pub verdict : Outcome
  pub seq : ℕ
  pub branches : List JoinBranch

-- branchCause, on the details that the engine writes for these kinds; a key that is missing is "".
unfoldable pub branch_cause : EventKind → Detail → String
branch_cause EventKind.moved (Detail.cause c) = c
branch_cause EventKind.token_cancelled (Detail.cancel reason) = reason
branch_cause _ _ = ""

-- `bySeq[seq]`: the last event of that Seq.
unfoldable pub by_seq : ℕ → List Event → Option Event
by_seq seq [] = none
by_seq seq (v ∷ vs) =
    let later = by_seq seq vs in
    elim later [ some w ↦ some w | none ↦ if v.seq == seq then some v else none ]

abbrev pub join_branch : BranchResult → Event → JoinBranch
join_branch b v = record {
  result = b;
  actor = v.actor;
  comment = v.comment;
  cause = branch_cause v.kind v.detail;
}

unfoldable pub join_branches : List Event → List BranchResult → Result (List JoinBranch)
join_branches events [] = ok []
join_branches events (b ∷ bs) = do
  v ← or_fail (by_seq b.seq events) Err.missing_event
  rest ← join_branches events bs
  ok (join_branch b v ∷ rest)

abbrev pub is_joined : EventKind → Bool
is_joined EventKind.joined = true
is_joined _ = false

-- The result of one event, none for an event of another kind or a join without a policy.
unfoldable pub round_of : List Event → Event → Detail → Result (Option RoundResult)
round_of events v (Detail.join scope at tokens policy verdict branches) =
    if has_policy policy
    then (do
      views ← join_branches events branches
      ok (
          some (record {
            scope = scope;
            join_node = at;
            policy = policy;
            verdict = verdict;
            seq = v.seq;
            branches = views;
          })))
    else ok none
round_of events v _ = ok none

abbrev pub add_round : Option RoundResult → List RoundResult → List RoundResult
add_round none rs = rs
add_round (some r) rs = r ∷ rs

unfoldable pub rounds_of : List Event → List Event → Result (List RoundResult)
rounds_of events [] = ok []
rounds_of events (v ∷ vs) =
    let later = rounds_of events vs in
    do
      r ← (if is_joined v.kind then round_of events v v.detail else ok none)
      rs ← later
      ok (add_round r rs)

abbrev pub earlier : RoundResult → RoundResult → Bool
earlier a b = ltb a.seq b.seq

-- Engine.JoinResults
unfoldable pub join_results : ℕ → Db → Result (List RoundResult)
join_results id db = do
  c ← get_by_id id db
  events ← events_of id db
  rounds ← rounds_of events events
  ok (sort_by earlier rounds)
