-- ===== src/JoinPolicy/Verdict.antt =====
-- JoinPolicy.closes (workflow/joinpolicy.go) decides a round as soon as its votes settle it and no
-- sooner.
use vogel.Prelude.{ℕ, ◌+◌, ◌≤◌, ◌<◌, true, false, ◌≡◌, arith, nat_eq, ◌⊎◌}
use vogel.Definition.{JoinPolicy, Outcome}
use vogel.JoinPolicy.{RoundTally, closes}

abbrev pub tallied : RoundTally → ℕ
tallied t = t.approved + t.rejected + t.cancelled

-- The votes of `t'` include those of `t`, and none is over what the round expects.
pub record Later (t t' : RoundTally) : Type 0 where
  pub approved : t.approved ≤ t'.approved
  pub rejected : t.rejected ≤ t'.rejected
  pub cancelled : t.cancelled ≤ t'.cancelled
  pub expected : t'.expected ≡ t.expected
  pub fits : tallied t' ≤ t'.expected

-- A round that closes stays closed with the same verdict, whatever votes come after: under every
-- policy, every later tally of the same round that no more branches vote in than it expects gives
-- the answer that the first closing one gave.
pub closes-stable :
    (p : JoinPolicy) (t t' : RoundTally)
    → Later t t'
    → (closes p t).0 ≡ true
    → closes p t' ≡ closes p t
unfolding closes
closes-stable JoinPolicy.no_policy t t' later shut = cc
closes-stable JoinPolicy.all_approve t t' later shut = ground arith
closes-stable JoinPolicy.any_approve t t' later shut = ground arith
closes-stable JoinPolicy.collect t t' later shut = ground arith
closes-stable (JoinPolicy.unknown s) t t' later shut = cc

abbrev pub all_approving : RoundTally → ℕ → RoundTally
all_approving t k = record t { approved = t.approved + k }

abbrev pub all_rejecting : RoundTally → ℕ → RoundTally
all_rejecting t k = record t { rejected = t.rejected + k }

-- Under all_approve and any_approve a round that does not close is undecided: while `k` branches,
-- at least one, are still to vote, it would close as approved if they all approved and as rejected
-- if they all rejected.
closes-undecided :
    (p : JoinPolicy) (t : RoundTally) (k : ℕ)
    → (p ≡ JoinPolicy.all_approve) ⊎ (p ≡ JoinPolicy.any_approve)
    → (closes p t).0 ≡ false
    → 0 < k
    → tallied t + k ≡ t.expected
    → (closes p (all_approving t k) ≡ (true, Outcome.approved))
      × (closes p (all_rejecting t k) ≡ (true, Outcome.rejected))
unfolding closes
closes-undecided JoinPolicy.all_approve t k votes still some' rest = (ground arith, ground arith)
closes-undecided JoinPolicy.any_approve t k votes still some' rest = (ground arith, ground arith)
closes-undecided JoinPolicy.no_policy t k votes still some' rest = ground arith
closes-undecided JoinPolicy.collect t k votes still some' rest = ground arith
closes-undecided (JoinPolicy.unknown s) t k votes still some' rest = ground arith
