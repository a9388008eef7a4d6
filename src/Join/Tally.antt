-- ===== src/Join/Tally.antt =====
-- The votes that a join counts (workflow/run.go: the loop of tryJoin).
use vogel.Prelude.{
  ℕ, ◌+◌, ◌≡◌, refl, ◌∙◌, inl, inr, List, [], ◌∷◌, arith, ◌==◌, nat_eq, Bool-cases, if◌then◌else◌,
}
use vogel.Errors.{Returns, Returns-if, Ensures-bind, Ensures-weaken, AnyErr}
use vogel.Definition.{JoinPolicy, Outcome, has_policy}
use vogel.Case.{Token, TokenStatus}
use vogel.JoinPolicy.{RoundTally}
use vogel.Join.{vote, count_round}

abbrev pub approvals : TokenStatus → Outcome → ℕ
approvals TokenStatus.waiting Outcome.approved = 1
approvals _ _ = 0

abbrev pub rejections : TokenStatus → Outcome → ℕ
rejections TokenStatus.waiting Outcome.rejected = 1
rejections _ _ = 0

abbrev pub cancellations : TokenStatus → Outcome → ℕ
cancellations TokenStatus.cancelled _ = 1
cancellations _ _ = 0

-- How many of the tokens of a scope count as `f` says.
abbrev pub number : (TokenStatus → Outcome → ℕ) → ℕ → List Token → ℕ
number f id [] = 0
number f id (t ∷ ts) =
    let rest = number f id ts in if t.scope_id == id then f t.status t.outcome + rest else rest

-- `t'` is `t` with the numbers given added.
pub record Adds (a r c : ℕ) (t t' : RoundTally) : Type 0 where
  pub approved : t'.approved ≡ t.approved + a
  pub rejected : t'.rejected ≡ t.rejected + r
  pub cancelled : t'.cancelled ≡ t.cancelled + c
  pub expected : t'.expected ≡ t.expected

Adds-none : (t : RoundTally) → Adds 0 0 0 t t
Adds-none t = record {
  approved = omega arith;
  rejected = omega arith;
  cancelled = omega arith;
  expected = refl;
}

Adds-more :
    (a r c a' r' c' : ℕ) (t u v : RoundTally)
    → Adds a r c t u
    → Adds a' r' c' u v
    → Adds (a + a') (r + r') (c + c') t v
Adds-more a r c a' r' c' t u v h k = record {
  approved = omega (arith, h.approved, k.approved);
  rejected = omega (arith, h.rejected, k.rejected);
  cancelled = omega (arith, h.cancelled, k.cancelled);
  expected = k.expected ∙ h.expected;
}

vote-Adds :
    (p : JoinPolicy) (st : TokenStatus) (o : Outcome) (t : RoundTally)
    → Returns (Adds (approvals st o) (rejections st o) (cancellations st o) t) (vote p st o t)
unfolding vote
vote-Adds p TokenStatus.waiting Outcome.approved t = record {
  approved = refl;
  rejected = omega arith;
  cancelled = omega arith;
  expected = refl;
}
vote-Adds p TokenStatus.waiting Outcome.rejected t = record {
  approved = omega arith;
  rejected = refl;
  cancelled = omega arith;
  expected = refl;
}
vote-Adds p TokenStatus.waiting Outcome.no_outcome t =
    Returns-if (Adds 0 0 0 t) (has_policy p) _ _ (λ _. tt) (λ _. Adds-none t)
vote-Adds p TokenStatus.waiting _ t =
    Returns-if (Adds 0 0 0 t) (has_policy p) _ _ (λ _. tt) (λ _. Adds-none t)
vote-Adds p TokenStatus.cancelled _ t = record {
  approved = omega arith;
  rejected = omega arith;
  cancelled = refl;
  expected = refl;
}
vote-Adds p _ _ t = Adds-none t

-- A count that succeeds has added to its start, for the tokens of the round and no others, one
-- approval or rejection for each waiting token that voted so and one cancellation for each
-- cancelled token, and has left the expected number alone.
count_round-Adds :
    (p : JoinPolicy) (id : ℕ) (ts : List Token) (t : RoundTally)
    → Returns
        (Adds (number approvals id ts) (number rejections id ts) (number cancellations id ts) t)
        (count_round p id ts t)
unfolding count_round
count_round-Adds p id [] t = Adds-none t
count_round-Adds p id (tok ∷ ts) t = elim (Bool-cases (tok.scope_id == id)) [
  | inr other ↦ rw other (count_round-Adds p id ts t)
  | inl own ↦ rw own (
      Ensures-bind AnyErr _ _ (vote p tok.status tok.outcome t) (count_round p id ts)
        (vote-Adds p tok.status tok.outcome t)
        (λ u _ h.
          Ensures-weaken AnyErr _ _ (count_round p id ts u) (λ v k. Adds-more _ _ _ _ _ _ t u v h k)
            (count_round-Adds p id ts u)))
]
