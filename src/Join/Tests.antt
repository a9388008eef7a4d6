-- ===== src/Join/Tests.antt =====
-- The vote of small rounds.
use vogel.Prelude.{◌≡◌, refl, arith}
use vogel.Definition.{JoinPolicy}
use vogel.JoinPolicy.{RoundTally, closes}
use vogel.JoinPolicy.Verdict.{closes-stable}

-- Three branches, one rejected, then two.
abbrev early : RoundTally
early = record { approved = 0; rejected = 1; cancelled = 0; expected = 3 }

abbrev later : RoundTally
later = record { approved = 1; rejected = 2; cancelled = 0; expected = 3 }

closes-stable_example : closes JoinPolicy.all_approve later ≡ closes JoinPolicy.all_approve early
unfolding closes
closes-stable_example =
    closes-stable JoinPolicy.all_approve early later
      (record {
        approved = omega arith;
        rejected = omega arith;
        cancelled = omega arith;
        expected = refl;
        fits = omega arith;
      })
      refl
