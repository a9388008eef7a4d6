-- ===== src/Chain.antt =====
-- workflow/events.go: VerifyChain, on the links that Repository.ListEventDigests returned. A digest
-- is its bytes; nil is `none`.
pub mod Intact
pub mod Tests
use vogel.Prelude.{
  ℕ, Bool, true, false, Option, none, some, List, [], ◌∷◌, ◌==◌, nat_eq, if◌then◌else◌,
}

-- EventDigest
pub record EventDigest : Type 0 where
  pub seq : ℕ
  pub prev_digest : Option (List ℕ)
  pub digest : Option (List ℕ)
  pub recomputed : Option (List ℕ)

pub data Reason : Type 0 where
  no_digest_after_start prev_without_digest prev_mismatch content_mismatch : Reason

pub data Verdict : Type 0 where
  intact : Verdict
  -- ChainBrokenError: the first event that fails, and which check.
  broken : (seq : ℕ) (reason : Reason) → Verdict

same_bytes : List ℕ → List ℕ → Bool
same_bytes [] [] = true
same_bytes (x ∷ xs) (y ∷ ys) = let rest = same_bytes xs ys in if x == y then rest else false
same_bytes _ _ = false

bytes_of : Option (List ℕ) → List ℕ
bytes_of none = []
bytes_of (some bs) = bs

-- `bytes.Equal`: nil and an empty slice are equal.
unfoldable pub bytes_equal : Option (List ℕ) → Option (List ℕ) → Bool
unfolding same_bytes bytes_of
bytes_equal a b = same_bytes (bytes_of a) (bytes_of b)

-- The loop of Engine.VerifyChain; `prev` is the digest before, `chained` whether the chain started.
unfoldable pub walk : Option (List ℕ) → Bool → List EventDigest → Verdict
walk prev chained [] = Verdict.intact
walk prev chained (l ∷ ls) = elim l.digest [
  | none ↦ elim chained [
    | true ↦ Verdict.broken l.seq Reason.no_digest_after_start
    | false ↦ elim l.prev_digest [
      | some _ ↦ Verdict.broken l.seq Reason.prev_without_digest
      | none ↦ walk prev false ls
    ]
  ]
  | some digest ↦ elim (bytes_equal l.prev_digest prev) [
    | false ↦ Verdict.broken l.seq Reason.prev_mismatch
    | true ↦ elim (bytes_equal l.recomputed (some digest)) [
      | false ↦ Verdict.broken l.seq Reason.content_mismatch
      | true ↦ walk (some digest) true ls
    ]
  ]
]

unfoldable pub verify_chain : List EventDigest → Verdict
verify_chain links = walk none false links
