-- ===== src/Chain/Intact.antt =====
-- VerifyChain (workflow/events.go) against what a chain is: events from before the chain started, with
-- neither digest, and then links that each carry the digest before and the digest of their content.
use vogel.Prelude.{
  ℕ, Bool, true, false, ◌≡◌, ◌≢◌, refl, sym, ap, subst, ◌∙◌, ◌↔◌, inl, inr, Option, none, some,
  List, [], ◌∷◌, ◌++◌, All, Bool-cases, Option-cases,
}
use vogel.Chain.{EventDigest, Verdict, bytes_equal, walk, verify_chain}

abbrev pub Unchained : EventDigest → Type 0
Unchained l = (l.digest ≡ none) × (l.prev_digest ≡ none)

-- A link on the digest before it, with the digest that recomputing its content gives.
pub record Links (prev : Option (List ℕ)) (l : EventDigest) (digest : List ℕ) : Type 0 where
  pub carries : l.digest ≡ some digest
  pub follows : bytes_equal l.prev_digest prev ≡ true
  pub content : bytes_equal l.recomputed (some digest) ≡ true

abbrev pub Linked : Option (List ℕ) → List EventDigest → Type 0
Linked prev [] = Unit
Linked prev (l ∷ ls) = (digest : List ℕ) × Links prev l digest × Linked (some digest) ls

-- A walk past an event that has a digest.
walk-digest :
    (prev : Option (List ℕ)) (chained : Bool) (l : EventDigest) (ls : List EventDigest)
    (digest : List ℕ)
    → l.digest ≡ some digest
    → walk prev chained (l ∷ ls) ≡ Verdict.intact
    → Links prev l digest × (walk (some digest) true ls ≡ Verdict.intact)
unfolding walk
walk-digest prev chained l ls digest has h = elim (Bool-cases (bytes_equal l.prev_digest prev)) [
  | inr off ↦ let q = rw (has, off) at h in cc
  | inl on ↦ elim (Bool-cases (bytes_equal l.recomputed (some digest))) [
    | inr altered ↦ let q = rw (has, on, altered) at h in cc
    | inl content ↦
        (record { carries = has; follows = on; content = content }, rw (has, on, content) at h)
  ]
]

walk-gone :
    (prev : Option (List ℕ)) (l : EventDigest) (ls : List EventDigest)
    → l.digest ≡ none
    → walk prev true (l ∷ ls) ≢ Verdict.intact
unfolding walk
walk-gone prev l ls gone h = let q = rw gone at h in cc

Linked-intact :
    (prev : Option (List ℕ)) (ls : List EventDigest)
    → walk prev true ls ≡ Verdict.intact
    → Linked prev ls
Linked-intact prev [] h = tt
Linked-intact prev (l ∷ ls) h = elim (Option-cases l.digest) [
  | inl gone ↦ absurd (walk-gone prev l ls gone h)
  | inr (digest, has) ↦
      let (link, rest) = walk-digest prev true l ls digest has h in
      (digest, link, Linked-intact (some digest) ls rest)
]

intact-Linked :
    (prev : Option (List ℕ)) (chained : Bool) (ls : List EventDigest)
    → Linked prev ls
    → walk prev chained ls ≡ Verdict.intact
unfolding walk
intact-Linked prev chained [] h = refl
intact-Linked prev chained (l ∷ ls) (digest, link, rest) =
    rw (link.carries, link.follows, link.content) (intact-Linked (some digest) true ls rest)

skip-Unchained :
    (pre ls : List EventDigest)
    → All Unchained pre
    → walk none false (pre ++ ls) ≡ walk none false ls
unfolding walk
skip-Unchained [] ls h = refl
skip-Unchained (l ∷ pre) ls h = rw (h.0.0, h.0.1) (skip-Unchained pre ls h.1)

walk-stray :
    (l : EventDigest) (ls : List EventDigest) (p : List ℕ)
    → l.digest ≡ none
    → l.prev_digest ≡ some p
    → walk none false (l ∷ ls) ≢ Verdict.intact
unfolding walk
walk-stray l ls p gone has h = let q = rw (gone, has) at h in cc

walk-clean :
    (l : EventDigest) (ls : List EventDigest)
    → l.digest ≡ none
    → l.prev_digest ≡ none
    → walk none false (l ∷ ls) ≡ Verdict.intact
    → walk none false ls ≡ Verdict.intact
unfolding walk
walk-clean l ls gone clean h = rw (gone, clean) at h

split-intact :
    (ls : List EventDigest)
    → walk none false ls ≡ Verdict.intact
    → (pre : List EventDigest) × (post : List EventDigest) × (ls ≡ pre ++ post)
      × All Unchained pre
      × Linked none post
split-intact [] h = ([], [], refl, tt, tt)
split-intact (l ∷ ls) h = elim (Option-cases l.digest) [
  | inr (digest, has) ↦
      let (link, rest) = walk-digest none false l ls digest has h in
      ([], l ∷ ls, refl, tt, (digest, link, Linked-intact (some digest) ls rest))
  | inl gone ↦ elim (Option-cases l.prev_digest) [
    | inr (p, has) ↦ absurd (walk-stray l ls p gone has h)
    | inl clean ↦
        let (pre, post, e, un, li) = split-intact ls (walk-clean l ls gone clean h) in
        (l ∷ pre, post, ap (λ (x : List EventDigest). l ∷ x) e, ((gone, clean), un), li)
  ]
]

-- VerifyChain reports an intact chain for exactly those histories that are some events with neither
-- digest, from before the chain started, followed by events each of which carries the digest of
-- the one before it, the first of them none, and whose own digest is that of its content.
pub verify_chain-intact :
    (links : List EventDigest)
    → (verify_chain links ≡ Verdict.intact) ↔ (
        (pre : List EventDigest) × (post : List EventDigest) × (links ≡ pre ++ post)
        × All Unchained pre
        × Linked none post)
unfolding verify_chain
verify_chain-intact links = (
  split-intact links,
  λ (pre, post, e, un, li).
      subst (λ (x : List EventDigest). walk none false x ≡ Verdict.intact) (sym e)
        (skip-Unchained pre post un ∙ intact-Linked none false post li),
)
