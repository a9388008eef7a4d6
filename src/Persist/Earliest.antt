-- ===== src/Persist/Earliest.antt =====
-- The deadline that a case row shows (workflow/run.go: caseRun.project) is the earliest of its active
-- tokens'.
use vogel.Prelude.{
  ℕ, ◌≤◌, true, ◌≡◌, refl, ◌∙◌, inl, inr, ◌⊎◌, Option, none, some, List, [], ◌∷◌, All, arith,
  Bool-cases, ltb,
}
use vogel.Case.{Token, is_open}
use vogel.Run.{Run, active}
use vogel.Persist.{sooner, earliest, project}

-- `best` is no later than `at`, if there is an `at`.
abbrev pub NoLater : Option ℕ → Option ℕ → Type 0
NoLater best none = Unit
NoLater none (some at) = ⊥
NoLater (some b) (some at) = b ≤ at

abbrev pub OneOf : Option ℕ → List Token → Type 0
OneOf best [] = ⊥
OneOf best (t ∷ ts) = (best ≡ t.deadline_at) ⊎ OneOf best ts

sooner-NoLater : (a b : Option ℕ) → NoLater (sooner a b) a × NoLater (sooner a b) b
unfolding sooner
sooner-NoLater none none = (tt, tt)
sooner-NoLater none (some b) = (tt, omega arith)
sooner-NoLater (some a) none = (omega arith, tt)
sooner-NoLater (some a) (some b) = elim (Bool-cases (ltb a b)) [
  | inl y ↦ rw y (omega arith, ground arith)
  | inr n ↦ rw n (ground arith, omega arith)
]

sooner-one : (a b : Option ℕ) → (sooner a b ≡ a) ⊎ (sooner a b ≡ b)
unfolding sooner
sooner-one none b = inr refl
sooner-one (some a) none = inl refl
sooner-one (some a) (some b) = elim (Bool-cases (ltb a b)) [
  | inl y ↦ rw y (inl refl)
  | inr n ↦ rw n (inr refl)
]

NoLater-trans : (a b c : Option ℕ) → NoLater a b → NoLater b c → NoLater a c
NoLater-trans a b none h k = tt
NoLater-trans a none (some c) h k = absurd k
NoLater-trans none (some b) (some c) h k = absurd h
NoLater-trans (some a) (some b) (some c) h k = omega arith

earliest-All :
    (ts : List Token) (best : Option ℕ)
    → NoLater (earliest ts best) best
      × All (λ (t : Token). NoLater (earliest ts best) t.deadline_at) ts
unfolding earliest
earliest-All [] none = (tt, tt)
earliest-All [] (some b) = (omega arith, tt)
earliest-All (t ∷ ts) best =
    let (below, each) = earliest-All ts (sooner t.deadline_at best) in
    let (s1, s2) = sooner-NoLater t.deadline_at best in
    (
      NoLater-trans _ (sooner t.deadline_at best) best below s2,
      (NoLater-trans _ (sooner t.deadline_at best) t.deadline_at below s1, each),
    )

earliest-one :
    (ts : List Token) (best : Option ℕ) → (earliest ts best ≡ best) ⊎ OneOf (earliest ts best) ts
unfolding earliest
earliest-one [] best = inl refl
earliest-one (t ∷ ts) best = elim (earliest-one ts (sooner t.deadline_at best)) [
  | inr later ↦ inr (inr later)
  | inl first ↦ elim (sooner-one t.deadline_at best) [
    | inl here ↦ inr (inl (first ∙ here))
    | inr kept ↦ inl (first ∙ kept)
  ]
]

-- The row that is written for a running case shows a deadline that is no later than that of any of
-- its active tokens, and is one of theirs or none at all.
project-deadline :
    (r : Run)
    → is_open r.case.status ≡ true
    → All (λ (t : Token). NoLater (project r).deadline_at t.deadline_at) (active r)
      × (((project r).deadline_at ≡ none) ⊎ OneOf (project r).deadline_at (active r))
unfolding project
project-deadline r running =
    rw running ((earliest-All (active r) none).1, earliest-one (active r) none)
