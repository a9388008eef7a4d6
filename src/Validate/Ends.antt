-- ===== src/Validate/Ends.antt =====
-- The transitions of a valid definition: their ends, and how an action finds its transition.
use vogel.Prelude.{
  ℕ, suc, true, false, not, Option, none, some, List, [], ◌∷◌, ◌≡◌, refl, arith, find, filter, ◌==◌,
  string_eq, ==_iff, inl, inr, Bool-cases, ◌&&◌, All, All-of_All, All-both,
}
use vogel.Definition.{Definition, Node, node, Transition, transitions_from, find_transition}
use vogel.Rules.{node_by_id, is_some, node_has}
use vogel.Rules.Transitions.{repeats, transition_reports, transition_checks, transitions_checks}
use vogel.Validate.{is_valid}
use vogel.Validate.Parts.{left-nil, right-nil, report_if-nil, concat-nil, is_valid-Silent}
use vogel.Validate.Lookup.{node-node_by_id}

-- Both ends are known, the first is not terminal, and the action is not empty.
abbrev pub Known : Option Node → Option Node → Transition → Type 0
Known from to t =
    (n : Node) × (m : Node) × (from ≡ some n)
    × (to ≡ some m)
    × (n.terminal ≡ false)
    × ((t.action == "") ≡ false)

Known-of :
    (from to : Option Node) (t : Transition)
    → not (is_some from) ≡ false
    → not (is_some to) ≡ false
    → node_has (λ n. n.terminal) from ≡ false
    → (t.action == "") ≡ false
    → Known from to t
Known-of (some n) (some m) t f g h a = (n, m, refl, refl, h, a)
Known-of none to t f g h a = cc
Known-of (some n) none t f g h a = cc

-- What the rules say of a transition that follows those of `seen`.
abbrev Fine : Definition → List Transition → Transition → Type 0
Fine d seen t = Known (node_by_id d t.from) (node_by_id d t.to) t × (repeats t seen ≡ false)

transition_checks-Fine :
    (d : Definition) (seen : List Transition) (i : ℕ) (t : Transition)
    → transition_checks d seen i t ≡ []
    → Fine d seen t
unfolding transition_checks transition_reports
transition_checks-Fine d seen i t h =
    let (a, (b, (c, (f, (g, (k, (l, (m, (n, (o, (p, (q, _)))))))))))) =
      concat-nil (transition_reports d seen i t) h in
    (
      Known-of (node_by_id d t.from) (node_by_id d t.to) t (report_if-nil _ _ f)
          (report_if-nil _ _ g) (report_if-nil _ _ k) (report_if-nil _ _ a),
      report_if-nil _ _ q,
    )

repeats-tail :
    (t u : Transition) (seen : List Transition)
    → repeats t (u ∷ seen) ≡ false
    → (repeats t seen ≡ false) × ((u.from == t.from && u.action == t.action) ≡ false)
unfolding repeats
repeats-tail t u seen h = ground arith

module _ (d : Definition) where
  All-Fine :
      (ts seen : List Transition) (i : ℕ)
      → transitions_checks d seen i ts ≡ []
      → All (Fine d seen) ts
  unfolding transitions_checks
  All-Fine [] seen i h = tt
  All-Fine (t ∷ ts) seen i h = (
    transition_checks-Fine d seen i t (left-nil _ _ h),
    All-of_All (Fine d seen) ts (λ u f. (f.0, (repeats-tail u t seen f.1).0))
        (All-Fine ts (t ∷ seen) (suc i) (right-nil (transition_checks d seen i t) _ h)),
  )

  -- The transition that its node and action find among `ts`.
  abbrev Found : List Transition → Transition → Type 0
  Found ts t =
      find (λ (u : Transition). u.action == t.action)
        (filter (λ (u : Transition). u.from == t.from) ts)
      ≡ some t

  Found-head : (t : Transition) (ts : List Transition) → Found (t ∷ ts) t
  Found-head t ts = ground (arith, ==_iff t.from t.from, ==_iff t.action t.action)

  Found-cons :
      (t u : Transition) (ts : List Transition)
      → (u.from == t.from && u.action == t.action) ≡ false
      → Found ts t
      → Found (u ∷ ts) t
  Found-cons t u ts h f = elim (Bool-cases (u.from == t.from)) [
    | inl same ↦ rw same (ground arith)
    | inr other ↦ rw other f
  ]

  All-Found :
      (ts seen : List Transition) (i : ℕ) → transitions_checks d seen i ts ≡ [] → All (Found ts) ts
  unfolding transitions_checks
  All-Found [] seen i h = tt
  All-Found (t ∷ ts) seen i h =
      let later = right-nil (transition_checks d seen i t) _ h in
      (
        Found-head t ts,
        All-of_All (Found (t ∷ ts)) ts
            (λ u p. Found-cons u t ts (repeats-tail u t seen p.0.1).1 p.1)
            (All-both (Fine d (t ∷ seen)) (Found ts) ts (All-Fine ts (t ∷ seen) (suc i) later)
              (All-Found ts (t ∷ seen) (suc i) later)),
      )

-- Every transition of a valid definition has an action that is not empty and leads from a node of
-- the definition that is not terminal to a node of the definition.
pub is_valid-Known :
    (d : Definition)
    → is_valid d ≡ true
    → All (λ t. Known (node d t.from) (node d t.to) t) d.transitions
is_valid-Known d h =
    All-of_All (λ t. Known (node d t.from) (node d t.to) t) d.transitions
      (λ t f. rw (node-node_by_id d t.from h, node-node_by_id d t.to h) f.0)
      (All-Fine d d.transitions [] 0 (is_valid-Silent d h).transitions)

-- In a valid definition the lookup that a move makes, by the action among the transitions from a
-- node, finds each transition of the definition under its own node and action.
find_transition-own :
    (d : Definition)
    → is_valid d ≡ true
    → All (λ t. find_transition (transitions_from d t.from) t.action ≡ some t) d.transitions
unfolding find_transition transitions_from
find_transition-own d h = All-Found d d.transitions [] 0 (is_valid-Silent d h).transitions
