-- ===== src/Action/Declared.antt =====
-- The effects that a definition declares, and those that its EffectNames lists: what Validate and
-- Engine.Register have checked of each (workflow/workflow.go, workflow/engine.go).
use vogel.Prelude.{
  ℕ, suc, String, Bool, true, false, not, List, [], ◌∷◌, ◌++◌, ◌≡◌, any, ◌==◌, string_eq,
  Bool-cases, inl, inr, All, All-append, All-split, if◌then◌else◌,
}
use vogel.Errors.{ok, fail_if-ok}
use vogel.Definition.{Definition, Node, Transition}
use vogel.Names.{concat_map, effect_names}
use vogel.Names.Listed.{Named, names-All, concat_map-All, All-concat_map}
use vogel.Rules.{Violation, effect_checks}
use vogel.Rules.Nodes.{node_reports, node_checks, nodes_checks}
use vogel.Rules.Transitions.{transition_checks, transition_reports, transitions_checks}
use vogel.Validate.{is_valid}
use vogel.Validate.Parts.{left-nil, right-nil, if-nil, concat-nil, is_valid-Silent}
use vogel.Engine.{Engine}
use vogel.Engine.Register.{knows_effect, check_effects}

effect_checks-Named :
    (blank again : Violation) (seen xs : List String)
    → effect_checks blank again seen xs ≡ []
    → Named xs
unfolding effect_checks
effect_checks-Named blank again seen [] h = tt
effect_checks-Named blank again seen (x ∷ xs) h =
    let rest = effect_checks blank again (if x == "" then seen else x ∷ seen) xs in
    let (filled, silent) = if-nil (x == "") blank rest _ h in
    (
      filled,
      effect_checks-Named blank again (if x == "" then seen else x ∷ seen) xs
          (right-nil _ rest silent),
    )

node_checks-Named : (seen : List String) (n : Node) → node_checks seen n ≡ [] → Named n.effects
unfolding node_checks node_reports
node_checks-Named seen n h =
    let (a, (b, (c, (e, (f, (g, (k, _))))))) = concat-nil (node_reports seen n) h in
    effect_checks-Named _ _ [] n.effects k

nodes-Named :
    (seen : List String) (ns : List Node)
    → nodes_checks seen ns ≡ []
    → All (λ n. Named n.effects) ns
unfolding nodes_checks
nodes-Named seen [] h = tt
nodes-Named seen (n ∷ ns) h = (
  node_checks-Named seen n (left-nil _ _ h),
  nodes-Named (if n.id == "" then seen else n.id ∷ seen) ns (right-nil (node_checks seen n) _ h),
)

transition_checks-Named :
    (d : Definition) (seen : List Transition) (i : ℕ) (t : Transition)
    → transition_checks d seen i t ≡ []
    → Named t.effects
unfolding transition_checks transition_reports
transition_checks-Named d seen i t h =
    let (a, (b, (c, _))) = concat-nil (transition_reports d seen i t) h in
    effect_checks-Named _ _ [] t.effects c

transitions-Named :
    (d : Definition) (seen : List Transition) (i : ℕ) (ts : List Transition)
    → transitions_checks d seen i ts ≡ []
    → All (λ t. Named t.effects) ts
unfolding transitions_checks
transitions-Named d seen i [] h = tt
transitions-Named d seen i (t ∷ ts) h = (
  transition_checks-Named d seen i t (left-nil _ _ h),
  transitions-Named d (t ∷ seen) (suc i) ts (right-nil (transition_checks d seen i t) _ h),
)

any-All-false :
    (p : String → Bool) (xs : List String)
    → any (λ (x : String). not (p x)) xs ≡ false
    → All (λ x. p x ≡ true) xs
any-All-false p [] h = tt
any-All-false p (x ∷ xs) h = elim (Bool-cases (p x)) [
  | inl y ↦ (y, any-All-false p xs (rw y at h))
  | inr n ↦ let q = rw n at h in cc
]

-- `P` holds of every effect of every node and transition.
abbrev pub Declared : (String → Type 0) → Definition → Type 0
Declared P d =
    All (λ (n : Node). All P n.effects) d.nodes
    × All (λ (t : Transition). All P t.effects) d.transitions

-- Every effect of a valid definition that passed checkEffects is known to the engine's sink.
pub check_effects-Declared :
    (e : Engine) (d : Definition) (u : Unit {0})
    → is_valid d ≡ true
    → check_effects e d ≡ ok u
    → Declared (λ name. knows_effect e.effect_sink name ≡ true) d
unfolding check_effects effect_names
check_effects-Declared e d u valid h =
    let silent = is_valid-Silent d valid in
    let P : String → Type 0 = λ name. knows_effect e.effect_sink name ≡ true in
    let of_nodes = concat_map (λ (n : Node). n.effects) d.nodes in
    let of_transitions = concat_map (λ (t : Transition). t.effects) d.transitions in
    let listed = any-All-false (knows_effect e.effect_sink) (effect_names d) (fail_if-ok _ _ u h) in
    let named =
      All-append (λ (x : String). (x == "") ≡ false) of_nodes of_transitions
        (All-concat_map _ (λ (n : Node). n.effects) d.nodes (nodes-Named [] d.nodes silent.nodes))
        (All-concat_map _ (λ (t : Transition). t.effects) d.transitions
          (transitions-Named d [] 0 d.transitions silent.transitions)) in
    let known = names-All P (of_nodes ++ of_transitions) listed named in
    let (in_nodes, in_transitions) = All-split P of_nodes of_transitions known in
    (
      concat_map-All P (λ (n : Node). n.effects) d.nodes in_nodes,
      concat_map-All P (λ (t : Transition). t.effects) d.transitions in_transitions,
    )
