-- ===== src/Validate/Exits.antt =====
-- The ways out of the nodes of a valid definition: what routing finds there.
use vogel.Prelude.{
  String, Bool, true, false, some, List, [], ◌∷◌, ◌≡◌, refl, sym, subst, arith, find, filter, ◌==◌,
  string_eq, nat_eq, inl, inr, Bool-cases, if◌then◌else◌, ◌&&◌, All, All-of_All, All-both,
}
use vogel.Definition.{Definition, Node, node, Transition, transitions_from}
use vogel.Rules.{node_by_id, is_some, outgoing}
use vogel.Rules.Nodes.{node_checks, nodes_checks}
use vogel.Rules.Routes.{route_checks, routes_checks}
use vogel.Validate.{is_valid}
use vogel.Validate.Parts.{left-nil, right-nil, concat_map-nil, is_valid-Silent}
use vogel.Validate.Lookup.{node_checks-id, node-node_by_id}
use vogel.Validate.Ends.{Known, is_valid-Known}

-- Every node has an identifier.
pub All-named :
    (ns : List Node) (seen : List String)
    → nodes_checks seen ns ≡ []
    → All (λ n. (n.id == "") ≡ false) ns
unfolding nodes_checks
All-named [] seen h = tt
All-named (n ∷ ns) seen h = (
  (node_checks-id seen n (left-nil _ _ h)).0,
  All-named ns (if n.id == "" then seen else n.id ∷ seen) (right-nil (node_checks seen n) _ h),
)

find-All {ℓ κ} :
    {A : Type ℓ} (P : A → Type κ) (p : A → Bool) (xs : List A) (a : A)
    → find p xs ≡ some a
    → All P xs
    → P a
find-All P p [] a h hs = cc
find-All P p (x ∷ xs) a h hs = elim (Bool-cases (p x)) [
  | inl y ↦ let e : x ≡ a = ground (arith, y) in subst P e hs.0
  | inr n ↦ find-All P p xs a (ground arith) hs.1
]

All-find {ℓ κ} :
    {A : Type ℓ} (P : A → Type κ) (p : A → Bool) (xs : List A) (a : A)
    → All P xs
    → find p xs ≡ some a
    → P a
All-find P p xs a hs h = find-All P p xs a h hs

module _ (d : Definition) where
  filter-outgoing :
      (id : String) (ts : List Transition)
      → All (λ t. is_some (node_by_id d t.from) ≡ true) ts
      → filter (λ (t : Transition). t.from == id && is_some (node_by_id d t.from)) ts
        ≡ filter (λ (t : Transition). t.from == id) ts
  filter-outgoing id [] h = refl
  filter-outgoing id (t ∷ ts) h = elim (Bool-cases (t.from == id)) [
    | inl same ↦ rw (same, h.0, filter-outgoing id ts h.1) refl
    | inr other ↦ rw (other, filter-outgoing id ts h.1) refl
  ]

  is_some-Known :
      (t : Transition) → Known (node d t.from) (node d t.to) t → is_some (node d t.from) ≡ true
  is_some-Known t (n, m, e, f, g, a) = rw e refl

  -- The map `outgoingByNode` of a valid definition is TransitionsFrom.
  pub outgoing-transitions_from :
      is_valid d ≡ true → (id : String) → outgoing d id ≡ transitions_from d id
  unfolding outgoing transitions_from
  outgoing-transitions_from h id = filter-outgoing id d.transitions (
      All-of_All (λ t. is_some (node_by_id d t.from) ≡ true) d.transitions
        (λ t k. rw (sym (node-node_by_id d t.from h)) (is_some-Known t k)) (is_valid-Known d h))

  -- What the rules of the routes say of a node that a lookup finds.
  pub node-routes :
      is_valid d ≡ true
      → (id : String) (n : Node) → node d id ≡ some n
      → ((n.id == "") ≡ false) × (route_checks d n ≡ [])
  unfolding node routes_checks
  node-routes h id n e =
      let silent = is_valid-Silent d h in
      All-find (λ m. ((m.id == "") ≡ false) × (route_checks d m ≡ [])) (λ (m : Node). m.id == id)
        d.nodes n
        (All-both (λ m. (m.id == "") ≡ false) (λ m. route_checks d m ≡ []) d.nodes
          (All-named d.nodes [] silent.nodes)
          (concat_map-nil (route_checks d) d.nodes silent.routes))
        e
