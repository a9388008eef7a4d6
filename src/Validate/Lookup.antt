-- ===== src/Validate/Lookup.antt =====
-- Looking up a node of a valid definition: Validate's own map and Definition.Node agree.
use vogel.Prelude.{
  String, Bool, true, false, none, List, [], ◌∷◌, ◌≡◌, refl, sym, arith, find, ◌==◌, string_eq,
  ==_iff, inl, inr, Bool-cases,
}
use vogel.Definition.{Definition, Node, node}
use vogel.Rules.{mem, last_node, node_by_id}
use vogel.Rules.Nodes.{node_checks, nodes_checks}
use vogel.Validate.{is_valid}
use vogel.Validate.Parts.{left-nil, right-nil, if-nil, report_if-nil, is_valid-Silent}

-- The identifier of a node that reports nothing is not empty and new.
pub node_checks-id :
    (seen : List String) (n : Node)
    → node_checks seen n ≡ []
    → ((n.id == "") ≡ false) × (mem n.id seen ≡ false)
unfolding node_checks
node_checks-id seen n h =
    let (named, fresh) = if-nil (n.id == "") _ _ _ (left-nil _ _ h) in
    (named, report_if-nil (mem n.id seen) _ fresh)

module _ (id : String) where
  abbrev is_it : Node → Bool
  is_it n = n.id == id

  -- An identifier that has been seen does not occur again.
  last_node-seen :
      (ns : List Node) (seen : List String)
      → mem id seen ≡ true
      → nodes_checks seen ns ≡ []
      → last_node id ns ≡ none
  unfolding nodes_checks last_node mem
  last_node-seen [] seen m h = refl
  last_node-seen (n ∷ ns) seen m h =
      let (named, fresh) = node_checks-id seen n (left-nil (node_checks seen n) _ h) in
      let later =
        last_node-seen ns (n.id ∷ seen) (ground arith)
          (rw named at (right-nil (node_checks seen n) _ h)) in
      ground (arith, ==_iff n.id id)

  pub last_node-find :
      (ns : List Node) (seen : List String)
      → nodes_checks seen ns ≡ []
      → last_node id ns ≡ find is_it ns
  unfolding nodes_checks last_node mem
  last_node-find [] seen h = refl
  last_node-find (n ∷ ns) seen h =
      let (named, fresh) = node_checks-id seen n (left-nil (node_checks seen n) _ h) in
      let silent = rw named at (right-nil (node_checks seen n) _ h) in
      elim (Bool-cases (n.id == id)) [
        | inl same ↦ ground (arith, last_node-seen ns (n.id ∷ seen), ==_iff n.id id)
        | inr other ↦ rw (last_node-find ns (n.id ∷ seen) silent, other) (ground arith)
      ]

-- In a valid definition the lookup of Validate, which finds the last node of an identifier and none
-- of an empty one, and Definition.Node, which finds the first node, agree on every identifier.
pub node-node_by_id :
    (d : Definition) (id : String) → is_valid d ≡ true → node d id ≡ node_by_id d id
unfolding node node_by_id
node-node_by_id d id h = sym (last_node-find id d.nodes [] (is_valid-Silent d h).nodes)
