-- ===== src/Validate/Walks.antt =====
-- Every node of a valid definition can be reached from its start node.
use vogel.Prelude.{
  ℕ, zero, suc, String, Bool, true, false, not, none, some, List, [], ◌∷◌, ◌≡◌, refl, subst, arith,
  find, filter, count, length, ◌==◌, string_eq, nat_eq, ==_iff, inl, inr, Bool-cases, Option-cases,
  ◌&&◌, All, All-append, List-cases,
}
use mathlib.Core.List.{Memᴰ}
use vogel.Definition.{Definition, Node, start_node, Transition}
use vogel.Errors.{not-eq-false}
use vogel.Rules.{Rule, at_node, mem, is_some, node_by_id, outgoing, report_if}
use vogel.Rules.Nodes.{starts, count_checks}
use vogel.Rules.Reach.{
  Visit, offer, offer_all, walk, start_at, targets, adjacency, search, unreachable, reach_checks,
}
use vogel.Validate.{is_valid}
use vogel.Validate.Parts.{left-nil, report_if-nil, concat_map-nil, is_valid-Silent}
use vogel.Validate.Exits.{All-named}

-- The walks along the transitions of a definition.
pub data Walk (d : Definition) (from : String) : String → Type 0 where
  here : Walk d from from
  step :
      {u v : String} (t : Transition)
      → Walk d from u
      → Memᴰ t d.transitions
      → t.from ≡ u
      → t.to ≡ v
      → Walk d from v

mem-All :
    (W : String → Type 0) (id : String) (ids : List String) → mem id ids ≡ true → All W ids → W id
unfolding mem
mem-All W id [] h a = cc
mem-All W id (x ∷ xs) h a = elim (Bool-cases (x == id)) [
  | inl same ↦ subst W ((==_iff x id).0 same) a.0
  | inr other ↦ mem-All W id xs (ground arith) a.1
]

-- What holds of the first nodes, and of the targets of a node that it holds of, holds of every
-- node that a search marks.
module _ (W : String → Type 0) (next : String → List String) where
  offer-All :
      (x : String) (v : Visit)
      → W x
      → All W v.seen
      → All W v.queue
      → All W (offer v x).seen × All W (offer v x).queue
  offer-All x v w s q = elim (Bool-cases (mem x v.seen)) [
    | inl old ↦ rw (old, All) (s, q)
    | inr new ↦ rw (new, All) ((w, s), All-append W v.queue (x ∷ []) q (w, tt))
  ]

  offer_all-All :
      (xs : List String) (v : Visit)
      → All W xs
      → All W v.seen
      → All W v.queue
      → All W (offer_all xs v).seen × All W (offer_all xs v).queue
  unfolding offer_all
  offer_all-All [] v a s q = (s, q)
  offer_all-All (x ∷ xs) v a s q =
      let kept = offer-All x v a.0 s q in offer_all-All xs (offer v x) a.1 kept.0 kept.1

  walk-All :
      (fuel : ℕ) (v : Visit)
      → ((u : String) → W u → All W (next u))
      → All W v.seen
      → All W v.queue
      → All W (walk next fuel v).seen
  unfolding walk
  walk-All zero v onward s q = s
  walk-All (suc fuel) v onward s q = elim (List-cases v.queue) [
    | inl done ↦ rw (done, walk, All) s
    | inr (id, rest, more) ↦
        let left : All W (id ∷ rest) = subst (All W) more q in
        let kept =
          offer_all-All (next id) (record { seen = v.seen; queue = rest }) (onward id left.0) s
            left.1 in
        rw (more, walk)
          (walk-All fuel (offer_all (next id) (record { seen = v.seen; queue = rest })) onward
            kept.0 kept.1)
  ]

module _ (d : Definition) (from : String) where
  adjacent-All :
      (u : String) (ts : List Transition)
      → Walk d from u
      → All (λ t. Memᴰ t d.transitions) ts
      → All
          (Walk d from)
          (targets (filter (λ (t : Transition). t.from == u && is_some (node_by_id d t.from)) ts))
  adjacent-All u [] w a = tt
  adjacent-All u (t ∷ ts) w a = elim (Bool-cases (t.from == u && is_some (node_by_id d t.from))) [
    | inl leaves ↦
        rw leaves (step t w a.0 ((==_iff t.from u).0 (ground arith)) refl, adjacent-All u ts w a.1)
    | inr other ↦ rw other (adjacent-All u ts w a.1)
  ]

All-Mem :
    {A : Type 0} (xs ys : List A) → ((a : A) → Memᴰ a xs → Memᴰ a ys) → All (λ a. Memᴰ a ys) xs
All-Mem [] ys f = tt
All-Mem (x ∷ xs) ys f = (f x (Memᴰ.head refl), All-Mem xs ys (λ a m. f a (Memᴰ.tail m)))

search-Walk : (d : Definition) (from : String) → All (Walk d from) (search d from).seen
unfolding search adjacency outgoing
search-Walk d from =
    walk-All (Walk d from) (adjacency d) (suc (length d.transitions)) (start_at from)
      (λ u w.
        adjacent-All d from u d.transitions w (All-Mem d.transitions d.transitions (λ a m. m)))
      (here, tt) (here, tt)

count-find : {A : Type 0} (p : A → Bool) (xs : List A) → find p xs ≡ none → count p xs ≡ 0
count-find p [] h = refl
count-find p (x ∷ xs) h = elim (Bool-cases (p x)) [
  | inl y ↦ ground (arith, y)
  | inr n ↦ rw n (count-find p xs (ground arith))
]

starts-one : (d : Definition) → count_checks d ≡ [] → starts d ≡ 1
unfolding count_checks
starts-one d h = (==_iff (starts d) 1).0 (not-eq-false _ (report_if-nil _ _ (left-nil _ _ h)))

All-Walk :
    (d : Definition) (s : Node) (seen : List String) (ns : List Node)
    → All (Walk d s.id) seen
    → All (λ n. (n.id == "") ≡ false) ns
    → All
        (λ n.
          report_if (not (n.id == "") && not (mem n.id seen)) (at_node Rule.unreachable n.id) ≡ [])
        ns
    → All (λ n. Walk d s.id n.id) ns
All-Walk d s seen [] walks named silent = tt
All-Walk d s seen (n ∷ ns) walks named silent =
    let quiet = rw named.0 at (report_if-nil _ _ silent.0) in
    (
      mem-All (Walk d s.id) n.id seen (not-eq-false _ quiet) walks,
      All-Walk d s seen ns walks named.1 silent.1,
    )

-- In a valid definition exactly one node is the start node, StartNode finds it, and a walk along
-- the transitions leads from it to every node.
pub is_valid-Walk :
    (d : Definition)
    → is_valid d ≡ true
    → (starts d ≡ 1) × (s : Node) × (start_node d ≡ some s) × All (λ n. Walk d s.id n.id) d.nodes
unfolding reach_checks unreachable start_node
is_valid-Walk d h =
    let silent = is_valid-Silent d h in
    let one = starts-one d silent.counts in
    elim (Option-cases (start_node d)) [
      | inl lost ↦ let zero_starts = count-find (λ (n : Node). n.start) d.nodes lost in cc
      | inr (s, found) ↦
          let quiet = rw ((==_iff (starts d) 1).1 one, found) at silent.reach in
          (
            one,
            s,
            found,
            All-Walk d s (search d s.id).seen d.nodes (search-Walk d s.id)
                (All-named d.nodes [] silent.nodes) (concat_map-nil _ d.nodes quiet),
          )
    ]
