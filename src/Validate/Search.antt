-- ===== src/Validate/Search.antt =====
-- The breadth-first search of Definition.Validate ends: its queue runs empty within the fuel.
use vogel.Prelude.{
  ℕ, zero, suc, ◌+◌, ◌≤◌, String, Bool, true, false, not, List, [], ◌∷◌, ◌++◌, ◌≡◌, refl, ap, arith,
  filter, count, length, Bool-cases, List-cases, inl, inr, ◌==◌, ==_iff, string_eq, All,
}
use vogel.Definition.{Definition, Transition}
use vogel.Rules.{mem, outgoing}
use vogel.Rules.Reach.{Visit, offer, offer_all, walk, start_at, targets, adjacency, search}

abbrev unseen : List String → List String → ℕ
unseen seen univ = count (λ (x : String). not (mem x seen)) univ

-- What is left to do: the identifiers not yet marked, and the queue.
abbrev work : List String → Visit → ℕ
work univ v = unseen v.seen univ + length v.queue

length-append : (xs : List String) (x : String) → length (xs ++ x ∷ []) ≡ suc (length xs)
length-append [] x = refl
length-append (y ∷ ys) x = ap suc (length-append ys x)

unseen-more : (x : String) (seen univ : List String) → unseen (x ∷ seen) univ ≤ unseen seen univ
unfolding mem
unseen-more x seen [] = omega arith
unseen-more x seen (y ∷ ys) = ground (arith, unseen-more x seen ys)

unseen-drop :
    (x : String) (seen univ : List String)
    → mem x univ ≡ true
    → mem x seen ≡ false
    → suc (unseen (x ∷ seen) univ) ≤ unseen seen univ
unfolding mem
unseen-drop x seen [] here new = cc
unseen-drop x seen (y ∷ ys) here new = elim (Bool-cases (y == x)) [
  | inl same ↦
      let e : y ≡ x = (==_iff y x).0 same in
      ground (arith, unseen-more x seen ys, ==_iff x y, ==_iff x x)
  | inr other ↦ ground (arith, unseen-drop x seen ys, ==_iff x y)
]

module _ (univ : List String) where
  offer-work : (v : Visit) (x : String) → mem x univ ≡ true → work univ (offer v x) ≤ work univ v
  offer-work v x here = elim (Bool-cases (mem x v.seen)) [
    | inl old ↦ rw old (omega arith)
    | inr new ↦ rw new (omega (arith, unseen-drop x v.seen univ here new, length-append v.queue x))
  ]

  offer_all-work :
      (xs : List String) (v : Visit)
      → All (λ (x : String). mem x univ ≡ true) xs
      → work univ (offer_all xs v) ≤ work univ v
  unfolding offer_all
  offer_all-work [] v all = omega arith
  offer_all-work (x ∷ xs) v all =
      omega (arith, offer-work v x all.0, offer_all-work xs (offer v x) all.1)

  walk-ends :
      (next : String → List String)
      → ((u : String) → All (λ (x : String). mem x univ ≡ true) (next u))
      → (fuel : ℕ) (v : Visit) → work univ v ≤ fuel
      → (walk next fuel v).queue ≡ []
  unfolding walk
  walk-ends next inside zero v enough = elim (List-cases v.queue) [
    | inl done ↦ done
    | inr (x, xs, more) ↦ absurd (omega (arith, ap length more))
  ]
  walk-ends next inside (suc fuel) v enough = elim (List-cases v.queue) [
    | inl done ↦ rw (done, walk) done
    | inr (id, rest, more) ↦
        let v' : Visit = record { seen = v.seen; queue = rest } in
        rw (more, walk)
          (walk-ends next inside fuel (offer_all (next id) v')
            (omega (arith, offer_all-work (next id) v' (inside id), ap length more)))
  ]

count-length : (p : String → Bool) (xs : List String) → count p xs ≤ length xs
count-length p [] = omega arith
count-length p (x ∷ xs) = ground (arith, count-length p xs)

length-targets : (ts : List Transition) → length (targets ts) ≡ length ts
length-targets [] = refl
length-targets (t ∷ ts) = ap suc (length-targets ts)

mem-more :
    (y : String) (xs : List String) (zs : List String)
    → All (λ (x : String). mem x xs ≡ true) zs
    → All (λ (x : String). mem x (y ∷ xs) ≡ true) zs
unfolding mem
mem-more y xs [] h = tt
mem-more y xs (z ∷ zs) h = (ground (arith, h.0), mem-more y xs zs h.1)

targets-inside :
    (p : Transition → Bool) (ts : List Transition)
    → All (λ (x : String). mem x (targets ts) ≡ true) (targets (filter p ts))
unfolding mem
targets-inside p [] = tt
targets-inside p (t ∷ ts) = elim (Bool-cases (p t)) [
  | inl y ↦
      rw (y, All)
        (ground (arith, ==_iff t.to t.to), mem-more t.to (targets ts) _ (targets-inside p ts))
  | inr n ↦ rw n (mem-more t.to (targets ts) _ (targets-inside p ts))
]

-- The search of Validate always ends: from any node of any definition its queue is empty after one
-- round for each transition and one more, so the model's fuel cuts nothing off.
pub search-ends : (d : Definition) (from : String) → (search d from).queue ≡ []
unfolding search adjacency outgoing
search-ends d from =
    walk-ends (targets d.transitions) (adjacency d) (λ u. targets-inside _ d.transitions)
      (suc (length d.transitions)) (start_at from)
      (omega (
        arith,
        count-length (λ (x : String). not (mem x (from ∷ []))) (targets d.transitions),
        length-targets d.transitions,
      ))
