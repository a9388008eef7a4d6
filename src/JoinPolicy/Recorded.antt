-- ===== src/JoinPolicy/Recorded.antt =====
-- What JoinResults reports, read against the history.
use vogel.Prelude.{
  ℕ, ltb, Bool, true, false, ◌&&◌, ◌⊎◌, Option, none, some, List, [], ◌∷◌, ◌≡◌, refl, ap, sym, ◌∙◌,
  map, filter, subst, Bool-cases, inl, inr, nat_eq, All,
}
use mathlib.Core.List.{Memᴰ}
use vogel.Errors.{
  Err, ok, err, or_fail, or_fail-Ensures, Ensures, Ensures-bind, Ensures-map, Ensures-if,
  Ensures-own,
}
use vogel.Definition.{has_policy}
use vogel.Case.{BranchResult}
use vogel.Event.{Event, Detail}
use vogel.Store.{Db, get_by_id}
use vogel.History.{events_of}
use vogel.History.Ordered.{sooner_event, events_of-Sorted}
use vogel.Sorting.{Sorted, filter-Sorted, sort_by_same}
use vogel.JoinPolicy.Results.{
  JoinBranch, RoundResult, by_seq, join_branch, join_branches, is_joined, round_of, add_round,
  rounds_of, earlier, join_results,
}

abbrev pub names_policy : Detail → Bool
names_policy (Detail.join scope at tokens policy verdict branches) = has_policy policy
names_policy _ = false

-- A join of a block with a policy has fired.
abbrev pub is_round : Event → Bool
is_round v = is_joined v.kind && names_policy v.detail

module _ (events : List Event) where
  -- A branch with the actor, comment and cause of the event that it names.
  abbrev pub Answered : JoinBranch → Type 0
  Answered b = (w : Event) × (by_seq b.result.seq events ≡ some w) × (b ≡ join_branch b.result w)

  -- The result says what its event and the events of its branches recorded.
  abbrev pub Tells : Event → RoundResult → Type 0
  Tells v r =
      (tokens : List ℕ) × (v.detail
        ≡ Detail.join r.scope r.join_node tokens r.policy r.verdict
            (map (λ (b : JoinBranch). b.result) r.branches))
      × (v.seq ≡ r.seq)
      × All Answered r.branches

  -- One result for each event, in the same order.
  abbrev pub TellsAll : List Event → List RoundResult → Type 0
  TellsAll [] [] = Unit
  TellsAll (v ∷ vs) (r ∷ rs) = Tells v r × TellsAll vs rs
  TellsAll _ _ = ⊥

  -- One of these branches names no event of the history.
  abbrev pub Absent : List BranchResult → Type 0
  Absent bs = (b : BranchResult) × Memᴰ b bs × (by_seq b.seq events ≡ none)

  abbrev pub Dangling : Detail → Type 0
  Dangling (Detail.join _ _ _ _ _ branches) = Absent branches
  Dangling _ = ⊥

  -- The rounds cannot be read back: a join with a policy has a branch that names no event.
  abbrev pub Unreadable : Err → Type 0
  Unreadable x =
      (x ≡ Err.missing_event)
      × (v : Event) × Memᴰ v events
      × (is_round v ≡ true)
      × Dangling v.detail

  join_branches-Answered :
      (bs : List BranchResult)
      → Ensures
          (λ x. (x ≡ Err.missing_event) × Absent bs)
          (λ js. (map (λ (b : JoinBranch). b.result) js ≡ bs) × All Answered js)
          (join_branches events bs)
  unfolding join_branches
  join_branches-Answered [] = (refl, tt)
  join_branches-Answered (b ∷ bs) =
      Ensures-bind _ (λ v. by_seq b.seq events ≡ some v) _ (or_fail (by_seq b.seq events) _) _
        (Ensures-map _ _ _ _ (or_fail (by_seq b.seq events) Err.missing_event)
          (λ x e. (e.0, (b, Memᴰ.head refl, e.1))) (λ v at. at)
          (or_fail-Ensures (by_seq b.seq events) Err.missing_event))
        λ v _ at.
          Ensures-bind _ _ _ (join_branches events bs) _
            (Ensures-map _ _ _ _ (join_branches events bs)
              (λ x (e, (c, here, gone)). (e, (c, Memᴰ.tail here, gone))) (λ js h. h)
              (join_branches-Answered bs))
            λ js _ h. (ap (λ (x : List BranchResult). b ∷ x) h.0, ((v, at, refl), h.1))

  -- What one event gives.
  abbrev Given : Event → Option RoundResult → Type 0
  Given v none = names_policy v.detail ≡ false
  Given v (some r) = (names_policy v.detail ≡ true) × Tells v r

  round_of-Given :
      (v : Event) (d : Detail)
      → v.detail ≡ d
      → Ensures
          (λ x. (x ≡ Err.missing_event) × (names_policy v.detail ≡ true) × Dangling v.detail)
          (Given v)
          (round_of events v d)
  unfolding round_of
  round_of-Given v (Detail.join scope at tokens policy verdict branches) e =
      Ensures-if _ (Given v) (has_policy policy) _ _
        (λ y.
          Ensures-bind _ _ (Given v) (join_branches events branches) _
            (Ensures-map _ _ _ _ (join_branches events branches)
              (λ x lost. (lost.0, ap names_policy e ∙ y, subst Dangling (sym e) lost.1)) (λ js h. h)
              (join_branches-Answered branches))
            λ js _ h. (
              ap names_policy e ∙ y,
              (tokens, e ∙ ap (Detail.join scope at tokens policy verdict) (sym h.0), refl, h.1),
            ))
        (λ n. ap names_policy e ∙ n)
  round_of-Given v Detail.empty e = ap names_policy e
  round_of-Given v (Detail.assignment a b c) e = ap names_policy e
  round_of-Given v (Detail.step s) e = ap names_policy e
  round_of-Given v (Detail.failure k raw) e = ap names_policy e
  round_of-Given v (Detail.split a b c) e = ap names_policy e
  round_of-Given v (Detail.waiting o) e = ap names_policy e
  round_of-Given v (Detail.cancel r) e = ap names_policy e
  round_of-Given v (Detail.deadline a b c) e = ap names_policy e
  round_of-Given v (Detail.expiry a) e = ap names_policy e
  round_of-Given v (Detail.cause c) e = ap names_policy e

  TellsAll-add :
      (v : Event) (vs : List Event)
      → is_joined v.kind ≡ true
      → (o : Option RoundResult) (rs : List RoundResult) → Given v o
      → TellsAll (filter is_round vs) rs
      → TellsAll (filter is_round (v ∷ vs)) (add_round o rs)
  TellsAll-add v vs joins none rs given h = rw (joins, given) h
  TellsAll-add v vs joins (some r) rs given h = rw (joins, given.0) (given.1, h)

  rounds_of-TellsAll :
      (vs : List Event)
      → All (λ (v : Event). Memᴰ v events) vs
      → Ensures Unreadable (TellsAll (filter is_round vs)) (rounds_of events vs)
  unfolding rounds_of
  rounds_of-TellsAll [] here = tt
  rounds_of-TellsAll (v ∷ vs) here =
      let later = rounds_of-TellsAll vs here.1 in
      let told = TellsAll (filter is_round vs) in
      elim (Bool-cases (is_joined v.kind)) [
        | inr other ↦
            rw other (Ensures-bind Unreadable told _ (rounds_of events vs) _ later (λ rs _ h. h))
        | inl joins ↦ rw joins (
            Ensures-bind Unreadable (Given v) _ (round_of events v v.detail) _
              (Ensures-map _ Unreadable _ _ (round_of events v v.detail)
                (λ x (e, named, lost). (e, v, here.0, rw (joins, named) refl, lost)) (λ o h. h)
                (round_of-Given v v.detail refl))
              λ o _ given.
                Ensures-bind Unreadable told _ (rounds_of events vs) _ later
                  λ rs _ h. rw joins at (TellsAll-add v vs joins o rs given h))
      ]

  -- Results told by sorted events are sorted.
  TellsAll-after :
      (n : ℕ) (vs : List Event) (rs : List RoundResult)
      → TellsAll vs rs
      → All (λ (v : Event). ltb v.seq n ≡ false) vs
      → All (λ (r : RoundResult). ltb r.seq n ≡ false) rs
  TellsAll-after n [] [] t h = tt
  TellsAll-after n (v ∷ vs) (r ∷ rs) ((tokens, said, same, branches), t) h =
      (subst (λ (i : ℕ). ltb i n ≡ false) same h.0, TellsAll-after n vs rs t h.1)
  TellsAll-after n [] (r ∷ rs) t h = absurd t
  TellsAll-after n (v ∷ vs) [] t h = tt

  TellsAll-Sorted :
      (vs : List Event) (rs : List RoundResult)
      → TellsAll vs rs
      → Sorted sooner_event vs
      → Sorted earlier rs
  TellsAll-Sorted [] [] t s = tt
  TellsAll-Sorted (v ∷ vs) (r ∷ rs) ((tokens, said, same, branches), t) s = (
    subst (λ (i : ℕ). All (λ (x : RoundResult). ltb x.seq i ≡ false) rs) same
        (TellsAll-after v.seq vs rs t s.0),
    TellsAll-Sorted vs rs t s.1,
  )
  TellsAll-Sorted [] (r ∷ rs) t s = absurd t
  TellsAll-Sorted (v ∷ vs) [] t s = tt

All-own :
    {A : Type 0} (xs ys : List A) → ((a : A) → Memᴰ a xs → Memᴰ a ys) → All (λ a. Memᴰ a ys) xs
All-own [] ys f = tt
All-own (x ∷ xs) ys f = (f x (Memᴰ.head refl), All-own xs ys (λ a m. f a (Memᴰ.tail m)))

-- JoinResults reports exactly one result for each join of a block with a policy in the history, in
-- the order of the history. Each says what its event recorded: its scope, join, policy, verdict and
-- Seq, and for every branch, in the order of the event, its outcome with the actor, the comment and
-- the cause of the event that the branch names. It fails only where the case cannot be read, or where
-- a branch of such a join names no event of the history.
pub join_results-Recorded :
    (id : ℕ) (db : Db) (events : List Event)
    → events_of id db ≡ ok events
    → Ensures
        (λ x. (get_by_id id db ≡ err x) ⊎ Unreadable events x)
        (TellsAll events (filter is_round events))
        (join_results id db)
unfolding join_results
join_results-Recorded id db events read =
    let Told = TellsAll events (filter is_round events) in
    Ensures-bind _ _ Told (get_by_id id db) _
      (Ensures-map _ _ _ _ (get_by_id id db) (λ x e. inl e) (λ c e. e)
        (Ensures-own (get_by_id id db)))
      λ c _ _. rw read (
        Ensures-bind _ Told Told (rounds_of events events) _
          (Ensures-map (Unreadable events) _ Told Told (rounds_of events events) (λ x u. inr u)
            (λ rs h. h) (rounds_of-TellsAll events events (All-own events events (λ a m. m))))
          λ rs _ h.
            subst Told
              (sym (
                sort_by_same earlier rs (
                  TellsAll-Sorted events (filter is_round events) rs h (
                    filter-Sorted sooner_event is_round events
                      (events_of-Sorted id db events read)))))
              h)
