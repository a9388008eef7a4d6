-- ===== src/Route/Leads.antt =====
-- What Validate tells of the transitions and gateways that automatic routing meets (workflow/run.go,
-- workflow/workflow.go).
use vogel.Prelude.{
  ℕ, suc, ◌+◌, String, Bool, true, false, ◌≡◌, refl, sym, subst, Option, none, some, List, [], ◌∷◌,
  arith, filter, ltb, string_eq, nat_eq, inl, inr, Bool-cases, is_empty, All, All-of_All,
}
use vogel.Errors.{Err, fail_if, or_fail, Ensures, Only}
use vogel.Definition.{
  Definition, Node, NodeKind, node, Transition, transitions_from, is_split, is_join,
}
use vogel.Case.{Token}
use vogel.Engine.{Engine, max_gateway_steps}
use vogel.Run.{Run, gateway_step}
use vogel.Split.{is_parallel, branch_tokens}
use vogel.Join.{the_only}
use vogel.Route.Depth.{Allows}
use vogel.Rules.Routes.{ends_unguarded}
use vogel.Validate.{is_valid}
use vogel.Validate.Ends.{is_valid-Known}
use vogel.Validate.Ways.{Routed, node-Routed, join-Routed}

-- Any error but those of a definition that does not hold together.
abbrev pub SoundErr : Err → Type 0
SoundErr Err.node_not_found = ⊥
SoundErr Err.no_route = ⊥
SoundErr Err.bad_join = ⊥
SoundErr _ = Unit

abbrev pub allows : Allows SoundErr
allows = record {
  guard_missing = tt;
  deadline_missing = tt;
  assign_missing = tt;
  rejects = tt;
  bad_outcome = tt;
}

All-filter :
    {A : Type 0} (P : A → Type 0) (p : A → Bool) (xs : List A) → All P xs → All P (filter p xs)
All-filter P p [] h = tt
All-filter P p (x ∷ xs) h = elim (Bool-cases (p x)) [
  | inl y ↦ rw (y, All) (h.0, All-filter P p xs h.1)
  | inr n ↦ rw n (All-filter P p xs h.1)
]

pub or_fail-have :
    {A : Type 0} (o : Option A) (x : Err) (a : A) → o ≡ some a → Only SoundErr (or_fail o x)
unfolding or_fail
or_fail-have none x a h = cc
or_fail-have (some b) x a h = tt

pub fail_if-pass : (b : Bool) (x : Err) → b ≡ false → Only SoundErr (fail_if b x)
fail_if-pass true x h = cc
fail_if-pass false x h = tt

pub split-some :
    (k : NodeKind) (ts taken : List Transition)
    → is_split k ≡ true
    → Routed k ts
    → (is_parallel k ≡ false → ends_unguarded ts ≡ true → is_empty taken ≡ false)
    → (is_parallel k ≡ true → taken ≡ ts)
    → is_empty taken ≡ false
unfolding is_split is_parallel
split-some NodeKind.parallel ts taken h r serial same =
    let q = same refl in rw q (ground (arith, r))
split-some NodeKind.inclusive ts taken h r serial same = serial refl r
split-some NodeKind.task ts taken h r serial same = cc
split-some NodeKind.alias_task ts taken h r serial same = cc
split-some NodeKind.decision ts taken h r serial same = cc
split-some NodeKind.join ts taken h r serial same = cc
split-some (NodeKind.unknown s) ts taken h r serial same = cc

-- The definition has the node to which a transition leads.
abbrev pub Leads : Definition → Transition → Type 0
Leads d t = (n : Node) × (node d t.to ≡ some n)

abbrev pub On : Definition → Run → Type 0
On d r = r.definition ≡ d

module _ (d : Definition) (valid : is_valid d ≡ true) where
  Leads-from : (id : String) → All (Leads d) (transitions_from d id)
  unfolding transitions_from
  Leads-from id =
      All-filter (Leads d) _ d.transitions
        (All-of_All (Leads d) d.transitions (λ t k. (k.1, k.3)) (is_valid-Known d valid))

  pub Leads-run :
      (r : Run) (id : String) → (On d) r → All (Leads d) (transitions_from r.definition id)
  Leads-run r id on =
      subst (λ (x : Definition). All (Leads d) (transitions_from x id)) (sym on) (Leads-from id)

  pub Routed-run :
      (r : Run) (id : String) (n : Node)
      → (On d) r
      → node d id ≡ some n
      → Routed n.kind (transitions_from r.definition n.id)
  Routed-run r id n on found =
      subst (λ (x : Definition). Routed n.kind (transitions_from x n.id)) (sym on)
        (node-Routed d id n valid found)

  pub the_only-Leads :
      (r : Run) (id : String) (n : Node)
      → (On d) r
      → node d id ≡ some n
      → is_join n.kind ≡ true
      → Ensures SoundErr (Leads d) (the_only (transitions_from r.definition n.id))
  unfolding the_only
  the_only-Leads r id n on found is =
      let (t, one, free) = join-Routed n.kind _ is (Routed-run r id n on found) in
      let leads : All (Leads d) (t ∷ []) = subst (All (Leads d)) one (Leads-run r n.id on) in
      subst (λ (ts : List Transition). Ensures SoundErr (Leads d) (the_only ts)) (sym one) leads.0

  pub branch-Leads :
      (e : Engine) (n case_id scope_id : ℕ) (at : String) (ts : List Transition)
      → All (Leads d) ts
      → All (λ (b : Token × Transition). (Leads d) b.1) (branch_tokens e n case_id scope_id at ts)
  unfolding branch_tokens
  branch-Leads e n case_id scope_id at [] h = tt
  branch-Leads e n case_id scope_id at (t ∷ ts) h =
      (h.0, branch-Leads e (suc n) case_id scope_id at ts h.1)

  pub gateway_step-On : (r : Run) → (On d) r → Ensures SoundErr (On d) (gateway_step r)
  unfolding gateway_step
  gateway_step-On r on = elim (Bool-cases (ltb max_gateway_steps (r.gateway_steps + 1))) [
    | inl t ↦ rw t tt
    | inr f ↦ rw f on
  ]
