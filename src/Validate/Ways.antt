-- ===== src/Validate/Ways.antt =====
-- The gateways of a valid definition: a decision has a route to take, a split has branches, and a
-- join has one way out (workflow/move.go: resolveRoute; workflow/run.go: split and tryJoin).
use vogel.Prelude.{
  ltb, String, Bool, true, false, not, some, List, [], ◌∷◌, ◌≡◌, ◌⊎◌, refl, ap, arith, length,
  is_empty, ◌==◌, string_eq, nat_eq, inl, inr, Bool-cases, if◌then◌else◌, All,
}
use vogel.Errors.{ok, ◌>>=◌}
use vogel.Definition.{
  Definition, Node, NodeKind, node, Transition, transitions_from, is_automatic, is_split,
  is_decision, is_join,
}
use vogel.Case.{Case, Token}
use vogel.Engine.{Engine, GuardFunc, lookup_guard}
use vogel.Run.{Run, snapshot}
use vogel.Split.{resolve_route, inclusive_routes, taken_routes, is_parallel}
use vogel.Join.{the_only}
use vogel.Rules.{Violation, is_parallel_split}
use vogel.Rules.Routes.{ends_unguarded, default_checks, join_checks, route_checks}
use vogel.Validate.{is_valid}
use vogel.Validate.Parts.{if-nil, report_if-nil}
use vogel.Validate.Exits.{outgoing-transitions_from, node-routes}

-- What the rules say of the routes of an automatic node.
abbrev pub Routed : NodeKind → List Transition → Type 0
Routed NodeKind.join ts = (t : Transition) × (ts ≡ t ∷ []) × ((t.guard == "") ≡ true)
Routed NodeKind.parallel ts = ltb (length ts) 2 ≡ false
Routed NodeKind.decision ts = ends_unguarded ts ≡ true
Routed NodeKind.inclusive ts = ends_unguarded ts ≡ true
Routed _ ts = Unit

join_checks-nil :
    (n : Node) (ts : List Transition)
    → join_checks n ts ≡ []
    → (t : Transition) × (ts ≡ t ∷ []) × ((t.guard == "") ≡ true)
unfolding join_checks
join_checks-nil n (t ∷ []) h = (t, refl, ground (arith, report_if-nil (not (t.guard == ""))))
join_checks-nil n [] h = cc
join_checks-nil n (t ∷ u ∷ ts) h = cc

default_checks-nil :
    (n : Node) (ts : List Transition) → default_checks n ts ≡ [] → ends_unguarded ts ≡ true
unfolding default_checks
default_checks-nil n ts h = ground arith

few-nil :
    (n : Node) (v : Violation) (ts : List Transition)
    → (if ltb (length ts) 2 then v ∷ [] else default_checks n ts) ≡ []
    → ends_unguarded ts ≡ true
few-nil n v ts h = default_checks-nil n ts (if-nil (ltb (length ts) 2) v [] _ h).1

Routed-of :
    (k : NodeKind) (n : Node) (v : Violation) (ts : List Transition)
    → (if not (is_automatic k)
        then []
        else if is_join k
        then join_checks n ts
        else if ltb (length ts) 2
        then v ∷ []
        else if is_parallel_split k
        then []
        else default_checks n ts)
      ≡ []
    → Routed k ts
unfolding is_automatic is_split
Routed-of NodeKind.task n v ts h = tt
Routed-of NodeKind.alias_task n v ts h = tt
Routed-of (NodeKind.unknown s) n v ts h = tt
Routed-of NodeKind.decision n v ts h = few-nil n v ts h
Routed-of NodeKind.inclusive n v ts h = few-nil n v ts h
Routed-of NodeKind.parallel n v ts h = (if-nil (ltb (length ts) 2) v [] [] h).0
Routed-of NodeKind.join n v ts h = join_checks-nil n ts h

pub node-Routed :
    (d : Definition) (id : String) (n : Node)
    → is_valid d ≡ true
    → node d id ≡ some n
    → Routed n.kind (transitions_from d n.id)
unfolding route_checks
node-Routed d id n h e =
    let (named, silent) = node-routes d h id n e in
    let reported = rw (named, outgoing-transitions_from d h n.id) at silent in
    Routed-of n.kind n _ (transitions_from d n.id) reported

module _ (e : Engine) (c : Case) where
  -- The guard of a route, where it has one, is registered and answers.
  abbrev pub Answers : Transition → Type 0
  Answers t =
      ((t.guard == "") ≡ true)
      ⊎ ((g : GuardFunc) × (b : Bool) × (lookup_guard e t.guard ≡ ok g) × (g c ≡ ok b))

  resolve_route-ends :
      (ts : List Transition)
      → ends_unguarded ts ≡ true
      → All Answers ts
      → (t : Transition) × (resolve_route e ts c ≡ ok t)
  unfolding resolve_route
  resolve_route-ends [] h a = cc
  resolve_route-ends (t ∷ []) h a = (t, rw h refl)
  resolve_route-ends (t ∷ u ∷ ts) h a = elim (Bool-cases (t.guard == "")) [
    | inl free ↦ (t, rw free refl)
    | inr guarded ↦ elim a.0 [
      | inl free ↦ cc
      | inr (g, true, found, passed) ↦ (t, rw (guarded, found, passed) refl)
      | inr (g, false, found, refused) ↦
          let (v, later) = resolve_route-ends (u ∷ ts) h a.1 in
          (v, rw (guarded, found, refused) later)
    ]
  ]

  inclusive_routes-ends :
      (ts : List Transition)
      → ends_unguarded ts ≡ true
      → All Answers ts
      → (taken : List Transition) × (fallback : List Transition) × (inclusive_routes e ts c
          ≡ ok (taken, fallback))
        × (is_empty fallback ≡ false)
  unfolding inclusive_routes
  inclusive_routes-ends [] h a = cc
  inclusive_routes-ends (t ∷ []) h a = ([], t ∷ [], rw h refl, refl)
  inclusive_routes-ends (t ∷ u ∷ ts) h a =
      let (taken, fallback, later, some_left) = inclusive_routes-ends (u ∷ ts) h a.1 in
      elim (Bool-cases (t.guard == "")) [
        | inl free ↦ (taken, t ∷ fallback, rw (free, later) refl, refl)
        | inr guarded ↦ elim a.0 [
          | inl free ↦ cc
          | inr (g, true, found, passed) ↦
              (t ∷ taken, fallback, rw (guarded, found, passed, later) refl, some_left)
          | inr (g, false, found, refused) ↦
              (taken, fallback, rw (guarded, found, refused, later) refl, some_left)
        ]
      ]

pub decision-Routed :
    (k : NodeKind) (ts : List Transition)
    → is_decision k ≡ true
    → Routed k ts
    → ends_unguarded ts ≡ true
decision-Routed NodeKind.decision ts h r = r
decision-Routed NodeKind.task ts h r = cc
decision-Routed NodeKind.alias_task ts h r = cc
decision-Routed NodeKind.parallel ts h r = cc
decision-Routed NodeKind.inclusive ts h r = cc
decision-Routed NodeKind.join ts h r = cc
decision-Routed (NodeKind.unknown s) ts h r = cc

pub join-Routed :
    (k : NodeKind) (ts : List Transition)
    → is_join k ≡ true
    → Routed k ts
    → (t : Transition) × (ts ≡ t ∷ []) × ((t.guard == "") ≡ true)
join-Routed NodeKind.join ts h r = r
join-Routed NodeKind.task ts h r = cc
join-Routed NodeKind.alias_task ts h r = cc
join-Routed NodeKind.parallel ts h r = cc
join-Routed NodeKind.inclusive ts h r = cc
join-Routed NodeKind.decision ts h r = cc
join-Routed (NodeKind.unknown s) ts h r = cc

-- A decision of a valid definition has a route to take: if the guards that its routes name are
-- registered and answer without an error, resolveRoute returns a route.
pub resolve_route-returns :
    (d : Definition) (e : Engine) (c : Case) (id : String) (n : Node)
    → is_valid d ≡ true
    → node d id ≡ some n
    → is_decision n.kind ≡ true
    → All (Answers e c) (transitions_from d n.id)
    → (t : Transition) × (resolve_route e (transitions_from d n.id) c ≡ ok t)
resolve_route-returns d e c id n h found is answers =
    resolve_route-ends e c (transitions_from d n.id)
      (decision-Routed n.kind _ is (node-Routed d id n h found)) answers

-- A join of a valid definition has exactly one way out, without a guard, which is what tryJoin
-- asks for before it routes on.
the_only-returns :
    (d : Definition) (id : String) (n : Node)
    → is_valid d ≡ true
    → node d id ≡ some n
    → is_join n.kind ≡ true
    → (t : Transition) × (the_only (transitions_from d n.id) ≡ ok t) × ((t.guard == "") ≡ true)
unfolding the_only
the_only-returns d id n h found is =
    let (t, only, free) = join-Routed n.kind _ is (node-Routed d id n h found) in
    (t, ap the_only only, free)

split-taken :
    (e : Engine) (tok : Token) (n : Node) (run : Run) (k : NodeKind) (ts : List Transition)
    → is_split k ≡ true
    → Routed k ts
    → All (Answers e (snapshot tok n.id run)) ts
    → (taken : List Transition) × ((if is_parallel k then ok ts else do
      (passing, fallback) ← inclusive_routes e ts (snapshot tok n.id run)
      ok (if is_empty passing then fallback else passing))
        ≡ ok taken)
      × (is_empty taken ≡ false)
unfolding is_split is_parallel
split-taken e tok n run NodeKind.parallel ts h r a = (ts, refl, ground arith)
split-taken e tok n run NodeKind.inclusive ts h r a =
    let (passing, fallback, found, some_left) =
      inclusive_routes-ends e (snapshot tok n.id run) ts r a in
    (if is_empty passing then fallback else passing, rw found refl, ground arith)
split-taken e tok n run NodeKind.task ts h r a = cc
split-taken e tok n run NodeKind.alias_task ts h r a = cc
split-taken e tok n run NodeKind.decision ts h r a = cc
split-taken e tok n run NodeKind.join ts h r a = cc
split-taken e tok n run (NodeKind.unknown s) ts h r a = cc

-- A split of a valid definition always opens a branch: if the guards that its routes name are
-- registered and answer without an error, the loop that collects the routes ends with at least one.
pub taken_routes-returns :
    (e : Engine) (id : String) (tok : Token) (n : Node) (run : Run)
    → is_valid run.definition ≡ true
    → node run.definition id ≡ some n
    → is_split n.kind ≡ true
    → All (Answers e (snapshot tok n.id run)) (transitions_from run.definition n.id)
    → (taken : List Transition) × (taken_routes e tok n run ≡ ok taken) × (is_empty taken ≡ false)
unfolding taken_routes
taken_routes-returns e id tok n run h found is answers =
    split-taken e tok n run n.kind (transitions_from run.definition n.id) is
      (node-Routed run.definition id n h found) answers
