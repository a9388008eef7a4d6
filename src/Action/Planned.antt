-- ===== src/Action/Planned.antt =====
-- Registry.plan on a definition that the engine registered with the registry as its effect sink
-- (action/action.go, workflow/engine.go).
use mathlib.Core.List.{append-nil, append_assoc}
use vogel.Prelude.{
  String, Bool, true, not, Option, none, some, List, [], ◌∷◌, ◌++◌, ◌≡◌, ◌∙◌, refl, map, arith,
  find, filter, ◌==◌, string_eq, Bool-cases, inl, inr, All, All-append, All-of_All, ap,
}
use vogel.Errors.{Err, ok, fail_if, fail_if-ok, not-eq-false, cases-of_result}
use vogel.Definition.{Definition, Node, node, Transition, transitions_from, find_transition}
use vogel.Case.{Case}
use vogel.Event.{Event, EventKind}
use vogel.Rules.{concat_map}
use vogel.Engine.{Engine}
use vogel.Engine.Register as Registering
use vogel.Engine.Register.{knows_effect, check_effects}
use vogel.Validate.{is_valid}
use vogel.Action.{
  Args, Registry, Queue, Handle, handler, has_effect, register, node_effects, transition_effects,
  effects_for, job_of, event_jobs, plan_from, plan, as_sink,
}
use vogel.Action.Declared.{Declared, check_effects-Declared}

-- The registries that calls of Register make of one.
pub data Grows {H : Type 0} (r : Registry H) : Registry H → Type 0 where
  same : Grows r r
  registers :
      {r' r'' : Registry H} (name : String) (h : Option H)
      → Grows r r'
      → register r' name h ≡ ok r''
      → Grows r r''

-- The jobs that the events call for, by their definition alone.
abbrev pub jobs_for : Definition → Case → List Event → List Args
jobs_for d c events = concat_map (λ (v : Event). map (job_of c v) (effects_for d v)) events

module _ {H : Type 0} where
  register-has_effect :
      (r r' : Registry H) (name : String) (h : Option H) (x : String)
      → register r name h ≡ ok r'
      → has_effect r x ≡ true
      → has_effect r' x ≡ true
  unfolding register has_effect handler
  register-has_effect r r' name none x e known = cc
  register-has_effect r r' name (some h) x e known = ground arith

  Grows-has_effect :
      (r r' : Registry H) (x : String) → Grows r r' → has_effect r x ≡ true → has_effect r' x ≡ true
  Grows-has_effect r _ x same known = known
  Grows-has_effect r r'' x (registers {r'} name h g e) known =
      register-has_effect r' r'' name h x e (Grows-has_effect r r' x g known)

find-All :
    {A : Type 0} (Q : A → Type 0) (p : A → Bool) (xs : List A) (a : A)
    → All Q xs
    → find p xs ≡ some a
    → Q a
find-All Q p [] a h found = cc
find-All Q p (x ∷ xs) a h found = elim (Bool-cases (p x)) [
  | inl y ↦ let one : x ≡ a = ground (arith, y) in rw (← one) h.0
  | inr n ↦ find-All Q p xs a h.1 (rw n at found)
]

filter-All :
    {A : Type 0} (Q : A → Type 0) (p : A → Bool) (xs : List A) → All Q xs → All Q (filter p xs)
filter-All Q p [] h = tt
filter-All Q p (x ∷ xs) h = elim (Bool-cases (p x)) [
  | inl y ↦ rw (y, All) (h.0, filter-All Q p xs h.1)
  | inr n ↦ rw n (filter-All Q p xs h.1)
]

module _ (P : String → Type 0) where
  node_effects-All :
      (ns : List Node) (p : Node → Bool)
      → All (λ (n : Node). All P n.effects) ns
      → (found : Option Node) → find p ns ≡ found
      → All P (node_effects found)
  node_effects-All ns p h none e = tt
  node_effects-All ns p h (some n) e = find-All (λ (n : Node). All P n.effects) p ns n h e

  transition_effects-All :
      (ts : List Transition) (p : Transition → Bool)
      → All (λ (t : Transition). All P t.effects) ts
      → (found : Option Transition) → find p ts ≡ found
      → All P (transition_effects found)
  transition_effects-All ts p h none e = tt
  transition_effects-All ts p h (some t) e =
      find-All (λ (t : Transition). All P t.effects) p ts t h e

  -- What holds of every declared effect holds of those that an event triggers.
  effects_for-All : (d : Definition) (v : Event) → Declared P d → All P (effects_for d v)
  unfolding effects_for node find_transition transitions_from
  effects_for-All d v (of_nodes, of_transitions) =
      let entered =
        node_effects-All d.nodes (λ n. n.id == v.to_state) of_nodes (node d v.to_state) refl in
      let took =
        transition_effects-All (transitions_from d v.from_state) (λ t. t.action == v.action)
          (filter-All (λ (t : Transition). All P t.effects) (λ t. t.from == v.from_state)
            d.transitions of_transitions)
          (find_transition (transitions_from d v.from_state) v.action) refl in
      elim v.kind
        as (λ k. All P (elim k [
          | EventKind.opened ↦ node_effects (node d v.to_state)
          | EventKind.moved ↦
              node_effects (node d v.to_state)
              ++ transition_effects (find_transition (transitions_from d v.from_state) v.action)
          | _ ↦ []
        ])) [
          | EventKind.opened ↦ entered
          | EventKind.moved ↦ All-append P (node_effects (node d v.to_state)) _ entered took
          | _ ↦ tt
        ]

module _ {H : Type 0} (r : Registry H) (c : Case) where
  event_jobs-known :
      (v : Event) (names : List String) (jobs : List Args)
      → All (λ name. has_effect r name ≡ true) names
      → event_jobs r c v names jobs ≡ ok (jobs ++ map (job_of c v) names)
  unfolding event_jobs
  event_jobs-known v [] jobs h = rw (append-nil jobs) refl
  event_jobs-known v (name ∷ names) jobs h = rw h.0 (
      event_jobs-known v names (jobs ++ job_of c v name ∷ []) h.1
      ∙ ap ok (append_assoc jobs (job_of c v name ∷ []) (map (job_of c v) names)))

  plan_from-known :
      (d : Definition) (events : List Event) (jobs : List Args)
      → Declared (λ name. has_effect r name ≡ true) d
      → plan_from r d c events jobs ≡ ok (jobs ++ jobs_for d c events)
  unfolding plan_from
  plan_from-known d [] jobs h = rw (append-nil jobs) refl
  plan_from-known d (v ∷ events) jobs h =
      let here = event_jobs-known v (effects_for d v) jobs (effects_for-All _ d v h) in
      rw here (
        plan_from-known d events (jobs ++ map (job_of c v) (effects_for d v)) h
        ∙ ap ok (append_assoc jobs (map (job_of c v) (effects_for d v)) (jobs_for d c events)))

register-checked :
    (e e' : Engine) (d : Definition)
    → Registering.register e d ≡ ok e'
    → (is_valid d ≡ true) × ((u : Unit {0}) × (check_effects e d ≡ ok u))
unfolding Registering.register
register-checked e e' d h =
    elim (cases-of_result (fail_if (not (is_valid d)) Err.invalid_definition)) [
      | inr (x, bad) ↦ let q = rw bad at h in cc
      | inl (u, good) ↦ (
        not-eq-false _ (fail_if-ok _ _ u good),
        elim (cases-of_result (check_effects e d)) [
          | inr (x, bad) ↦ let q = rw (good, bad) at h in cc
          | inl (w, known) ↦ (w, known)
        ],
      )
    ]

module _ {H : Type 0} {T : Type 0} (q : Queue T) (reg later : Registry H) where
  -- A definition that an engine has registered with a registry of handlers as its effect sink can be
  -- dispatched for good: for every case and all events, that registry, and every registry that later
  -- calls of Register make of it, plans one job for each effect that an event triggers, in order,
  -- and never fails for an unknown effect.
  pub register-planned :
      (e e' : Engine) (d : Definition) (db : Handle) (t : T) (c : Case) (events : List Event)
      → e.effect_sink ≡ some (as_sink q reg db t)
      → Registering.register e d ≡ ok e'
      → Grows reg later
      → plan later d c events ≡ ok (jobs_for d c events)
  unfolding plan as_sink knows_effect
  register-planned e e' d db t c events sunk h grows =
      let (valid, (u, known)) = register-checked e e' d h in
      let (of_nodes, of_transitions) = check_effects-Declared e d u valid known in
      let later_too =
        λ (xs : List String) (p : All (λ name. knows_effect e.effect_sink name ≡ true) xs).
          All-of_All (λ name. has_effect later name ≡ true) xs
            (λ name k. Grows-has_effect reg later name grows (rw sunk at k)) p in
      plan_from-known later c d events [] (
        All-of_All (λ (n : Node). All (λ name. has_effect later name ≡ true) n.effects) d.nodes
            (λ n p. later_too n.effects p) of_nodes,
        All-of_All (λ (x : Transition). All (λ name. has_effect later name ≡ true) x.effects)
            d.transitions (λ x p. later_too x.effects p) of_transitions,
      )
