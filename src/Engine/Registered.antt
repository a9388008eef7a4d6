-- ===== src/Engine/Registered.antt =====
-- Every definition that an engine resolves has passed Validate (workflow/engine.go).
use vogel.Prelude.{
  String, Bool, true, not, ◌&&◌, Option, none, some, List, [], ◌∷◌, ◌≡◌, subst, arith, ℤ, find,
  filter, find-passes, is_empty, Bool-cases, inl, inr, ◌==◌, ==_iff, string_eq, All,
}
use vogel.Errors.{
  Err, Result, ok, err, fail_if, or_fail-ok, Returns, Ensures-any, Returns-if, Ensures-ok, AnyErr,
  fail_if-ok, not-eq-false, Ensures-guard,
}
use vogel.Definition.{Definition}
use vogel.Engine.{Engine, GuardFunc, resolve_definition, is_positive}
use vogel.Engine.Register.{
  no_port, put_definition, check_effects, register, register_guard, registered_or, register_all,
  new_engine, newer,
}
use vogel.Names.{deadline_rules, assign_rules}
use vogel.Validate.{is_valid}

-- The engines that New makes and that Register and RegisterGuard make of them.
pub data Built : Engine → Type 0 where
  made : (e : Engine) (pending : List Definition) → Built (new_engine e pending)
  registers : {e e' : Engine} (d : Definition) → Built e → register e d ≡ ok e' → Built e'
  guards :
      {e e' : Engine} (name : String) (fn : Option GuardFunc)
      → Built e
      → register_guard e name fn ≡ ok e'
      → Built e'

abbrev Checked : List Definition → Type 0
Checked ds = All (λ (d : Definition). is_valid d ≡ true) ds

abbrev AllChecked : Engine → Type 0
AllChecked e = Checked e.definitions × Checked e.latest

Checked-filter : (p : Definition → Bool) (ds : List Definition) → Checked ds → Checked (filter p ds)
Checked-filter p [] h = tt
Checked-filter p (d ∷ ds) h = elim (Bool-cases (p d)) [
  | inl y ↦ rw (y, All) (h.0, Checked-filter p ds h.1)
  | inr n ↦ rw n (Checked-filter p ds h.1)
]

put-Checked :
    (d : Definition) (e : Engine)
    → is_valid d ≡ true
    → AllChecked e
    → AllChecked (put_definition d e)
unfolding put_definition
put-Checked d e valid h =
    let newest = newer d (find (λ (x : Definition). x.name == d.name) e.latest) in
    (
      (valid, Checked-filter _ e.definitions h.0),
      elim (Bool-cases newest) [
        | inl y ↦ rw (y, All) (valid, Checked-filter _ e.latest h.1)
        | inr n ↦ rw n h.1
      ],
    )

register-Checked : (e : Engine) (d : Definition) → AllChecked e → Returns AllChecked (register e d)
unfolding register
register-Checked e d h =
    Ensures-any AllChecked (fail_if (not (is_valid d)) Err.invalid_definition) _ λ u passed.
      let valid = not-eq-false _ (fail_if-ok _ _ u passed) in
      Ensures-any AllChecked (check_effects e d) _ λ _ _.
        Ensures-guard AnyErr AllChecked (not (is_empty (deadline_rules d)) && no_port e.deadlines)
          Err.unknown_deadline_rule _ tt
          (λ _.
            Ensures-guard AnyErr AllChecked (not (is_empty (assign_rules d)) && no_port e.assignees)
              Err.unknown_assign_rule (ok (put_definition d e)) tt (λ _. put-Checked d e valid h))

guard-Checked :
    (e : Engine) (name : String) (fn : Option GuardFunc)
    → AllChecked e
    → Returns AllChecked (register_guard e name fn)
unfolding register_guard
guard-Checked e name none h = Returns-if AllChecked (name == "") _ _ (λ _. tt) (λ _. tt)
guard-Checked e name (some fn) h = Returns-if AllChecked (name == "") _ _ (λ _. tt) (λ _. h)

registered_or-Checked :
    (e : Engine) (r : Result Engine)
    → AllChecked e
    → Returns AllChecked r
    → AllChecked (registered_or e r)
registered_or-Checked e (ok e') h r = r
registered_or-Checked e (err x) h r = h

register_all-Checked :
    (ds : List Definition) (e : Engine) → AllChecked e → AllChecked (register_all ds e)
unfolding register_all
register_all-Checked [] e h = h
register_all-Checked (d ∷ ds) e h =
    register_all-Checked ds (registered_or e (register e d))
      (registered_or-Checked e (register e d) h (register-Checked e d h))

Built-Checked : (e : Engine) → Built e → AllChecked e
unfolding new_engine
Built-Checked _ (made e pending) = register_all-Checked pending _ (tt, tt)
Built-Checked e' (registers {e} d b h) =
    Ensures-ok AnyErr AllChecked (register e d) e' (register-Checked e d (Built-Checked e b)) h
Built-Checked e' (guards {e} name fn b h) =
    Ensures-ok AnyErr AllChecked (register_guard e name fn) e'
      (guard-Checked e name fn (Built-Checked e b)) h

find-Checked :
    (p : Definition → Bool) (ds : List Definition) (d : Definition)
    → Checked ds
    → find p ds ≡ some d
    → is_valid d ≡ true
find-Checked p [] d h found = cc
find-Checked p (x ∷ xs) d h found = elim (Bool-cases (p x)) [
  | inl y ↦
      let one : x ≡ d = ground (arith, y) in subst (λ (z : Definition). is_valid z ≡ true) one h.0
  | inr n ↦ find-Checked p xs d h.1 (ground (arith, n))
]

-- Whatever was registered, and whatever was refused, an engine resolves a name and version only to a
-- definition of that name that passes Validate.
pub resolve_definition-Checked :
    (e : Engine) (name : String) (version : ℤ) (d : Definition)
    → Built e
    → resolve_definition e name version ≡ ok d
    → (is_valid d ≡ true) × (d.name ≡ name)
unfolding resolve_definition
resolve_definition-Checked e name version d b h =
    let checked = Built-Checked e b in
    elim (Bool-cases (is_positive version)) [
      | inl y ↦
          let found = or_fail-ok _ Err.definition_not_registered d (rw y at h) in
          let hit = find-passes _ e.definitions d found in
          (
            find-Checked _ e.definitions d checked.0 found,
            (==_iff d.name name).0 (ground (arith, hit)),
          )
      | inr n ↦
          let found = or_fail-ok _ Err.definition_not_registered d (rw n at h) in
          let hit = find-passes _ e.latest d found in
          (find-Checked _ e.latest d checked.1 found, (==_iff d.name name).0 hit)
    ]
