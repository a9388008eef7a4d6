-- ===== src/Engine/Register.antt =====
-- workflow/engine.go: New, Register and RegisterGuard, which fill an engine's maps. A map is the list
-- of its entries; a definition stands for itself under the key of its name and version.
use vogel.Prelude.{
  ltb, String, Bool, true, false, not, ◌&&◌, Option, none, some, List, [], ◌∷◌, ℤ, pos, negsuc,
  find, filter, any, is_empty, ◌==◌, string_eq, nat_eq, if◌then◌else◌,
}
use vogel.Errors.{Err, Result, ok, err, ◌>>◌, fail_if}
use vogel.Definition.{Definition}
use vogel.Names.{effect_names, deadline_rules, assign_rules}
use vogel.Engine.{Engine, EffectSink, GuardFunc, int_eqb}
use vogel.Validate.{is_valid}

-- Go's `<` on integers.
unfoldable pub int_ltb : ℤ → ℤ → Bool
int_ltb (pos a) (pos b) = ltb a b
int_ltb (negsuc a) (pos b) = true
int_ltb (pos a) (negsuc b) = false
int_ltb (negsuc a) (negsuc b) = ltb b a

abbrev pub no_port {ℓ} : {A : Type ℓ} → Option A → Bool
no_port none = true
no_port (some a) = false

unfoldable pub knows_effect : Option EffectSink → String → Bool
knows_effect none name = false
knows_effect (some sink) name = sink.has_effect name

abbrev same_key : Definition → Definition → Bool
same_key a b = a.name == b.name && int_eqb a.version b.version

abbrev pub newer : Definition → Option Definition → Bool
newer d none = true
newer d (some cur) = int_ltb cur.version d.version

-- The two maps with the definition put in.
unfoldable pub put_definition : Definition → Engine → Engine
unfolding int_eqb
put_definition d e = record e {
  definitions = d ∷ filter (λ (x : Definition). not (same_key d x)) e.definitions;
  latest =
      if newer d (find (λ (x : Definition). x.name == d.name) e.latest)
      then d ∷ filter (λ (x : Definition). not (x.name == d.name)) e.latest
      else e.latest;
}

-- Engine.checkEffects
unfoldable pub check_effects : Engine → Definition → Result (Unit {0})
check_effects e d =
    fail_if (any (λ (name : String). not (knows_effect e.effect_sink name)) (effect_names d))
      Err.unknown_effect

-- Engine.Register
unfoldable pub register : Engine → Definition → Result Engine
register e d = do
  fail_if (not (is_valid d)) Err.invalid_definition
  check_effects e d
  fail_if (not (is_empty (deadline_rules d)) && no_port e.deadlines) Err.unknown_deadline_rule
  fail_if (not (is_empty (assign_rules d)) && no_port e.assignees) Err.unknown_assign_rule
  ok (put_definition d e)

-- Engine.RegisterGuard
unfoldable pub register_guard : Engine → String → Option GuardFunc → Result Engine
register_guard e name none = if name == "" then err Err.no_guard_name else err Err.no_guard_func
register_guard e name (some fn) =
    if name == ""
    then err Err.no_guard_name
    else ok (record e {
      guards = (name, fn) ∷ filter (λ (g : String × GuardFunc). not (g.0 == name)) e.guards;
    })

abbrev pub registered_or : Engine → Result Engine → Engine
registered_or e (ok e') = e'
registered_or e (err x) = e

-- The loop of New over the definitions of its options: one that fails is logged and skipped.
unfoldable pub register_all : List Definition → Engine → Engine
register_all [] e = e
register_all (d ∷ ds) e = register_all ds (registered_or e (register e d))

-- New, after the fields from its configuration and options: the maps start empty.
unfoldable pub new_engine : Engine → List Definition → Engine
new_engine e pending =
    register_all pending (record e { definitions = []; latest = []; guards = [] })
