-- ===== src/Engine.antt =====
-- workflow/engine.go: what an engine holds (its registered definitions and guards) and the ports it
-- calls: the clock, the UUID source, the resolvers, the join check and the effect sink. A port is a
-- function; it stands for what that port answers during one call, and a guard for what it answers
-- about the case snapshot it is handed, the caller's transaction being fixed.
pub mod Actors
pub mod Register
pub mod Registered
use vogel.Prelude.{
  ℕ, suc, String, Bool, true, false, not, ◌&&◌, Option, none, some, List, [], ◌∷◌, ℤ, pos, negsuc,
  find, ◌==◌, string_eq, nat_eq, if◌then◌else◌,
}
use vogel.Errors.{Err, Result, ok, ◌>>◌, fail_if, or_fail}
use vogel.Definition.{Definition, Node}
use vogel.Case.{Case, Token, Actor, ActorKind, JoinRecord}
use vogel.Event.{Event}

abbrev pub GuardFunc : Type 0
GuardFunc = Case → Result Bool

pub record DueInput : Type 0 where
  pub rule : String
  pub from : ℕ
  pub case : Case
  pub token : Token

pub record AssignInput : Type 0 where
  pub rule : String
  pub case : Case
  pub token : Token
  pub node : Node
  pub history : List Event

pub record EffectSink : Type 0 where
  pub has_effect : String → Bool
  pub check_db : Result (Unit {0})
  pub dispatch : Definition → Case → List Event → Result (Unit {0})

pub record Engine : Type 0 where
  pub now : ℕ
  -- The n-th identifier that `uuid.New` returns during the call.
  pub uuid : ℕ → ℕ
  pub request_id : String
  pub trace_id : String
  pub span_id : String
  pub join_check : Option (JoinRecord → Result (Unit {0}))
  pub deadlines : Option (DueInput → Result ℕ)
  pub assignees : Option (AssignInput → Result String)
  pub effect_sink : Option EffectSink
  -- The maps `definitions`, keyed by name and version, `latest` and `guards`.
  pub definitions : List Definition
  pub latest : List Definition
  pub guards : List (String × GuardFunc)

int_eqb : ℤ → ℤ → Bool
int_eqb (pos a) (pos b) = a == b
int_eqb (negsuc a) (negsuc b) = a == b
int_eqb _ _ = false

is_positive : ℤ → Bool
is_positive (pos (suc n)) = true
is_positive _ = false

-- Engine.resolveDefinition: a positive version is looked up by key, any other is the latest.
unfoldable pub resolve_definition : Engine → String → ℤ → Result Definition
unfolding int_eqb is_positive or_fail
resolve_definition e name version =
    if is_positive version
    then or_fail
        (find (λ (d : Definition). d.name == name && int_eqb d.version version) e.definitions)
        Err.definition_not_registered
    else or_fail (find (λ (d : Definition). d.name == name) e.latest) Err.definition_not_registered

lookup : {A : Type 0} → String → List (String × A) → Option A
lookup k [] = none
lookup k ((j, v) ∷ m) = if j == k then some v else lookup k m

-- Engine.lookupGuard
unfoldable pub lookup_guard : Engine → String → Result GuardFunc
unfolding lookup or_fail
lookup_guard e name = or_fail (lookup name e.guards) Err.guard_not_registered

unfoldable pub is_system : ActorKind → Bool
is_system ActorKind.system = true
is_system _ = false

-- ActorKind.Valid, and not ActorUnspecified.
unfoldable pub is_recordable : ActorKind → Bool
is_recordable ActorKind.human = true
is_recordable ActorKind.operator = true
is_recordable ActorKind.system = true
is_recordable ActorKind.api_client = true
is_recordable ActorKind.anonymous = true
is_recordable _ = false

unfoldable pub or_human : ActorKind → ActorKind
or_human ActorKind.unset = ActorKind.human
or_human k = k

-- resolveActor: the deprecated `actorID` fills an empty ID and may not contradict a given one.
unfoldable pub resolve_actor : Actor → String → Result Actor
resolve_actor actor actor_id = do
  fail_if (not (actor.id == "") && not (actor_id == "") && not (actor_id == actor.id))
      Err.invalid_actor
  let resolved = record actor {
    id = if actor.id == "" then actor_id else actor.id;
    kind = or_human actor.kind;
  }
  fail_if (not (is_recordable resolved.kind)) Err.invalid_actor
  fail_if (is_system resolved.kind && resolved.id == "") Err.invalid_actor
  ok resolved

-- checkRevision
unfoldable pub check_revision : Case → Option ℕ → Result (Unit {0})
check_revision c none = ok tt
check_revision c (some expected) = fail_if (not (expected == c.revision)) Err.conflict

abbrev pub max_decision_hops : ℕ
max_decision_hops = 32

abbrev pub max_gateway_steps : ℕ
max_gateway_steps = 256
