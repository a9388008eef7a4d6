-- ===== src/History/Upcast.antt =====
-- Reading a history at the current schema (workflow/events.go: upcastEvent, listEvents).
use vogel.Prelude.{
  ℕ, zero, suc, ◌≢◌, ◌⊎◌, if◌then◌else◌, ◌≤◌, ◌<◌, true, false, ◌≡◌, refl, inl, inr, List, [], ◌∷◌,
  map, All, arith, any, ltb, Bool-cases, ◌==◌, string_eq, nat_eq,
}
use mathlib.Core.List.{Memᴰ}
use vogel.Errors.{Err, Ensures}
use vogel.Case.{ActorKind}
use vogel.Event.{Event, current_event_schema}
use vogel.History.{upcast, read_events, or_unspecified}

-- An event at the current schema names its actor in both fields, an actor of a kind, a token and a
-- scope where its case has an identifier, and a version of at least 1.
pub record Current (v : Event) : Type 0 where
  pub versioned : 1 ≤ v.schema_version
  pub actor : v.actor.id ≡ v.actor_id
  pub kind : or_unspecified v.actor.kind ≡ v.actor.kind
  pub token : (v.token_id ≢ 0) ⊎ (v.case_id ≡ 0)
  pub scope : (v.scope_id ≢ 0) ⊎ (v.case_id ≡ 0)

or_unspecified-twice : (k : ActorKind) → or_unspecified (or_unspecified k) ≡ or_unspecified k
unfolding or_unspecified
or_unspecified-twice ActorKind.unset = refl
or_unspecified-twice ActorKind.human = refl
or_unspecified-twice ActorKind.operator = refl
or_unspecified-twice ActorKind.system = refl
or_unspecified-twice ActorKind.api_client = refl
or_unspecified-twice ActorKind.anonymous = refl
or_unspecified-twice ActorKind.unspecified = refl
or_unspecified-twice (ActorKind.unknown s) = refl

filled : (id case : ℕ) → ((if id == 0 then case else id) ≢ 0) ⊎ (case ≡ 0)
filled zero zero = inr refl
filled zero (suc c) = inl (ground arith)
filled (suc i) c = inl (ground arith)

upcast-Current : (v : Event) → Current (upcast v)
unfolding upcast
upcast-Current v = record {
  versioned = ground arith;
  actor = refl;
  kind = or_unspecified-twice v.actor.kind;
  token = filled v.token_id v.case_id;
  scope = filled v.scope_id v.case_id;
}

upcast-All : (vs : List Event) → All Current (map upcast vs)
upcast-All [] = tt
upcast-All (v ∷ vs) = (upcast-Current v, upcast-All vs)

any-future :
    (vs : List Event)
    → any (λ (v : Event). ltb current_event_schema v.schema_version) vs ≡ false
    → All (λ (v : Event). v.schema_version ≤ current_event_schema) vs
any-future [] h = tt
any-future (v ∷ vs) h = (ground arith, any-future vs (ground arith))

future-any :
    (vs : List Event)
    → any (λ (v : Event). ltb current_event_schema v.schema_version) vs ≡ true
    → (v : Event) × Memᴰ v vs × (current_event_schema < v.schema_version)
future-any [] h = cc
future-any (v ∷ vs) h = elim (Bool-cases (ltb current_event_schema v.schema_version)) [
  | inl late ↦ (v, Memᴰ.head refl, ground arith)
  | inr fine ↦ let (w, here, late) = future-any vs (ground arith) in (w, Memᴰ.tail here, late)
]

-- A history that is read is, row for row, the rows at the current schema: each names its actor in
-- both fields, has an actor kind, a version of at least 1, and a token and a scope unless its case has
-- no identifier; and none of the rows was of a later schema than the current one. It is refused only
-- with ErrUnsupportedEventSchema, and only where one of its rows is of a later schema.
pub read_events-Current :
    (vs : List Event)
    → Ensures
        (λ x.
          (x ≡ Err.unsupported_event_schema)
          × (v : Event) × Memᴰ v vs
          × (current_event_schema < v.schema_version))
        (λ us.
          (us ≡ map upcast vs)
          × All Current us
          × All (λ (v : Event). v.schema_version ≤ current_event_schema) vs)
        (read_events vs)
unfolding read_events
read_events-Current vs =
    elim (Bool-cases (any (λ (v : Event). ltb current_event_schema v.schema_version) vs)) [
      | inl future ↦ let (v, here, late) = future-any vs future in rw future (refl, v, here, late)
      | inr none' ↦ rw none' (refl, upcast-All vs, any-future vs none')
    ]
