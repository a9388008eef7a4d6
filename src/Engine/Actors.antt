-- ===== src/Engine/Actors.antt =====
-- Who an event is recorded to (workflow/engine.go: resolveActor).
use vogel.Prelude.{
  String, true, false, not, ◌≡◌, ◌≢◌, refl, inl, inr, ◌⊎◌, ◌&&◌, if◌then◌else◌, sym, ◌==◌,
  string_eq, ==_iff, Bool-cases,
}
use vogel.Errors.{Err, Ensures, Ensures-guard, not-eq-false}
use vogel.Case.{Actor}
use vogel.Engine.{resolve_actor, is_recordable, is_system, or_human}

abbrev either : Actor → String → String
either actor actor_id = if actor.id == "" then actor_id else actor.id

either-first :
    (actor : Actor) (actor_id : String) → (actor.id ≡ "") ⊎ (either actor actor_id ≡ actor.id)
either-first actor actor_id = elim (Bool-cases (actor.id == "")) [
  | inl blank ↦ inl ((==_iff actor.id "").0 blank)
  | inr set ↦ rw set (inr refl)
]

either-second :
    (actor : Actor) (actor_id : String)
    → (not (actor.id == "") && not (actor_id == "") && not (actor_id == actor.id)) ≡ false
    → (actor_id ≡ "") ⊎ (either actor actor_id ≡ actor_id)
either-second actor actor_id agree = elim (Bool-cases (actor.id == "")) [
  | inl blank ↦ rw blank (inr refl)
  | inr set ↦ elim (Bool-cases (actor_id == "")) [
    | inl blank ↦ inl ((==_iff actor_id "").0 blank)
    | inr set' ↦
        let q = rw (set, set') at agree in
        rw set (inr (sym ((==_iff actor_id actor.id).0 (not-eq-false _ q))))
  ]
]

-- The actor that is recorded has one of the five kinds that may act, a human's where the caller gave
-- none; its identifier is the one that the caller gave in either field, and in both only if they
-- agree; a system actor has one. Whom it acts as, on whose behalf and through what are the caller's.
-- The one error is ErrInvalidActor.
resolve_actor-resolved :
    (actor : Actor) (actor_id : String)
    → Ensures
        (λ x. x ≡ Err.invalid_actor)
        (λ a.
          (is_recordable a.kind ≡ true)
          × (a.kind ≡ or_human actor.kind)
          × ((actor.id ≡ "") ⊎ (a.id ≡ actor.id))
          × ((actor_id ≡ "") ⊎ (a.id ≡ actor_id))
          × ((is_system a.kind ≡ false) ⊎ (a.id ≢ ""))
          × (a.acting_as ≡ actor.acting_as)
          × (a.on_behalf_of ≡ actor.on_behalf_of)
          × (a.via ≡ actor.via))
        (resolve_actor actor actor_id)
unfolding resolve_actor
resolve_actor-resolved actor actor_id =
    Ensures-guard _ _ (not (actor.id == "") && not (actor_id == "") && not (actor_id == actor.id)) _
      _ refl
      λ agree. Ensures-guard _ _ (not (is_recordable (or_human actor.kind))) _ _ refl λ known.
        Ensures-guard _ _ (is_system (or_human actor.kind) && (either actor actor_id == "")) _ _
          refl
          λ named. (
            not-eq-false _ known,
            refl,
            either-first actor actor_id,
            either-second actor actor_id agree,
            elim (Bool-cases (is_system (or_human actor.kind))) [
              | inr other ↦ inl other
              | inl system ↦ inr (λ empty.
                  let e = (==_iff (either actor actor_id) "").1 empty in
                  let q = rw (system, e) at named in cc)
            ],
            refl,
            refl,
            refl,
          )
