-- ===== src/Split/Routes.antt =====
-- Which route a decision takes (workflow/move.go: resolveRoute).
use vogel.Prelude.{
  Bool, true, false, ◌≡◌, refl, inl, inr, ◌⊎◌, List, [], ◌∷◌, ◌==◌, string_eq, Bool-cases,
}
use vogel.Errors.{Err, Result, ok, err, Ensures, Ensures-map, cases-of_result}
use vogel.Definition.{Transition}
use vogel.Case.{Case}
use vogel.Engine.{Engine, GuardFunc, lookup_guard}
use vogel.Split.{resolve_route}

module _ (e : Engine) (c : Case) where
  abbrev Answers : Transition → Result Bool → Type 0
  Answers tr x =
      ((tr.guard == "") ≡ false) × (g : GuardFunc) × (lookup_guard e tr.guard ≡ ok g) × (g c ≡ x)

  -- A route with no guard, or whose guard passes.
  abbrev Passes : Transition → Type 0
  Passes tr = ((tr.guard == "") ≡ true) ⊎ Answers tr (ok true)

  abbrev Refuses : Transition → Type 0
  Refuses tr = Answers tr (ok false)

  abbrev Fails : Transition → Err → Type 0
  Fails tr x = (((tr.guard == "") ≡ false) × (lookup_guard e tr.guard ≡ err x)) ⊎ Answers tr (err x)

  abbrev pub Chosen : List Transition → Transition → Type 0
  Chosen [] tr = ⊥
  Chosen (u ∷ us) tr = ((tr ≡ u) × Passes u) ⊎ (Refuses u × Chosen us tr)

  abbrev pub Unroutable : List Transition → Err → Type 0
  Unroutable [] x = x ≡ Err.no_route
  Unroutable (u ∷ us) x = Fails u x ⊎ (Refuses u × Unroutable us x)

  -- A decision takes the first route whose guard passes or that has none, every guard before it
  -- having refused; it fails with ErrNoRoute if all of them refuse, and with the error of the first
  -- guard that is not registered or fails otherwise.
  pub resolve_route-first :
      (trs : List Transition) → Ensures (Unroutable trs) (Chosen trs) (resolve_route e trs c)
  unfolding resolve_route
  resolve_route-first [] = refl
  resolve_route-first (u ∷ us) = elim (Bool-cases (u.guard == "")) [
    | inl free ↦ rw free (inl (refl, inl free))
    | inr guarded ↦ rw guarded (elim (cases-of_result (lookup_guard e u.guard)) [
      | inr (x, lost) ↦ rw lost (inl (inl (guarded, lost)))
      | inl (g, found) ↦ rw found (elim (cases-of_result (g c)) [
        | inr (x, failed) ↦ rw failed (inl (inr (guarded, g, found, failed)))
        | inl (true, passed) ↦ rw passed (inl (refl, inr (guarded, g, found, passed)))
        | inl (false, refused) ↦ rw refused (
            Ensures-map (Unroutable us) (Unroutable (u ∷ us)) (Chosen us) (Chosen (u ∷ us))
              (resolve_route e us c) (λ x h. inr ((guarded, g, found, refused), h))
              (λ t h. inr ((guarded, g, found, refused), h)) (resolve_route-first us))
      ])
    ])
  ]
