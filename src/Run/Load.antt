-- ===== src/Run/Load.antt =====
-- What Engine.loadRun hands to a call (workflow/run.go): the stored case, no event planned yet, and
-- each token where it stood.
use vogel.Prelude.{
  ◌≡◌, refl, inl, inr, Option, none, some, List, [], ◌∷◌, ◌&&◌, Bool-cases, is_empty, ◌==◌, nat_eq,
  All,
}
use vogel.Errors.{Returns, Returns-if}
use vogel.Definition.{Definition, Eligibility, is_zero}
use vogel.Case.{Case, Token, Scope, is_active, is_open}
use vogel.Run.{Run, touch, contains, write_token, put_token, fill, fill_eligibility, load_run}

-- `P` says of a token what its eligibility has no part in.
pub record Loaded (P : Token → Type 0) (c : Case) (d : Definition) (ts : List Token) (r : Run)
    : Type 0 where
  pub base : r.base_seq ≡ c.last_seq
  pub events : r.events ≡ []
  pub definition : r.definition ≡ d
  pub case : r.case ≡ c
  pub steps : r.gateway_steps ≡ 0
  pub tokens : All P ts → All P r.tokens

module _ (P : Token → Type 0) (c : Case) (d : Definition) (all : List Token) where
  put-All : (t : Token) → P t → (ts : List Token) → All P ts → All P (put_token t ts)
  unfolding put_token
  put-All t new [] h = tt
  put-All t new (u ∷ ts) h = (
    elim (Bool-cases (u.id == t.id)) [ inl same ↦ rw same new | inr other ↦ rw other h.0 ],
    put-All t new ts h.1,
  )

  write_token-Loaded :
      (t : Token) (r : Run)
      → (All P all → P t)
      → Loaded P c d all r
      → Loaded P c d all (write_token t r)
  unfolding write_token touch
  write_token-Loaded t r new h = elim (Bool-cases (contains r.created t.id)) [
    | inl y ↦ rw y (record {
      base = h.base;
      events = h.events;
      definition = h.definition;
      case = h.case;
      steps = h.steps;
      tokens = λ a. put-All t (new a) r.tokens (h.tokens a);
    })
    | inr y ↦ rw y (record {
      base = h.base;
      events = h.events;
      definition = h.definition;
      case = h.case;
      steps = h.steps;
      tokens = λ a. put-All t (new a) r.tokens (h.tokens a);
    })
  ]

  module _ (blind : (t : Token) (el : Eligibility) → P t → P (record t { eligible = el })) where
    fill-Loaded :
        (t : Token) (o : Option Eligibility) (r : Run)
        → (All P all → P t)
        → Loaded P c d all r
        → Loaded P c d all (fill t o r)
    unfolding fill
    fill-Loaded t none r new h = h
    fill-Loaded t (some el) r new h =
        write_token-Loaded (record t { eligible = el }) r (λ a. blind t el (new a)) h

    fill_eligibility-Loaded :
        (ts : List Token) (r : Run)
        → (All P all → All P ts)
        → Loaded P c d all r
        → Loaded P c d all (fill_eligibility ts r)
    unfolding fill_eligibility
    fill_eligibility-Loaded [] r sub h = h
    fill_eligibility-Loaded (t ∷ ts) r sub h =
        elim (Bool-cases (is_active t.status && is_zero t.eligible)) [
          | inl y ↦
              rw y (
                fill_eligibility-Loaded ts _ (λ a. (sub a).1)
                  (fill-Loaded t _ r (λ a. (sub a).0) h))
          | inr y ↦ rw y (fill_eligibility-Loaded ts r (λ a. (sub a).1) h)
        ]

    pub load_run-Loaded : (ss : List Scope) → Returns (Loaded P c d all) (load_run all ss c d)
    unfolding load_run
    load_run-Loaded ss =
        Returns-if (Loaded P c d all) (is_empty all && is_open c.status) _ _ (λ _. tt)
          λ _.
            fill_eligibility-Loaded all _ (λ a. a)
              (record {
                base = refl;
                events = refl;
                definition = refl;
                case = refl;
                steps = refl;
                tokens = λ a. a;
              })
