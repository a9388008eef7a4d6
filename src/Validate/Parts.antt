-- ===== src/Validate/Parts.antt =====
-- Definition.Validate, read back: what it means for each rule that no report was made.
use vogel.Prelude.{Bool, true, false, List, [], ◌∷◌, ◌++◌, ◌≡◌, refl, is_empty, All, if◌then◌else◌}
use vogel.Definition.{Definition}
use vogel.Rules.{Violation, report_if, concat, concat_map}
use vogel.Rules.Nodes.{header_checks, nodes_checks, count_checks}
use vogel.Rules.Transitions.{transitions_checks, on_expire_checks}
use vogel.Rules.Routes.{routes_checks, dead_end_checks}
use vogel.Rules.Cycle.{cycle_checks}
use vogel.Rules.Reach.{reach_checks}
use vogel.Rules.Blocks.Check.{blocks_checks}
use vogel.Rules.Policies.{policies_checks}
use vogel.Validate.{reports, violations, is_valid}

pub left-nil : {A : Type 0} (xs ys : List A) → xs ++ ys ≡ [] → xs ≡ []
left-nil [] ys h = refl
left-nil (x ∷ xs) ys h = cc

pub right-nil : {A : Type 0} (xs ys : List A) → xs ++ ys ≡ [] → ys ≡ []
right-nil [] ys h = h
right-nil (x ∷ xs) ys h = cc

pub report_if-nil : (b : Bool) (v : Violation) → report_if b v ≡ [] → b ≡ false
report_if-nil true v h = cc
report_if-nil false v h = refl

pub if-nil :
    (b : Bool) (v : Violation) (vs rest : List Violation)
    → (if b then v ∷ vs else rest) ≡ []
    → (b ≡ false) × (rest ≡ [])
if-nil true v vs rest h = cc
if-nil false v vs rest h = (refl, h)

pub concat_map-nil :
    {A B : Type 0} (f : A → List B) (xs : List A) → concat_map f xs ≡ [] → All (λ x. f x ≡ []) xs
concat_map-nil f [] h = tt
concat_map-nil f (x ∷ xs) h =
    (left-nil (f x) (concat_map f xs) h, concat_map-nil f xs (right-nil (f x) (concat_map f xs) h))

pub concat-nil : {A : Type 0} (xss : List (List A)) → concat xss ≡ [] → All (λ xs. xs ≡ []) xss
concat-nil [] h = tt
concat-nil (xs ∷ xss) h = (left-nil xs (concat xss) h, concat-nil xss (right-nil xs (concat xss) h))

pub is_empty-nil : {A : Type 0} (xs : List A) → is_empty xs ≡ true → xs ≡ []
is_empty-nil [] h = refl
is_empty-nil (x ∷ xs) h = cc

-- No rule reports anything.
pub record Silent (d : Definition) : Type 0 where
  pub header : header_checks d ≡ []
  pub nodes : nodes_checks [] d.nodes ≡ []
  pub counts : count_checks d ≡ []
  pub transitions : transitions_checks d [] 0 d.transitions ≡ []
  pub on_expire : on_expire_checks d ≡ []
  pub routes : routes_checks d ≡ []
  pub cycle : cycle_checks d ≡ []
  pub dead_ends : dead_end_checks d ≡ []
  pub reach : reach_checks d ≡ []
  pub blocks : blocks_checks d ≡ []
  pub policies : policies_checks d ≡ []

pub is_valid-Silent : (d : Definition) → is_valid d ≡ true → Silent d
unfolding is_valid violations reports
is_valid-Silent d h =
    let (a, (b, (c, (e, (f, (g, (k, (l, (m, (n, (o, _))))))))))) =
      concat-nil (reports d) (is_empty-nil (violations d) h) in
    record {
      header = a;
      nodes = b;
      counts = c;
      transitions = e;
      on_expire = f;
      routes = g;
      cycle = k;
      dead_ends = l;
      reach = m;
      blocks = n;
      policies = o;
    }
