-- ===== src/Errors.antt =====
-- The sentinel errors of package workflow (workflow/*.go) and a result type over them. The source
-- wraps each sentinel in a message, which only a log reads; the model keeps the sentinel.
use vogel.Prelude.{
  not, ◌⊎◌, inl, inr, ℕ, Bool, true, false, Option, none, some, ◌≡◌, refl, subst, if◌then◌else◌,
}

pub data Err : Type 0 where
  definition_not_registered guard_not_registered case_not_found case_exists case_closed : Err
  invalid_transition guard_rejected not_assigned already_assigned invalid_definition : Err
  comment_required comment_not_allowed no_route too_many_decision_hops return_not_visited : Err
  unknown_effect conflict unsupported_event_schema invalid_actor invalid_failure : Err
  token_required token_not_found last_branch join_rejected reason_required : Err
  case_without_tokens invalid_outcome not_overdue already_expired unknown_deadline_rule : Err
  unknown_assign_rule offset_out_of_range : Err
  -- `fmt.Errorf` with no sentinel: a node that the definition lacks, a definition with no start
  -- node, a token outside its block, a join without exactly one way out, a nil pointer (a
  -- panic), a row whose primary key is taken, an event with Seq 0.
  node_not_found no_start_node outside_block bad_join nil_dereference duplicate_key bad_seq : Err
  -- JoinResults: a joined event names an event that the history lacks.
  missing_event : Err
  -- RegisterGuard: no name, or a nil function.
  no_guard_name no_guard_func : Err
  -- workflow/calendar: fewer than one day asked for, no location, a year without a business day.
  days_below_one no_location no_business_day : Err
  -- action.Registry: no name or a nil handler, a name taken, a connection that is no transaction.
  invalid_registration duplicate_effect no_tx : Err
  -- An error of code outside the engine: a guard, a resolver, a join check, a sink.
  external : ℕ → Err
  -- A loop of the model used up its fuel; the source has no such error.
  out_of_fuel : Err

pub data Result {ℓ} (A : Type ℓ) : Type ℓ where
  ok : A → Result A
  err : Err → Result A

pub cases-of_result :
    {A : Type 0} (m : Result A) → ((a : A) × (m ≡ ok a)) ⊎ ((x : Err) × (m ≡ err x))
cases-of_result (ok a) = inl (a, refl)
cases-of_result (err x) = inr (x, refl)

-- The early return of `if err != nil { return err }`.
infixl 5 ◌>>=◌
abbrev pub ◌>>=◌ {ℓ κ} : {A : Type ℓ} {B : Type κ} → Result A → (A → Result B) → Result B
err x >>= next = err x
ok a >>= next = next a

-- `if cond { return err }`.
abbrev pub fail_if : Bool → Err → Result (Unit {0})
fail_if true e = err e
fail_if false e = ok tt

infixl 5 ◌>>◌
abbrev pub ◌>>◌ {ℓ} : {B : Type ℓ} → Result (Unit {0}) → Result B → Result B
check >> next = check >>= λ _. next

unfoldable pub or_fail {ℓ} : {A : Type ℓ} → Option A → Err → Result A
or_fail none e = err e
or_fail (some a) e = ok a

-- What a call ensures: `P` of the value that it returns, `E` of the error.
abbrev pub Ensures : {A : Type 0} → (Err → Type 0) → (A → Type 0) → Result A → Type 0
Ensures E P (ok a) = P a
Ensures E P (err x) = E x

-- Of an error nothing is said.
abbrev pub AnyErr : Err → Type 0
AnyErr x = Unit {0}

abbrev pub Returns : {A : Type 0} → (A → Type 0) → Result A → Type 0
Returns P r = Ensures AnyErr P r

pub Ensures-bind :
    {A B : Type 0} (E : Err → Type 0) (P : A → Type 0) (Q : B → Type 0) (m : Result A)
    (f : A → Result B)
    → Ensures E P m
    → ((a : A) → m ≡ ok a → P a → Ensures E Q (f a))
    → Ensures E Q (m >>= f)
Ensures-bind E P Q (ok a) f h k = k a refl h
Ensures-bind E P Q (err x) f h k = h

-- Where nothing is known of the first call's value.
pub Ensures-any :
    {A B : Type 0} (Q : B → Type 0) (m : Result A) (f : A → Result B)
    → ((a : A) → m ≡ ok a → Returns Q (f a))
    → Returns Q (m >>= f)
Ensures-any Q (ok a) f k = k a refl
Ensures-any Q (err x) f k = tt

pub Ensures-weaken :
    {A : Type 0} (E : Err → Type 0) (P Q : A → Type 0) (m : Result A)
    → ((a : A) → P a → Q a)
    → Ensures E P m
    → Ensures E Q m
Ensures-weaken E P Q (ok a) f h = f a h
Ensures-weaken E P Q (err x) f h = h

pub Returns-both :
    {A : Type 0} (P Q : A → Type 0) (m : Result A)
    → Returns P m
    → Returns Q m
    → Returns (λ a. P a × Q a) m
Returns-both P Q (ok a) p q = (p, q)
Returns-both P Q (err x) p q = tt

pub Ensures-map :
    {A : Type 0} (E F : Err → Type 0) (P Q : A → Type 0) (m : Result A)
    → ((x : Err) → E x → F x)
    → ((a : A) → P a → Q a)
    → Ensures E P m
    → Ensures F Q m
Ensures-map E F P Q (ok a) f g h = g a h
Ensures-map E F P Q (err x) f g h = f x h

-- A guard that returns early.
pub Ensures-guard :
    {A : Type 0} (E : Err → Type 0) (P : A → Type 0) (b : Bool) (x : Err) (m : Result A)
    → E x
    → (b ≡ false → Ensures E P m)
    → Ensures E P (fail_if b x >> m)
Ensures-guard E P true x m h k = h
Ensures-guard E P false x m h k = k refl

pub Ensures-ok :
    {A : Type 0} (E : Err → Type 0) (P : A → Type 0) (r : Result A) (a : A)
    → Ensures E P r
    → r ≡ ok a
    → P a
Ensures-ok E P (ok b) a h e = let q : b ≡ a = cc in subst P q h
Ensures-ok E P (err x) a h e = cc

pub Returns-if :
    {A : Type 0} (P : A → Type 0) (b : Bool) (m n : Result A)
    → (b ≡ true → Returns P m)
    → (b ≡ false → Returns P n)
    → Returns P (if b then m else n)
Returns-if P true m n hm hn = hm refl
Returns-if P false m n hm hn = hn refl

pub Ensures-if :
    {A : Type 0} (E : Err → Type 0) (P : A → Type 0) (b : Bool) (m n : Result A)
    → (b ≡ true → Ensures E P m)
    → (b ≡ false → Ensures E P n)
    → Ensures E P (if b then m else n)
Ensures-if E P true m n hm hn = hm refl
Ensures-if E P false m n hm hn = hn refl

-- Any error but the one that only the model has.
abbrev pub NoFuelErr : Err → Type 0
NoFuelErr Err.out_of_fuel = ⊥
NoFuelErr _ = Unit

-- Of the value nothing is said.
abbrev pub Only : {A : Type 0} → (Err → Type 0) → Result A → Type 0
Only E m = Ensures E (λ _. Unit {0}) m

pub Only-bind :
    {A B : Type 0} (E : Err → Type 0) (Q : B → Type 0) (m : Result A) (f : A → Result B)
    → Only E m
    → ((a : A) → m ≡ ok a → Ensures E Q (f a))
    → Ensures E Q (m >>= f)
Only-bind E Q m f h k = Ensures-bind E (λ _. Unit) Q m f h (λ a e _. k a e)

pub or_fail-ok : {A : Type 0} (o : Option A) (x : Err) (a : A) → or_fail o x ≡ ok a → o ≡ some a
unfolding or_fail
or_fail-ok none x a h = cc
or_fail-ok (some b) x a h = cc

pub fail_if-ok : (b : Bool) (x : Err) (u : Unit {0}) → fail_if b x ≡ ok u → b ≡ false
fail_if-ok true x u h = cc
fail_if-ok false x u h = refl

pub or_fail-Ensures :
    {A : Type 0} (o : Option A) (x : Err)
    → Ensures (λ y. (y ≡ x) × (o ≡ none)) (λ a. o ≡ some a) (or_fail o x)
unfolding or_fail
or_fail-Ensures none x = (refl, refl)
or_fail-Ensures (some a) x = refl

-- A call fails with its own error.
pub Ensures-own : {A : Type 0} (r : Result A) → Ensures (λ x. r ≡ err x) (λ a. r ≡ ok a) r
Ensures-own (ok a) = refl
Ensures-own (err x) = refl

pub or_fail-Only :
    {A : Type 0} (E : Err → Type 0) (o : Option A) (x : Err) → E x → Only E (or_fail o x)
unfolding or_fail
or_fail-Only E none x h = h
or_fail-Only E (some a) x h = tt

pub fail_if-Only : (E : Err → Type 0) (b : Bool) (x : Err) → E x → Only E (fail_if b x)
fail_if-Only E true x h = h
fail_if-Only E false x h = tt

pub not-eq-false : (b : Bool) → not b ≡ false → b ≡ true
not-eq-false true h = refl
not-eq-false false h = cc
