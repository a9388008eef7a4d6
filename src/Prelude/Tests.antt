-- ===== src/Prelude/Tests.antt =====
-- Boolean tests on numbers and texts, the conditional, and Go's machine-independent `int`.
use Prim.Native.Nat.{ℕ, compare, Ordering}
use Prim.Native.String.{String}
use mathlib.Core.Path.{◌≡◌, refl}
use mathlib.Core.Logic.{◌↔◌, ◌⊎◌, inl, inr}
use mathlib.Core.Bool.{Bool, true, false, ◌&&◌}
use mathlib.Core.List.{List, [], ◌∷◌}
use mathlib.Core.Option.{Option, none, some}
use native.Mathlib.Omega.{arith}
use text.Mathlib.Text.{◌==◌ as str_eq}
use text.Mathlib.TextEquality.{eq_iff}

abbrev pub ltb : ℕ → ℕ → Bool
ltb a b = elim (compare a b) [ Ordering.lt ↦ true | _ ↦ false ]

abbrev pub leb : ℕ → ℕ → Bool
leb a b = elim (compare a b) [ Ordering.gt ↦ false | _ ↦ true ]

abbrev nat_beq : ℕ → ℕ → Bool
nat_beq a b = elim (compare a b) [ Ordering.eq ↦ true | _ ↦ false ]

pub nat_beq_iff : (a b : ℕ) → (nat_beq a b ≡ true) ↔ (a ≡ b)
nat_beq_iff a b = ground arith

infix 1 if◌then◌else◌
abbrev pub if◌then◌else◌ {ℓ} : {A : Type ℓ} → Bool → A → A → A
if true then x else y = x
if false then x else y = y

-- Go's `==` on a comparable type decides its equality.
pub record Comparable {ℓ} (T : Type ℓ) : Type ℓ where
  pub same : T → T → Bool
  pub same_iff : (x y : T) → (same x y ≡ true) ↔ (x ≡ y)

instance abbrev pub nat_eq : Comparable ℕ
nat_eq = record { same = nat_beq; same_iff = nat_beq_iff }

infix 50 ◌==◌
abbrev pub ◌==◌ {ℓ} : {T : Type ℓ} ⦃c : Comparable T⦄ → T → T → Bool
◌==◌ ⦃c⦄ x y = c.same x y

pub ==_iff {ℓ} : {T : Type ℓ} ⦃c : Comparable T⦄ (x y : T) → ((x == y) ≡ true) ↔ (x ≡ y)
==_iff ⦃c⦄ x y = c.same_iff x y

instance abbrev pub string_eq : Comparable String
string_eq = record { same = str_eq; same_iff = eq_iff }

abbrev pub same_list {ℓ} : {A : Type ℓ} ⦃c : Comparable A⦄ → List A → List A → Bool
same_list [] [] = true
same_list (x ∷ xs) (y ∷ ys) = x == y && same_list xs ys
same_list _ _ = false

pub same_list_iff {ℓ} :
    {A : Type ℓ} ⦃c : Comparable A⦄ (xs ys : List A) → (same_list xs ys ≡ true) ↔ (xs ≡ ys)
same_list_iff [] [] = (λ _. refl, λ _. refl)
same_list_iff [] (y ∷ ys) = (λ h. cc, λ h. cc)
same_list_iff (x ∷ xs) [] = (λ h. cc, λ h. cc)
same_list_iff (x ∷ xs) (y ∷ ys) = ground (arith, same_list_iff xs ys, ==_iff x y)

instance abbrev pub list_eq {ℓ} : {A : Type ℓ} ⦃c : Comparable A⦄ → Comparable (List A)
list_eq = record { same = same_list; same_iff = same_list_iff }

-- To split on a computed value and keep the equation.
pub Bool-cases : (b : Bool) → (b ≡ true) ⊎ (b ≡ false)
Bool-cases true = inl refl
Bool-cases false = inr refl

pub Option-cases {ℓ} : {A : Type ℓ} (o : Option A) → (o ≡ none) ⊎ ((a : A) × (o ≡ some a))
Option-cases none = inl refl
Option-cases (some a) = inr (a, refl)

-- Go's `int` and `int64`: `negsuc n` is -(n + 1).
pub data ℤ : Type 0 where
  pos : ℕ → ℤ
  negsuc : ℕ → ℤ
