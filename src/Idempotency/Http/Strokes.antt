-- ===== src/Idempotency/Http/Strokes.antt =====
-- A platform in which every text of bytes is its own digest, for runs of the middleware
-- (idempotency/httpx/middleware.go).
use Prim.Native.Char.{code}
use vogel.Prelude.{
  ℕ, zero, suc, String, false, List, [], ◌∷◌, ◌≡◌, refl, sym, ap, arith, list_eq, nat_eq,
}
use vogel.Idempotency.Http.{Platform}

-- A text for each list of numbers: strokes, with a dot after each number.
abbrev strokes : ℕ → String → String
strokes zero s = String.◌∷◌ "." s
strokes (suc n) s = String.◌∷◌ "I" (strokes n s)

abbrev text_of : List ℕ → String
text_of [] = ""
text_of (n ∷ l) = strokes n (text_of l)

abbrev first_code : String → ℕ
first_code String.[] = 0
first_code (String.◌∷◌ c s) = code c

abbrev after_first : String → String
after_first String.[] = ""
after_first (String.◌∷◌ c s) = s

strokes-apart : (m n : ℕ) (s t : String) → strokes m s ≡ strokes n t → (m ≡ n) × (s ≡ t)
strokes-apart zero zero s t h = (refl, ap after_first h)
strokes-apart zero (suc n) s t h = absurd (omega (arith, ap first_code h))
strokes-apart (suc m) zero s t h = absurd (omega (arith, ap first_code h))
strokes-apart (suc m) (suc n) s t h =
    let (same, later) = strokes-apart m n s t (ap after_first h) in (ap suc same, later)

text_of-cons-ne : (n : ℕ) (s : String) → strokes n s ≡ "" → ⊥
text_of-cons-ne zero s h = absurd (omega (arith, ap first_code h))
text_of-cons-ne (suc n) s h = absurd (omega (arith, ap first_code h))

pub text_of-apart : (a b : List ℕ) → text_of a ≡ text_of b → a ≡ b
text_of-apart [] [] h = refl
text_of-apart [] (n ∷ b) h = absurd (text_of-cons-ne n (text_of b) (sym h))
text_of-apart (m ∷ a) [] h = absurd (text_of-cons-ne m (text_of a) h)
text_of-apart (m ∷ a) (n ∷ b) h =
    let (same, rest) = strokes-apart m n (text_of a) (text_of b) h in
    let later = text_of-apart a b rest in cc

abbrev pub simple : Platform
simple = record { sha256 = λ b. b; hex = text_of; equal_fold = λ a b. false }
