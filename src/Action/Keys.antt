-- ===== src/Action/Keys.antt =====
-- Run.IdempotencyKey (action/action.go): the key that a handler hands to the systems it calls.
use Prim.Native.Char.{Char, code}
use Prim.Native.String.append.{nil, cons}
use text.Mathlib.TextLemmas.{append-nil}
use vogel.Prelude.{
  ℕ, String, str_append, Bool, true, false, not, ◌&&◌, ◌≡◌, ◌≢◌, refl, ◌∙◌, sym, arith, ◌==◌,
  ==_iff, nat_eq, Bool-cases, inl, inr, if◌then◌else◌,
}
use vogel.Action.{Printing, Run, idempotency_key}

-- A text without "/".
abbrev pub is_plain : String → Bool
is_plain String.[] = true
is_plain (String.◌∷◌ c s) = not (code c == b'/') && is_plain s

abbrev slash : Char
slash = "/"

tails : (c d : Char) (s t : String) → String.◌∷◌ c s ≡ String.◌∷◌ d t → (c ≡ d) × (s ≡ t)
tails c d s t h = (cc, cc)

slash-append : (x : String) → str_append "/" x ≡ String.◌∷◌ slash x
slash-append x = rw (cons slash String.[] x, nil x) refl

and_right : (a b : Bool) → (a && b) ≡ true → b ≡ true
and_right true b h = h
and_right false b h = cc

is_plain-cons :
    (c : Char) (s : String) → is_plain (String.◌∷◌ c s) ≡ true → (c ≢ slash) × (is_plain s ≡ true)
is_plain-cons c s h =
    (λ e. let q = rw e at h in cc, and_right (not (code c == b'/')) (is_plain s) h)

split_at_slash :
    (a b x y : String)
    → is_plain a ≡ true
    → is_plain b ≡ true
    → str_append a (String.◌∷◌ slash x) ≡ str_append b (String.◌∷◌ slash y)
    → (a ≡ b) × (x ≡ y)
split_at_slash String.[] String.[] x y p q h =
    (refl, (tails slash slash x y (sym (nil _) ∙ h ∙ nil _)).1)
split_at_slash String.[] (String.◌∷◌ d b) x y p q h =
    let e = tails slash d x (str_append b (String.◌∷◌ slash y)) (sym (nil _) ∙ h ∙ cons d b _) in
    absurd ((is_plain-cons d b q).0 (sym e.0))
split_at_slash (String.◌∷◌ c a) String.[] x y p q h =
    let e = tails c slash (str_append a (String.◌∷◌ slash x)) y (sym (cons c a _) ∙ h ∙ nil _) in
    absurd ((is_plain-cons c a p).0 e.0)
split_at_slash (String.◌∷◌ c a) (String.◌∷◌ d b) x y p q h =
    let e =
      tails c d (str_append a (String.◌∷◌ slash x)) (str_append b (String.◌∷◌ slash y))
        (sym (cons c a _) ∙ h ∙ cons d b _) in
    let (same, rest) = split_at_slash a b x y (is_plain-cons c a p).1 (is_plain-cons d b q).1 e.1 in
    (cc, rest)

not_plain : (a x : String) → is_plain (str_append a (String.◌∷◌ slash x)) ≡ false
not_plain String.[] x = rw (nil (String.◌∷◌ slash x)) refl
not_plain (String.◌∷◌ c a) x =
    rw (cons c a (String.◌∷◌ slash x), not_plain a x) (ground (arith, Bool-cases (code c == b'/')))

-- What the texts of identifiers and numbers are known for: they hold no "/", and numbers differ in
-- theirs.
pub record Prints (p : Printing) : Type 0 where
  pub uuid_plain : (n : ℕ) → is_plain (p.uuid n) ≡ true
  pub decimal_plain : (n : ℕ) → is_plain (p.decimal n) ≡ true
  pub uuid_apart : (m n : ℕ) → p.uuid m ≡ p.uuid n → m ≡ n
  pub decimal_apart : (m n : ℕ) → p.decimal m ≡ p.decimal n → m ≡ n

module _ (p : Printing) (ok' : Prints p) where
  -- The end of a key: the effect, and the part if it is not 0.
  abbrev ending : String → ℕ → String
  ending effect part = str_append effect (if part == 0 then "" else str_append "/" (p.decimal part))

  ending_whole : (a : String) (m : ℕ) → (m == 0) ≡ true → ending a m ≡ a
  ending_whole a m e = rw (e, append-nil a) refl

  ending_part :
      (a : String) (m : ℕ)
      → (m == 0) ≡ false
      → ending a m ≡ str_append a (String.◌∷◌ slash (p.decimal m))
  ending_part a m e = rw (e, slash-append (p.decimal m)) refl

  whole-ne-part : (a b x : String) → is_plain a ≡ true → a ≡ str_append b (String.◌∷◌ slash x) → ⊥
  whole-ne-part a b x plain e = let q = not_plain b x in let r = rw e at plain in cc

  ending-apart :
      (a b : String) (m n : ℕ)
      → is_plain a ≡ true
      → is_plain b ≡ true
      → ending a m ≡ ending b n
      → (a ≡ b) × (m ≡ n)
  ending-apart a b m n pa pb h = elim (Bool-cases (m == 0)) [
    | inl m0 ↦ elim (Bool-cases (n == 0)) [
      | inl n0 ↦ (
        sym (ending_whole a m m0) ∙ h ∙ ending_whole b n n0,
        (==_iff m 0).0 m0 ∙ sym ((==_iff n 0).0 n0),
      )
      | inr n1 ↦
          absurd (
            whole-ne-part a b (p.decimal n) pa (sym (ending_whole a m m0) ∙ h ∙ ending_part b n n1))
    ]
    | inr m1 ↦ elim (Bool-cases (n == 0)) [
      | inl n0 ↦ absurd (
          whole-ne-part b a (p.decimal m) pb
            (sym (ending_whole b n n0) ∙ sym h ∙ ending_part a m m1))
      | inr n1 ↦
          let (same, parts) =
            split_at_slash a b (p.decimal m) (p.decimal n) pa pb
              (sym (ending_part a m m1) ∙ h ∙ ending_part b n n1) in
          (same, ok'.decimal_apart m n parts)
    ]
  ]

  -- Two runs have the same key only if they are the same execution (of one case, event, effect and
  -- part), if no effect name has a "/" in it. The texts of identifiers and numbers hold no "/" and
  -- differ for different values.
  pub idempotency_key-apart :
      (r s : Run)
      → is_plain r.effect ≡ true
      → is_plain s.effect ≡ true
      → idempotency_key p r ≡ idempotency_key p s
      → (r.case_id ≡ s.case_id) × (r.seq ≡ s.seq) × (r.effect ≡ s.effect) × (r.part ≡ s.part)
  unfolding idempotency_key
  idempotency_key-apart r s pr ps h =
      let after_case =
        λ (r : Run). str_append (p.decimal r.seq) (str_append "/" (ending r.effect r.part)) in
      let (cases, rest) =
        split_at_slash (p.uuid r.case_id) (p.uuid s.case_id) (after_case r) (after_case s)
          (ok'.uuid_plain r.case_id) (ok'.uuid_plain s.case_id)
          (rw (← slash-append (after_case r), ← slash-append (after_case s)) h) in
      let (seqs, rest2) =
        split_at_slash (p.decimal r.seq) (p.decimal s.seq) (ending r.effect r.part)
          (ending s.effect s.part) (ok'.decimal_plain r.seq) (ok'.decimal_plain s.seq)
          (rw (← slash-append (ending r.effect r.part), ← slash-append (ending s.effect s.part))
            rest) in
      let (effects, parts) = ending-apart r.effect s.effect r.part s.part pr ps rest2 in
      (ok'.uuid_apart _ _ cases, ok'.decimal_apart _ _ seqs, effects, parts)

-- An effect whose name ends in a part's number has the key of that part of the effect named before
-- it.
pub idempotency_key_clash :
    (p : Printing) (r s : Run)
    → r.case_id ≡ s.case_id
    → r.seq ≡ s.seq
    → s.part ≡ 0
    → (r.part == 0) ≡ false
    → s.effect ≡ str_append r.effect (str_append "/" (p.decimal r.part))
    → idempotency_key p r ≡ idempotency_key p s
unfolding idempotency_key
idempotency_key_clash p r s c q whole part named =
    rw (c, q, whole, part, named)
      (rw (append-nil (str_append r.effect (str_append "/" (p.decimal r.part)))) refl)
