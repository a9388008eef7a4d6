-- ===== src/Idempotency/Http/Framed.antt =====
-- idempotency.Fingerprint and the middleware's Scope: what is hashed tells the parts apart.
use Prim.Native.String.append.{nil, cons}
use vogel.Prelude.{
  str_append, ℕ, ◌/◌, ◌%◌, ◌<◌, String, List, [], ◌∷◌, ◌++◌, ◌≡◌, refl, arith, length, All, some,
}
use vogel.Idempotency.Http.{Platform, big_endian, framed, fingerprint, scope, HttpRequest}
use vogel.Idempotency.Http.Serve.{request_of}

-- The length of a slice in Go.
abbrev pub Fits : List ℕ → Type 0
Fits p = length p < 18446744073709551616

-- The bytes from the k-th on, and the digits of two numbers from the highest on.
from_digits :
    (m n : ℕ)
    → m < 18446744073709551616
    → n < 18446744073709551616
    → (m / 72057594037927936) % 256 ≡ (n / 72057594037927936) % 256
    → (m / 281474976710656) % 256 ≡ (n / 281474976710656) % 256
    → (m / 1099511627776) % 256 ≡ (n / 1099511627776) % 256
    → (m / 4294967296) % 256 ≡ (n / 4294967296) % 256
    → (m / 16777216) % 256 ≡ (n / 16777216) % 256
    → (m / 65536) % 256 ≡ (n / 65536) % 256
    → (m / 256) % 256 ≡ (n / 256) % 256
    → m % 256 ≡ n % 256
    → m ≡ n
from_digits m n bm bn h7 h6 h5 h4 h3 h2 h1 h0 =
    let e7 : m / 72057594037927936 ≡ n / 72057594037927936 = omega arith in
    let e6 : m / 281474976710656 ≡ n / 281474976710656 = omega arith in
    let e5 : m / 1099511627776 ≡ n / 1099511627776 = omega arith in
    let e4 : m / 4294967296 ≡ n / 4294967296 = omega arith in
    let e3 : m / 16777216 ≡ n / 16777216 = omega arith in
    let e2 : m / 65536 ≡ n / 65536 = omega arith in
    let e1 : m / 256 ≡ n / 256 = omega arith in omega arith

-- A prefix of known length is told apart from what follows it.
split_at_length :
    {A : Type 0} (p q r s : List A) → length p ≡ length q → p ++ r ≡ q ++ s → (p ≡ q) × (r ≡ s)
split_at_length [] [] r s n h = (refl, h)
split_at_length [] (y ∷ q) r s n h = absurd (omega arith)
split_at_length (x ∷ p) [] r s n h = absurd (omega arith)
split_at_length (x ∷ p) (y ∷ q) r s n h =
    let later : p ++ r ≡ q ++ s = cc in
    let (same, rest) = split_at_length p q r s (omega arith) later in (cc, rest)

big_endian-apart :
    (m n : ℕ)
    → m < 18446744073709551616
    → n < 18446744073709551616
    → big_endian m ≡ big_endian n
    → m ≡ n
big_endian-apart m n bm bn h = from_digits m n bm bn (cc) (cc) (cc) (cc) (cc) (cc) (cc) (cc)

framed-apart : (xs ys : List (List ℕ)) → All Fits xs → All Fits ys → framed xs ≡ framed ys → xs ≡ ys
unfolding framed
framed-apart [] [] fx fy h = refl
framed-apart [] (y ∷ ys) fx fy h = cc
framed-apart (x ∷ xs) [] fx fy h = cc
framed-apart (x ∷ xs) (y ∷ ys) fx fy h =
    let (sizes, rest) =
      split_at_length (big_endian (length x)) (big_endian (length y)) (x ++ framed xs)
        (y ++ framed ys) refl h in
    let same_size = big_endian-apart (length x) (length y) fx.0 fy.0 sizes in
    let (same, more) = split_at_length x y (framed xs) (framed ys) same_size rest in
    let later = framed-apart xs ys fx.1 fy.1 more in cc

http_prefix :
    (x : String)
    → str_append "http:" x
      ≡ String.◌∷◌ "h" (String.◌∷◌ "t" (String.◌∷◌ "t" (String.◌∷◌ "p" (String.◌∷◌ ":" x))))
http_prefix x =
    rw
      (
        cons "h" "ttp:" x,
        cons "t" "tp:" x,
        cons "t" "p:" x,
        cons "p" ":" x,
        cons ":" String.[] x,
        nil x,
      )
      refl

http_prefix-cancel : (x y : String) → str_append "http:" x ≡ str_append "http:" y → x ≡ y
http_prefix-cancel x y h = cc (http_prefix x, http_prefix y)

module _ (pf : Platform) (sha256_apart : (a b : List ℕ) → pf.sha256 a ≡ pf.sha256 b → a ≡ b)
    (hex_apart : (a b : List ℕ) → pf.hex a ≡ pf.hex b → a ≡ b) where
  -- Two HTTP requests that the store takes for one have the same user, method, path, query and body,
  -- wherever the boundaries between these parts lie: their scopes and fingerprints agree only then,
  -- if SHA-256 has no collision, hexadecimal texts tell bytes apart, and no part reaches 2^64 bytes.
  pub request_of-apart :
      (r s : HttpRequest) (u v a b : List ℕ)
      → r.user ≡ some u
      → s.user ≡ some v
      → All Fits (u ∷ r.method ∷ r.path ∷ r.query ∷ a ∷ [])
      → All Fits (v ∷ s.method ∷ s.path ∷ s.query ∷ b ∷ [])
      → (request_of pf r a).scope ≡ (request_of pf s b).scope
      → (request_of pf r a).fingerprint ≡ (request_of pf s b).fingerprint
      → (u ≡ v) × (r.method ≡ s.method) × (r.path ≡ s.path) × (r.query ≡ s.query) × (a ≡ b)
  unfolding request_of scope fingerprint
  request_of-apart r s u v a b hu hv fr fs scopes prints =
      let owners =
        framed-apart (u ∷ r.method ∷ r.path ∷ []) (v ∷ s.method ∷ s.path ∷ [])
          (fr.0, (fr.1.0, (fr.1.1.0, tt))) (fs.0, (fs.1.0, (fs.1.1.0, tt)))
          (sha256_apart _ _ (hex_apart _ _ (http_prefix-cancel _ _ (rw (hu, hv) at scopes)))) in
      let contents =
        framed-apart (r.method ∷ r.path ∷ r.query ∷ a ∷ []) (s.method ∷ s.path ∷ s.query ∷ b ∷ [])
          (fr.1.0, (fr.1.1.0, (fr.1.1.1.0, (fr.1.1.1.1.0, tt))))
          (fs.1.0, (fs.1.1.0, (fs.1.1.1.0, (fs.1.1.1.1.0, tt)))) (sha256_apart _ _ prints) in
      (cc, cc, cc, cc, cc)
