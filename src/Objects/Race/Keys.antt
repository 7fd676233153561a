-- ===== src/Objects/Race/Keys.antt =====
-- The names of temporary objects: `randHex` of s3_storage.go and gcs_storage.go, which are the
-- same, and when two of these names differ.
use file_server_management.Prelude.{
  ℕ, ◌+◌, ◌*◌, ◌/◌, ◌%◌, ◌<◌, ◌≡◌, ◌≢◌, refl, ap, List, [], ◌∷◌, ◌++◌, All, arith, length,
  length-append, ltb, if◌then◌else◌,
}
use file_server_management.Text.{Text, txt}
use file_server_management.Objects.{temp_key}

-- A digit of package encoding/hex.
unfoldable pub hex_digit : ℕ → ℕ
hex_digit n = if ltb n 10 then n + 48 else n + 87

-- `randHex`; the bytes are those that rand.Read gives.
unfoldable pub rand_hex : List ℕ → Text
rand_hex [] = []
rand_hex (b ∷ bs) = hex_digit (b / 16) ∷ hex_digit (b % 16) ∷ rand_hex bs

abbrev pub IsByte : ℕ → Type 0
IsByte b = b < 256

length-rand_hex : (bs : List ℕ) → length (rand_hex bs) ≡ length bs * 2
unfolding rand_hex
length-rand_hex [] = refl
length-rand_hex (b ∷ bs) = omega (arith, length-rand_hex bs)

hex_digit-injective : (m n : ℕ) → m < 16 → n < 16 → hex_digit m ≡ hex_digit n → m ≡ n
unfolding hex_digit
hex_digit-injective m n h k e = ground arith

byte-ext : (a b : ℕ) → a / 16 ≡ b / 16 → a % 16 ≡ b % 16 → a ≡ b
byte-ext a b e f = omega (arith, e, f)

abbrev head_or : ℕ → Text → ℕ
head_or d [] = d
head_or d (c ∷ cs) = c

abbrev tail : Text → Text
tail [] = []
tail (c ∷ cs) = cs

rand_hex-injective :
    (cs bs : List ℕ) → All IsByte cs → All IsByte bs → rand_hex cs ≡ rand_hex bs → cs ≡ bs
unfolding rand_hex
rand_hex-injective [] [] _ _ e = refl
rand_hex-injective [] (b ∷ bs) _ _ e = absurd (cc e)
rand_hex-injective (a ∷ cs) [] _ _ e = absurd (cc e)
rand_hex-injective (a ∷ cs) (b ∷ bs) (ha, hs) (hb, ks) e =
    let high =
      hex_digit-injective (a / 16) (b / 16) (omega (arith, ha)) (omega (arith, hb))
        (ap (head_or 0) e) in
    let low =
      hex_digit-injective (a % 16) (b % 16) (omega arith) (omega arith)
        (ap (λ t. head_or 0 (tail t)) e) in
    let rest = rand_hex-injective cs bs hs ks (ap (λ t. tail (tail t)) e) in
    λ i. byte-ext a b high low i ∷ rest i

suffix-injective : (xs ys hs ks : Text) → length hs ≡ length ks → xs ++ hs ≡ ys ++ ks → hs ≡ ks
suffix-injective [] [] hs ks same e = e
suffix-injective [] (y ∷ ys) hs ks same e =
    absurd (omega (arith, ap length e, same, length-append ys ks))
suffix-injective (x ∷ xs) [] hs ks same e =
    absurd (omega (arith, ap length e, same, length-append xs hs))
suffix-injective (x ∷ xs) (y ∷ ys) hs ks same e = suffix-injective xs ys hs ks same (ap tail e)

-- Names that are made from different random bytes differ, whatever the final keys are.
pub temp_key-rand_hex :
    (final final' : Text) (cs bs : List ℕ)
    → All IsByte cs
    → All IsByte bs
    → length cs ≡ length bs
    → cs ≢ bs
    → temp_key final (rand_hex cs) ≢ temp_key final' (rand_hex bs)
unfolding temp_key
temp_key-rand_hex final final' cs bs ha hb same differ e =
    let long : length (rand_hex cs) ≡ length (rand_hex bs) =
      omega (arith, length-rand_hex cs, length-rand_hex bs, same) in
    differ (
      rand_hex-injective cs bs ha hb
        (suffix-injective (final ++ txt ".tmp-") (final' ++ txt ".tmp-") _ _ long e))
