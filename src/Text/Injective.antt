-- ===== src/Text/Injective.antt =====
-- What can be read back from a hexadecimal text, and that the two forms of an address differ.
use mydhcp.Common.{ℕ, ◌+◌, ◌*◌, ◌/◌, ◌%◌, ◌<◌, ◌≡◌, refl, List, [], ◌∷◌, arith, length}
use mydhcp.Text.{hex_digit, hex, colon_hex_rest, colon_hex}

-- Every element is a byte.
abbrev pub AreBytes : List ℕ → Type 0
AreBytes [] = Unit {0}
AreBytes (b ∷ bs) = (b < 256) × AreBytes bs

hex_digit-injective : (m n : ℕ) → m < 16 → n < 16 → hex_digit m ≡ hex_digit n → m ≡ n
unfolding hex_digit
hex_digit-injective m n a b h = ground arith

byte_split : (m n : ℕ) → m / 16 ≡ n / 16 → m % 16 ≡ n % 16 → m ≡ n
byte_split m n h k = omega arith

-- Two lists of bytes with the same hexadecimal text are the same.
pub hex-injective : (xs ys : List ℕ) → AreBytes xs → AreBytes ys → hex xs ≡ hex ys → xs ≡ ys
unfolding hex
hex-injective [] [] p q h = refl
hex-injective [] (y ∷ ys) p q h = absurd (ground arith)
hex-injective (x ∷ xs) [] p q h = absurd (ground arith)
hex-injective (x ∷ xs) (y ∷ ys) (px, ps) (qy, qs) h =
    let high : hex_digit (x / 16) ≡ hex_digit (y / 16) = ground arith in
    let low : hex_digit (x % 16) ≡ hex_digit (y % 16) = ground arith in
    let rest : hex xs ≡ hex ys = ground arith in
    let same : x ≡ y =
      byte_split x y (hex_digit-injective (x / 16) (y / 16) (omega arith) (omega arith) high)
        (hex_digit-injective (x % 16) (y % 16) (omega arith) (omega arith) low) in
    λ i. same i ∷ hex-injective xs ys ps qs rest i

pub length-hex : (xs : List ℕ) → length (hex xs) ≡ 2 * length xs
unfolding hex
length-hex [] = refl
length-hex (x ∷ xs) = omega (arith, length-hex xs)

length-colon_hex_rest : (xs : List ℕ) → length (colon_hex_rest xs) ≡ 3 * length xs
unfolding colon_hex_rest
length-colon_hex_rest [] = refl
length-colon_hex_rest (x ∷ xs) = omega (arith, length-colon_hex_rest xs)

pub length-colon_hex : (x : ℕ) (xs : List ℕ) → length (colon_hex (x ∷ xs)) ≡ 2 + 3 * length xs
unfolding colon_hex
length-colon_hex x xs = omega (arith, length-colon_hex_rest xs)
