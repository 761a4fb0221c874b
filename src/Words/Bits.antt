-- ===== src/Words/Bits.antt =====
-- Masks and disjoint fields of a word as arithmetic: `|` of a field above another, a single bit by
-- `&`, and a single bit set by `|`.
use Prim.Native.Nat.{min, max, digits, bitwise, bit_and, bit_or, bit_and-bitwise, bit_or-bitwise}
use native.Mathlib.Nat.{pow-suc, div-div-eq-div-mul, le_refl}
use biasedrc_rs.Common.{
  ℕ, zero, suc, ◌+◌, ◌-◌, ◌*◌, ◌/◌, ◌%◌, ◌^◌, ◌≤◌, ◌<◌, ◌≡◌, refl, ap, ◌∙◌, arith,
}

-- The recursion of the native operations counts digits; any count that suffices gives one result.
module _ (z : ℕ → ℕ) (f : ℕ → ℕ → ℕ) where
  same_digits : (m n a b : ℕ) → a ≤ n → a ≤ m → digits z f m a b ≡ digits z f n a b
  same_digits (suc m) (suc n) (suc a) b p q =
      ap (λ (t : ℕ). t * 2 + f (suc a % 2) (b % 2))
        (same_digits m n (suc a / 2) (b / 2) (omega arith) (omega arith))
  same_digits (suc m) (suc n) zero b p q = refl
  same_digits zero zero a b p q = refl
  same_digits zero (suc n) zero b p q = refl
  same_digits zero (suc n) (suc a) b p q = absurd (omega arith)
  same_digits (suc m) zero zero b p q = refl
  same_digits (suc m) zero (suc a) b p q = absurd (omega arith)

  lowest_digit :
      (a b : ℕ)
      → bitwise z f (suc a) b ≡ bitwise z f (suc a / 2) (b / 2) * 2 + f (suc a % 2) (b % 2)
  lowest_digit a b =
      ap (λ (t : ℕ). t * 2 + f (suc a % 2) (b % 2))
        (same_digits a (suc a / 2) (suc a / 2) (b / 2) (le_refl _) (omega arith))

or_lowest : (a b : ℕ) → bit_or a b ≡ bit_or (a / 2) (b / 2) * 2 + max (a % 2) (b % 2)
or_lowest zero b = simp bit_or-bitwise (omega arith)
or_lowest (suc a) b = simp bit_or-bitwise (lowest_digit (λ b. b) max a b)

and_lowest : (a b : ℕ) → bit_and a b ≡ bit_and (a / 2) (b / 2) * 2 + min (a % 2) (b % 2)
and_lowest zero b = simp bit_and-bitwise (omega arith)
and_lowest (suc a) b = simp bit_and-bitwise (lowest_digit (λ b. 0) min a b)

zero-bit_or : (b : ℕ) → bit_or 0 b ≡ b
zero-bit_or b = bit_or-bitwise 0 b

-- The bound `n` is the structure of the recursion.
bit_or-zero_below : (n a : ℕ) → a ≤ n → bit_or a 0 ≡ a
bit_or-zero_below n zero h = zero-bit_or 0
bit_or-zero_below zero (suc a) h = absurd (omega arith)
bit_or-zero_below (suc n) (suc a) h =
    omega (arith, or_lowest (suc a) 0, bit_or-zero_below n (suc a / 2) (omega arith))

bit_and-zero_below : (n a : ℕ) → a ≤ n → bit_and a 0 ≡ 0
bit_and-zero_below n zero h = bit_and-bitwise 0 0
bit_and-zero_below zero (suc a) h = absurd (omega arith)
bit_and-zero_below (suc n) (suc a) h =
    omega (arith, and_lowest (suc a) 0, bit_and-zero_below n (suc a / 2) (omega arith))

double : (q k : ℕ) → q * 2 ^ suc k ≡ 2 * (q * 2 ^ k)
double q k = omega (arith, ap (λ (t : ℕ). q * t) (pow-suc 2 k))

-- A field `q` above `k` low bits, joined with a value that fits those bits.
pub bit_or_above : (k r q : ℕ) → r < 2 ^ k → bit_or r (q * 2 ^ k) ≡ r + q * 2 ^ k
bit_or_above zero zero q h = omega (arith, zero-bit_or (q * 2 ^ 0))
bit_or_above zero (suc r) q h = absurd (omega arith)
bit_or_above (suc k) r q h = omega (
  arith,
  pow-suc 2 k,
  or_lowest r (q * 2 ^ suc k),
  double q k,
  ap (bit_or (r / 2)) (half q k),
  bit_or_above k (r / 2) q (omega (arith, pow-suc 2 k)),
)
  where
    half : (q k : ℕ) → q * 2 ^ suc k / 2 ≡ q * 2 ^ k
    half q k = omega (arith, double q k)

pub bit_or_below : (k q r : ℕ) → r < 2 ^ k → bit_or (q * 2 ^ k) r ≡ q * 2 ^ k + r
bit_or_below zero q zero h = omega (arith, bit_or-zero_below (q * 2 ^ 0) (q * 2 ^ 0) (le_refl _))
bit_or_below zero q (suc r) h = absurd (omega arith)
bit_or_below (suc k) q r h = omega (
  arith,
  pow-suc 2 k,
  or_lowest (q * 2 ^ suc k) r,
  double q k,
  ap (λ (t : ℕ). bit_or t (r / 2)) (half q k),
  bit_or_below k q (r / 2) (omega (arith, pow-suc 2 k)),
)
  where
    half : (q k : ℕ) → q * 2 ^ suc k / 2 ≡ q * 2 ^ k
    half q k = omega (arith, double q k)

halve_shift : (a k : ℕ) → a / 2 / 2 ^ k ≡ a / 2 ^ suc k
halve_shift a k =
    div-div-eq-div-mul a 2 (2 ^ k) ∙ ap (λ (t : ℕ). a / t) (omega (arith, pow-suc 2 k))

-- The bit number `k` of a word, as the mask leaves it.
pub bit_and_bit : (k a : ℕ) → bit_and a (2 ^ k) ≡ a / 2 ^ k % 2 * 2 ^ k
bit_and_bit zero a = omega (arith, and_lowest a 1, bit_and-zero_below (a / 2) (a / 2) (le_refl _))
bit_and_bit (suc k) a = omega (
  arith,
  pow-suc 2 k,
  and_lowest a (2 ^ suc k),
  ap (bit_and (a / 2)) half,
  bit_and_bit k (a / 2),
  ap (λ (t : ℕ). t % 2 * 2 ^ k) (halve_shift a k),
  double (a / 2 ^ suc k % 2) k,
)
  where
    half : 2 ^ suc k / 2 ≡ 2 ^ k
    half = omega (arith, pow-suc 2 k)

-- Setting the bit number `k` adds it where it was clear.
pub bit_or_bit : (k a : ℕ) → bit_or a (2 ^ k) ≡ a + (1 - a / 2 ^ k % 2) * 2 ^ k
bit_or_bit zero a = omega (arith, or_lowest a 1, bit_or-zero_below (a / 2) (a / 2) (le_refl _))
bit_or_bit (suc k) a = omega (
  arith,
  pow-suc 2 k,
  or_lowest a (2 ^ suc k),
  ap (bit_or (a / 2)) half,
  bit_or_bit k (a / 2),
  ap (λ (t : ℕ). (1 - t % 2) * 2 ^ k) (halve_shift a k),
  double (1 - a / 2 ^ suc k % 2) k,
)
  where
    half : 2 ^ suc k / 2 ≡ 2 ^ k
    half = omega (arith, pow-suc 2 k)
