-- ===== src/Words/ArbitraryInt.antt =====
-- The crate `arbitrary_int`, as a parameter: what runtime.rs uses of its integers `i62`, `u20` and
-- `u12`. A value of `i62` is the integer that it stands for, one of `u20` or `u12` its number.
use biasedrc_rs.Common.{
  ℕ, ◌+◌, ◌-◌, ◌%◌, ◌^◌, ◌<◌, ◌≡◌, refl, Bool, Option, none, some, ltb, if◌then◌else◌, ℤ, pos,
  negsuc, ◌+ℤ◌, ◌-ℤ◌,
}

abbrev pub i62_max : ℕ
i62_max = 2 ^ 61 - 1

-- The integers that 62 bits of two's complement represent.
abbrev pub IsI62 : ℤ → Type 0
IsI62 (pos n) = n < 2 ^ 61
IsI62 (negsuc n) = n < 2 ^ 61

abbrev pub fits_i62 : ℤ → Bool
fits_i62 (pos n) = ltb n (2 ^ 61)
fits_i62 (negsuc n) = ltb n (2 ^ 61)

abbrev pub checked_i62 : ℤ → Option ℤ
checked_i62 v = if fits_i62 v then some v else none

abbrev pub sign_extend : ℕ → ℤ
sign_extend r = if ltb r (2 ^ 61) then pos r else negsuc (2 ^ 62 - 1 - r)

abbrev pub twos_complement : ℤ → ℕ
twos_complement (pos n) = n
twos_complement (negsuc n) = 2 ^ 62 - 1 - n

abbrev pub checked_u20 : ℕ → Option ℕ
checked_u20 n = if ltb n (2 ^ 20) then some n else none

-- The documented behaviour of the operations, for arguments in range.
pub record ArbitraryInt : Type 0 where
  pub i62_to_bits : ℤ → ℕ
  pub i62_masked_new : ℕ → ℤ
  pub i62_checked_add : ℤ → ℤ → Option ℤ
  pub i62_checked_sub : ℤ → ℤ → Option ℤ
  pub u20_masked_new : ℕ → ℕ
  pub u20_checked_add : ℕ → ℕ → Option ℕ
  pub u12_masked_new : ℕ → ℕ
  pub i62_to_bits_lem : (v : ℤ) → IsI62 v → i62_to_bits v ≡ twos_complement v
  pub i62_masked_new_lem : (raw : ℕ) → i62_masked_new raw ≡ sign_extend (raw % 2 ^ 62)
  pub i62_checked_add_lem :
      (a b : ℤ) → IsI62 a → IsI62 b → i62_checked_add a b ≡ checked_i62 (a +ℤ b)
  pub i62_checked_sub_lem :
      (a b : ℤ) → IsI62 a → IsI62 b → i62_checked_sub a b ≡ checked_i62 (a -ℤ b)
  pub u20_masked_new_lem : (raw : ℕ) → u20_masked_new raw ≡ raw % 2 ^ 20
  pub u20_checked_add_lem :
      (a b : ℕ) → a < 2 ^ 20 → b < 2 ^ 20 → u20_checked_add a b ≡ checked_u20 (a + b)
  pub u12_masked_new_lem : (raw : ℕ) → u12_masked_new raw ≡ raw % 2 ^ 12

-- An instance by plain arithmetic, at which the theorems are applied.
abbrev pub plain_int : ArbitraryInt
plain_int = record {
  i62_to_bits = twos_complement;
  i62_masked_new = λ raw. sign_extend (raw % 2 ^ 62);
  i62_checked_add = λ a b. checked_i62 (a +ℤ b);
  i62_checked_sub = λ a b. checked_i62 (a -ℤ b);
  u20_masked_new = λ raw. raw % 2 ^ 20;
  u20_checked_add = λ a b. checked_u20 (a + b);
  u12_masked_new = λ raw. raw % 2 ^ 12;
  i62_to_bits_lem = λ v h. refl;
  i62_masked_new_lem = λ raw. refl;
  i62_checked_add_lem = λ a b h k. refl;
  i62_checked_sub_lem = λ a b h k. refl;
  u20_masked_new_lem = λ raw. refl;
  u20_checked_add_lem = λ a b h k. refl;
  u12_masked_new_lem = λ raw. refl;
}
