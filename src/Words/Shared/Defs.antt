-- ===== src/Words/Shared/Defs.antt =====
-- src/runtime.rs, `SharedCount` and `SharedWord`.
use Prim.Native.Nat.{bit_and, bit_or}
use biasedrc_rs.Common.{ℕ, ◌+◌, ◌*◌, ◌/◌, ◌^◌, Bool, true, false, not, ◌==◌, ℤ}
use biasedrc_rs.Words.ArbitraryInt.{ArbitraryInt, i62_max}

abbrev pub SharedCount : Type 0
SharedCount = ℤ

pub record SharedWord : Type 0 where
  pub shared_count : SharedCount
  pub merged : Bool
  pub queued : Bool

-- `SharedCount::BITS`
abbrev pub shared_bits : ℕ
shared_bits = 62

abbrev pub merged_bit : ℕ
merged_bit = 2 ^ shared_bits

abbrev pub queued_bit : ℕ
queued_bit = 2 ^ (shared_bits + 1)

-- `SharedCount::MAX.value() / 2`
abbrev pub overflow_threshold : ℕ
overflow_threshold = i62_max / 2

-- `flag as usize`
abbrev pub of_bool : Bool → ℕ
of_bool false = 0
of_bool true = 1

module _ (int : ArbitraryInt) where
  open int use {i62_to_bits, i62_masked_new}

  unfoldable pub to_raw : SharedWord → ℕ
  to_raw w =
      bit_or (bit_or (i62_to_bits w.shared_count) (of_bool w.merged * 2 ^ shared_bits))
        (of_bool w.queued * 2 ^ (shared_bits + 1))

  unfoldable pub from_raw : ℕ → SharedWord
  from_raw raw = record {
    shared_count = i62_masked_new raw;
    merged = not (bit_and raw merged_bit == 0);
    queued = not (bit_and raw queued_bit == 0);
  }
