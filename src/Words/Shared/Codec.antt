-- ===== src/Words/Shared/Codec.antt =====
-- The layout of a shared word: each field at its place, and both round trips.
use biasedrc_rs.Common.{
  ℕ, ◌+◌, ◌*◌, ◌/◌, ◌%◌, ◌^◌, ◌<◌, ◌≡◌, Bool, true, false, ◌==◌, ℤ, pos, negsuc, arith,
}
use biasedrc_rs.Words.ArbitraryInt.{ArbitraryInt, IsI62, sign_extend, twos_complement}
use biasedrc_rs.Words.Bits.{bit_or_above, bit_and_bit}
use biasedrc_rs.Words.Shared.Defs.{SharedWord, of_bool, to_raw, from_raw}

abbrev pub IsSharedWord : SharedWord → Type 0
IsSharedWord w = IsI62 w.shared_count

twos_complement-lt : (v : ℤ) → IsI62 v → twos_complement v < 2 ^ 62
twos_complement-lt (pos n) h = omega arith
twos_complement-lt (negsuc n) h = omega arith

of_bool-lt : (b : Bool) → of_bool b < 2
of_bool-lt false = omega arith
of_bool-lt true = omega arith

-- The fields by position.
abbrev pub unpack : ℕ → SharedWord
unpack raw = record {
  shared_count = sign_extend (raw % 2 ^ 62);
  merged = raw / 2 ^ 62 % 2 == 1;
  queued = raw / 2 ^ 63 % 2 == 1;
}

abbrev pub pack : SharedWord → ℕ
pack w = twos_complement w.shared_count + of_bool w.merged * 2 ^ 62 + of_bool w.queued * 2 ^ 63

unpack-pack :
    (v : ℤ) (m q : Bool)
    → IsI62 v
    → unpack (pack (record { shared_count = v; merged = m; queued = q }))
      ≡ record { shared_count = v; merged = m; queued = q }
unpack-pack (pos n) m q h = ground arith
unpack-pack (negsuc n) m q h = ground arith

sign_extend-IsI62 : (r : ℕ) → r < 2 ^ 62 → IsI62 (sign_extend r)
sign_extend-IsI62 r h = ground arith

twos_complement-sign_extend : (r : ℕ) → r < 2 ^ 62 → twos_complement (sign_extend r) ≡ r
twos_complement-sign_extend r h = ground arith

flag_bit : (r : ℕ) → r < 2 → of_bool (r == 1) ≡ r
flag_bit r h = ground arith

module _ (int : ArbitraryInt) where
  open int use {i62_to_bits_lem, i62_masked_new_lem}

  -- The word as a sum of its fields.
  pub to_raw_sum : (w : SharedWord) → IsSharedWord w → to_raw int w ≡ pack w
  unfolding to_raw
  to_raw_sum w h =
      let low = twos_complement-lt w.shared_count h in
      let bits = i62_to_bits_lem w.shared_count h in
      let flags = of_bool-lt w.merged in
      rw (
        bits,
        bit_or_above 62 (twos_complement w.shared_count) (of_bool w.merged) low,
        bit_or_above 63 (twos_complement w.shared_count + of_bool w.merged * 2 ^ 62)
            (of_bool w.queued) (omega arith),
      )

  pub from_raw_fields : (raw : ℕ) → from_raw int raw ≡ unpack raw
  unfolding from_raw
  from_raw_fields raw =
      ground (arith, i62_masked_new_lem raw, bit_and_bit 62 raw, bit_and_bit 63 raw)

  pub to_raw-lt : (w : SharedWord) → IsSharedWord w → to_raw int w < 2 ^ 64
  to_raw-lt w h = omega (
    arith,
    to_raw_sum w h,
    twos_complement-lt w.shared_count h,
    of_bool-lt w.merged,
    of_bool-lt w.queued,
  )

  -- The range of the counter of a decoded word.
  pub from_raw-IsSharedWord : (raw : ℕ) → IsSharedWord (from_raw int raw)
  from_raw-IsSharedWord raw = rw from_raw_fields (sign_extend-IsI62 (raw % 2 ^ 62) (omega arith))

  -- A shared word whose counter is in range comes back from its 64 bits.
  pub from_raw-to_raw : (w : SharedWord) → IsSharedWord w → from_raw int (to_raw int w) ≡ w
  from_raw-to_raw w h =
      rw (from_raw_fields, to_raw_sum w h) (unpack-pack w.shared_count w.merged w.queued h)

  -- Each 64-bit number is the encoding of the shared word that it decodes to.
  pub to_raw-from_raw : (raw : ℕ) → raw < 2 ^ 64 → to_raw int (from_raw int raw) ≡ raw
  to_raw-from_raw raw h =
      rw (to_raw_sum (from_raw int raw) (from_raw-IsSharedWord raw), from_raw_fields)
        (omega (
          arith,
          twos_complement-sign_extend (raw % 2 ^ 62) (omega arith),
          flag_bit (raw / 2 ^ 62 % 2) (omega arith),
          flag_bit (raw / 2 ^ 63 % 2) (omega arith),
        ))
