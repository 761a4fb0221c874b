-- ===== src/Words/Shared/Atomics.antt =====
-- What the atomic read-modify-write operations of the source do to the fields of a shared word.
use Prim.Native.Nat.{bit_or}
use mathlib.Core.Path.{subst}
use biasedrc_rs.Common.{
  ℕ, zero, suc, ◌+◌, ◌-◌, ◌*◌, ◌/◌, ◌%◌, ◌^◌, ◌<◌, ◌≡◌, sym, ◌∙◌, Bool, true, not, ◌==◌, ℤ, pos,
  negsuc, if◌then◌else◌, arith,
}
use biasedrc_rs.Words.ArbitraryInt.{ArbitraryInt, i62_max, IsI62}
use biasedrc_rs.Words.Bits.{bit_or_bit}
use biasedrc_rs.Words.Shared.Defs.{SharedWord, merged_bit, from_raw}
use biasedrc_rs.Words.Shared.Codec.{
  pack, unpack, from_raw_fields, to_raw_sum, from_raw-IsSharedWord, to_raw-from_raw,
}

abbrev bump_count : ℤ → SharedWord → SharedWord
bump_count (pos n) w = record w {
  shared_count = if n == i62_max then negsuc i62_max else pos (n + 1);
}
bump_count (negsuc zero) w = record {
  shared_count = pos 0;
  merged = not w.merged;
  queued = if w.merged then not w.queued else w.queued;
}
bump_count (negsuc (suc n)) w = record w { shared_count = negsuc n }

-- One more, with the carry out of the counter: from -1 it flips `merged`, and `queued` behind it.
abbrev pub bump : SharedWord → SharedWord
bump w = bump_count w.shared_count w

unpack-add_one :
    (v : ℤ) (m q : Bool)
    → IsI62 v
    → unpack ((pack (record { shared_count = v; merged = m; queued = q }) + 1) % 2 ^ 64)
      ≡ bump (record { shared_count = v; merged = m; queued = q })
unpack-add_one (pos n) m q h = ground arith
unpack-add_one (negsuc zero) m q h = ground arith
unpack-add_one (negsuc (suc n)) m q h = ground arith

module _ (int : ArbitraryInt) where
  -- `fetch_add(1)` on a 64-bit word adds one to the counter, which wraps from the largest value to the
  -- smallest, and carries from -1 into the merged flag and from there into the queued flag.
  pub from_raw-fetch_add :
      (raw : ℕ) → raw < 2 ^ 64 → from_raw int ((raw + 1) % 2 ^ 64) ≡ bump (from_raw int raw)
  from_raw-fetch_add raw h =
      let w = from_raw int raw in
      let valid = from_raw-IsSharedWord int raw in
      let same : raw ≡ pack w = sym (to_raw-from_raw int raw h) ∙ to_raw_sum int w valid in
      rw from_raw_fields (
        subst (λ (t : ℕ). unpack ((t + 1) % 2 ^ 64) ≡ bump w) (sym same)
          (unpack-add_one w.shared_count w.merged w.queued valid))

  -- `fetch_or(MERGED_BIT)` sets that flag and nothing else.
  pub from_raw-fetch_or :
      (raw : ℕ) → from_raw int (bit_or raw merged_bit) ≡ record (from_raw int raw) { merged = true }
  from_raw-fetch_or raw =
      rw (from_raw_fields int (bit_or raw merged_bit), from_raw_fields int raw, bit_or_bit 62 raw)
        (ground (arith, merged_low, merged_set, merged_high))
    where
      set : ℕ
      set = raw + (1 - raw / 2 ^ 62 % 2) * 2 ^ 62

      merged_low : set % 2 ^ 62 ≡ raw % 2 ^ 62
      merged_low = omega arith

      merged_set : set / 2 ^ 62 % 2 ≡ 1
      merged_set = omega arith

      merged_high : set / 2 ^ 63 % 2 ≡ raw / 2 ^ 63 % 2
      merged_high = omega arith
