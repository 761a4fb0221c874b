-- ===== src/Words/Biased.antt =====
-- src/runtime.rs, `BiasedWord`: the owner's id and the biased counter in one 32-bit word.
use Prim.Native.Nat.{bit_or}
use biasedrc_rs.Common.{
  ℕ, ◌+◌, ◌*◌, ◌/◌, ◌%◌, ◌^◌, ◌<◌, ◌≡◌, refl, Option, none, some, ◌==◌, if◌then◌else◌, arith,
}
use biasedrc_rs.Ids
use biasedrc_rs.Ids.{ShortThreadId, IsShortThreadId, short_bits}
use biasedrc_rs.Words.ArbitraryInt.{ArbitraryInt}
use biasedrc_rs.Words.Bits.{bit_or_below}

-- `u20`
abbrev pub BiasedCount : Type 0
BiasedCount = ℕ

pub record BiasedWord : Type 0 where
  pub owner_id : Option ShortThreadId
  pub biased_count : BiasedCount

abbrev pub unowned : BiasedWord
unowned = record { owner_id = none; biased_count = 0 }

abbrev pub value_or_zero : Option ShortThreadId → ℕ
value_or_zero none = 0
value_or_zero (some t) = Ids.value t

-- The shift is one of `u32`.
unfoldable pub to_raw : BiasedWord → ℕ
unfolding Ids.value
to_raw w = bit_or (w.biased_count * 2 ^ short_bits % 2 ^ 32) (value_or_zero w.owner_id)

unfoldable pub from_raw : ArbitraryInt → ℕ → BiasedWord
unfolding Ids.new
from_raw int raw = record {
  owner_id = Ids.new (int.u12_masked_new raw);
  biased_count = int.u20_masked_new (raw / 2 ^ short_bits);
}

abbrev pub IsOwner : Option ShortThreadId → Type 0
IsOwner none = Unit {0}
IsOwner (some t) = IsShortThreadId t

pub record IsBiasedWord (w : BiasedWord) : Type 0 where
  pub owner : IsOwner w.owner_id
  pub count : w.biased_count < 2 ^ 20

-- The fields by position.
abbrev pub unpack : ℕ → BiasedWord
unpack raw = record {
  owner_id = if raw % 2 ^ 12 == 0 then none else some (raw % 2 ^ 12);
  biased_count = raw / 2 ^ 12 % 2 ^ 20;
}

abbrev pub owner_bits : Option ShortThreadId → ℕ
owner_bits none = 0
owner_bits (some t) = t

abbrev pub pack : BiasedWord → ℕ
pack w = w.biased_count * 2 ^ 12 + owner_bits w.owner_id

owner_bits-lt : (o : Option ShortThreadId) → IsOwner o → owner_bits o < 2 ^ 12
owner_bits-lt none h = omega arith
owner_bits-lt (some t) h = omega arith

value_or_zero_lem : (o : Option ShortThreadId) → value_or_zero o ≡ owner_bits o
unfolding Ids.value
value_or_zero_lem none = refl
value_or_zero_lem (some t) = refl

unpack-pack :
    (o : Option ShortThreadId) (n : ℕ)
    → IsOwner o
    → n < 2 ^ 20
    → unpack (pack (record { owner_id = o; biased_count = n }))
      ≡ record { owner_id = o; biased_count = n }
unpack-pack none n h k = ground arith
unpack-pack (some t) n h k = ground arith

pack-unpack : (raw : ℕ) → raw < 2 ^ 32 → pack (unpack raw) ≡ raw
pack-unpack raw h = ground arith

pub to_raw_sum : (w : BiasedWord) → IsBiasedWord w → to_raw w ≡ pack w
unfolding to_raw
to_raw_sum w h =
    let fits : w.biased_count * 2 ^ 12 % 2 ^ 32 ≡ w.biased_count * 2 ^ 12 =
      omega (arith, h.count) in
    rw (fits, value_or_zero_lem w.owner_id)
      (bit_or_below 12 w.biased_count (owner_bits w.owner_id) (owner_bits-lt w.owner_id h.owner))

pub to_raw-lt : (w : BiasedWord) → IsBiasedWord w → to_raw w < 2 ^ 32
to_raw-lt w h = omega (arith, to_raw_sum w h, owner_bits-lt w.owner_id h.owner, h.count)

module _ (int : ArbitraryInt) where
  open int use {u20_masked_new_lem, u12_masked_new_lem}

  pub from_raw_fields : (raw : ℕ) → from_raw int raw ≡ unpack raw
  unfolding from_raw
  from_raw_fields raw = rw (u12_masked_new_lem raw, u20_masked_new_lem (raw / 2 ^ short_bits)) refl

  -- Each well-formed biased word comes back from its 32 bits.
  pub from_raw-to_raw_biased : (w : BiasedWord) → IsBiasedWord w → from_raw int (to_raw w) ≡ w
  from_raw-to_raw_biased w h =
      rw (from_raw_fields, to_raw_sum w h) (unpack-pack w.owner_id w.biased_count h.owner h.count)

  pub from_raw-IsBiasedWord : (raw : ℕ) → IsBiasedWord (from_raw int raw)
  from_raw-IsBiasedWord raw = rw from_raw_fields (ground arith)

  -- Each 32-bit number is the encoding of the biased word that it decodes to.
  pub to_raw-from_raw_biased : (raw : ℕ) → raw < 2 ^ 32 → to_raw (from_raw int raw) ≡ raw
  to_raw-from_raw_biased raw h =
      rw (to_raw_sum (from_raw int raw) (from_raw-IsBiasedWord raw), from_raw_fields)
        (pack-unpack raw h)
