-- ===== src/View/Encode.antt =====
-- The header of a view, and the words that its operations load from it.
use Prim.Native.Nat.{bit_or}
use biasedrc_rs.Common.{true, ◌+◌, ◌%◌, ◌^◌, ◌<◌, ◌≡◌, ap, sym, ◌∙◌, arith}
use biasedrc_rs.Words.ArbitraryInt.{ArbitraryInt, IsI62}
use biasedrc_rs.Words.Shared
use biasedrc_rs.Words.Bits.{bit_or_bit}
use biasedrc_rs.Words.Shared.{SharedWord, merged_bit, bump}
use biasedrc_rs.Words.Biased
use biasedrc_rs.Words.Biased.{BiasedWord, IsBiasedWord, IsOwner}
use biasedrc_rs.Header.{Build, RawBrcHeader, IsHeader, load_shared, load_biased}
use biasedrc_rs.View.Defs.{View}

abbrev pub shared_of : View → SharedWord
shared_of v = record { shared_count = v.count; merged = v.merged; queued = v.queued }

abbrev pub biased_of : View → BiasedWord
biased_of v = record { owner_id = v.owner; biased_count = v.biased }

abbrev pub encode : ArbitraryInt → View → RawBrcHeader
encode int v = record {
  shared_word = Shared.to_raw int (shared_of v);
  biased_word = Biased.to_raw (biased_of v);
}

-- The ranges that the words have room for.
pub record Fits (v : View) : Type 0 where
  pub count : IsI62 v.count
  pub owner : IsOwner v.owner
  pub biased : v.biased < 2 ^ 20

-- The fields of any header.
abbrev pub decode : Build → RawBrcHeader → View
decode build h = record {
  owner = (load_biased build h).owner_id;
  biased = (load_biased build h).biased_count;
  count = (load_shared build h).shared_count;
  merged = (load_shared build h).merged;
  queued = (load_shared build h).queued;
}

Fits-IsBiasedWord : {v : View} → Fits v → IsBiasedWord (biased_of v)
Fits-IsBiasedWord f = record { owner = f.owner; count = f.biased }

module _ (build : Build) where
  open build use {int}

  pub load_shared-encode : {v : View} → Fits v → load_shared build (encode int v) ≡ shared_of v
  load_shared-encode {v} f = Shared.from_raw-to_raw int (shared_of v) f.count

  pub load_biased-encode : {v : View} → Fits v → load_biased build (encode int v) ≡ biased_of v
  load_biased-encode {v} f = Biased.from_raw-to_raw_biased int (biased_of v) (Fits-IsBiasedWord f)

  pub decode-encode : {v : View} → Fits v → decode build (encode int v) ≡ v
  decode-encode f = rw (load_shared-encode f, load_biased-encode f)

  pub decode-Fits : (h : RawBrcHeader) → Fits (decode build h)
  decode-Fits h = record {
    count = Shared.from_raw-IsSharedWord int h.shared_word;
    owner = (Biased.from_raw-IsBiasedWord int h.biased_word).owner;
    biased = (Biased.from_raw-IsBiasedWord int h.biased_word).count;
  }

  pub encode-decode : (h : RawBrcHeader) → IsHeader h → encode int (decode build h) ≡ h
  encode-decode h (s, b) = rw (
    Shared.to_raw-from_raw int h.shared_word s,
    Biased.to_raw-from_raw_biased int h.biased_word b,
  )

  pub encode-IsHeader : {v : View} → Fits v → IsHeader (encode int v)
  encode-IsHeader {v} f = (
    Shared.to_raw-lt int (shared_of v) f.count,
    Biased.to_raw-lt (biased_of v) (Fits-IsBiasedWord f),
  )

-- The word after `fetch_add(1)`.
pub to_raw-bump :
    (int : ArbitraryInt) (w : SharedWord)
    → IsI62 w.shared_count
    → (Shared.to_raw int w + 1) % 2 ^ 64 ≡ Shared.to_raw int (bump w)
to_raw-bump int w h = rw (← same) (sym (Shared.to_raw-from_raw int _ (omega arith)))
  where
    same : Shared.from_raw int ((Shared.to_raw int w + 1) % 2 ^ 64) ≡ bump w
    same =
        Shared.from_raw-fetch_add int (Shared.to_raw int w) (Shared.to_raw-lt int w h)
        ∙ ap bump (Shared.from_raw-to_raw int w h)

-- The word after `fetch_or(MERGED_BIT)`.
pub to_raw-merge :
    (int : ArbitraryInt) (w : SharedWord)
    → IsI62 w.shared_count
    → bit_or (Shared.to_raw int w) merged_bit ≡ Shared.to_raw int (record w { merged = true })
to_raw-merge int w h =
    let raw = Shared.to_raw int w in
    let small : bit_or raw merged_bit < 2 ^ 64 =
      omega (arith, bit_or_bit 62 raw, Shared.to_raw-lt int w h) in
    let same : Shared.from_raw int (bit_or raw merged_bit) ≡ record w { merged = true } =
      Shared.from_raw-fetch_or int raw
      ∙ ap (λ (u : SharedWord). record u { merged = true }) (Shared.from_raw-to_raw int w h) in
    sym (Shared.to_raw-from_raw int (bit_or raw merged_bit) small) ∙ ap (Shared.to_raw int) same
