-- ===== src/View/Decrement.antt =====
-- `decrement_strong` against its specification on views.
use biasedrc_rs.Common.{
  ℕ, ◌<◌, ◌≡◌, ◌≢◌, true, false, Option, none, some, [], Bool-cases, inl, inr, pos, ◌-ℤ◌, is_neg,
  arith,
}
use biasedrc_rs.Exec.{done}
use biasedrc_rs.Threads.Local.{LocalThreadStateFast, IsConsistent, existing_short_id_lem}
use biasedrc_rs.Words.ArbitraryInt.{ArbitraryInt, IsI62}
use biasedrc_rs.Header.{
  Build, Decremented, decrement_biased_slow, decrement_biased, decrement_shared, decrement_strong,
}
use biasedrc_rs.View.Defs.{
  View, is_owned_by, Effect, released, decremented_owned, decremented_shared, decremented,
}
use biasedrc_rs.View.Encode.{
  Fits, encode, shared_of, load_shared-encode, load_biased-encode, to_raw-merge,
}

abbrev pub encode_effect : ArbitraryInt → Effect → Decremented
encode_effect int e = record {
  header = encode int e.view;
  result = record { should_drop = e.should_drop };
  queue_to = e.queue_to;
}

-- What the owner's decrement relies on.
pub record CanRelease (v : View) : Type 0 where
  pub positive : 0 < v.biased
  pub unmerged : v.biased ≡ 1 → v.merged ≡ false
  pub enough : v.biased ≡ 1 → is_neg v.count ≡ false

-- What the decrement of the shared counter relies on.
pub record CanSubtract (v : View) : Type 0 where
  pub room : IsI62 (v.count -ℤ pos 1)
  pub enough : v.merged ≡ true → is_neg (v.count -ℤ pos 1) ≡ false
  pub announced : is_neg (v.count -ℤ pos 1) ≡ true → v.queued ≡ false → v.owner ≢ none

pub decremented_own :
    (this : Option ℕ) (v : View)
    → is_owned_by v.owner this ≡ true
    → decremented this v ≡ decremented_owned v
unfolding decremented
decremented_own this v h = rw h

pub decremented_foreign :
    (this : Option ℕ) (v : View)
    → is_owned_by v.owner this ≡ false
    → decremented this v ≡ decremented_shared v
unfolding decremented
decremented_foreign this v h = rw h

module _ (build : Build) (fast : LocalThreadStateFast) (consistent : IsConsistent fast) {v : View}
    (fits : Fits v) where
  open build use {int}

  slow_released :
      v.merged ≡ false
      → is_neg v.count ≡ false
      → decrement_biased_slow build (encode int v) ≡ done (encode_effect int (released v))
  unfolding decrement_biased_slow
  slow_released unmerged enough =
      ground (arith, load_shared-encode build fits, to_raw-merge int (shared_of v) fits.count)

  pub biased_owned :
      is_owned_by v.owner fast.short_id ≡ true
      → CanRelease v
      → decrement_biased build fast (encode int v)
        ≡ done (some (encode_effect int (decremented_owned v)))
  unfolding decrement_biased
  biased_owned owned can =
      ground
        (arith, load_biased-encode build fits, existing_short_id_lem fast consistent, slow_released)

  pub biased_foreign :
      is_owned_by v.owner fast.short_id ≡ false
      → decrement_biased build fast (encode int v) ≡ done none
  unfolding decrement_biased
  biased_foreign foreign =
      ground (arith, load_biased-encode build fits, existing_short_id_lem fast consistent)

  pub shared_decremented :
      CanSubtract v
      → decrement_shared build [] (encode int v) ≡ done (encode_effect int (decremented_shared v))
  unfolding decrement_shared
  shared_decremented can = ground (
    arith,
    load_shared-encode build fits,
    load_biased-encode build fits,
    int.i62_checked_sub_lem v.count (pos 1) fits.count (omega arith),
  )

  -- A drop returns with one reference less. The owner counts it in the biased counter, and merges with
  -- the last one; any other thread counts it in the shared counter, and has the object queued for its
  -- owner when that first goes below zero. The owner's counter must be positive and the object not yet
  -- merged; elsewhere the subtraction must have room, not leave a merged object below zero, and find
  -- the owner that it is to queue the object for.
  pub decrement_strong-decremented :
      (is_owned_by v.owner fast.short_id ≡ true → CanRelease v)
      → (is_owned_by v.owner fast.short_id ≡ false → CanSubtract v)
      → decrement_strong build fast [] (encode int v)
        ≡ done (encode_effect int (decremented fast.short_id v))
  unfolding decrement_strong
  decrement_strong-decremented release subtract =
      elim (Bool-cases (is_owned_by v.owner fast.short_id)) [
        | inl own ↦
            rw (
              biased_owned own (release own),
              decrement_strong,
              decremented_own fast.short_id v own,
            )
        | inr foreign ↦
            rw
              (
                biased_foreign foreign,
                decrement_strong,
                decremented_foreign fast.short_id v foreign,
              )
              (shared_decremented (subtract foreign))
      ]
