-- ===== src/View/Increment.antt =====
-- `increment_strong` against its specification on views.
use biasedrc_rs.Common.{
  ℕ, zero, suc, ◌+◌, ◌^◌, ◌<◌, ◌≡◌, ◌≢◌, refl, Bool, true, false, ◌&&◌, Option, none, some, ltb,
  Bool-cases, inl, inr, ℤ, pos, negsuc, ◌+ℤ◌, arith,
}
use biasedrc_rs.Exec.{done}
use biasedrc_rs.Threads.Local.{LocalThreadStateFast, IsConsistent, existing_short_id_lem}
use biasedrc_rs.Words.ArbitraryInt.{IsI62}
use biasedrc_rs.Words.Shared.{overflow_threshold, bump}
use biasedrc_rs.Header.{
  Build, RawBrcHeader, gt_ℤ, attempt_biased_increment, increment_strong_shared, increment_strong,
}
use biasedrc_rs.View.Defs.{View, is_owned_by, incremented}
use biasedrc_rs.View.Encode.{
  Fits, encode, shared_of, load_shared-encode, load_biased-encode, to_raw-bump,
}

abbrev pub takes_biased : Option ℕ → View → Bool
takes_biased this v = is_owned_by v.owner this && ltb (v.biased + 1) (2 ^ 20)

-- Where `fetch_add(1)` on the shared word is one more: the counter is not -1, and has not passed the
-- threshold.
pub record CanAdd (count : ℤ) : Type 0 where
  pub no_carry : count ≢ negsuc 0
  pub room : gt_ℤ count overflow_threshold ≡ false

bump_count-eq-add :
    (count : ℤ) (m q : Bool)
    → CanAdd count
    → bump (record { shared_count = count; merged = m; queued = q })
      ≡ record { shared_count = count +ℤ pos 1; merged = m; queued = q }
bump_count-eq-add (pos n) m q h = ground arith
bump_count-eq-add (negsuc zero) m q h = absurd (h.no_carry refl)
bump_count-eq-add (negsuc (suc n)) m q h = ground arith

pub CanAdd-room : (count : ℤ) → IsI62 count → CanAdd count → IsI62 (count +ℤ pos 1)
CanAdd-room count fits h = ground (arith, h.room)

pub incremented_owned :
    (this : Option ℕ) (v : View)
    → takes_biased this v ≡ true
    → incremented this v ≡ record v { biased = v.biased + 1 }
unfolding incremented
incremented_owned this v h = rw h

pub incremented_foreign :
    (this : Option ℕ) (v : View)
    → takes_biased this v ≡ false
    → incremented this v ≡ record v { count = v.count +ℤ pos 1 }
unfolding incremented
incremented_foreign this v h = rw h

module _ (build : Build) (fast : LocalThreadStateFast) (consistent : IsConsistent fast) {v : View}
    (fits : Fits v) where
  open build use {int}

  -- The owner's attempt, with room in the biased counter.
  pub attempt_owned :
      takes_biased fast.short_id v ≡ true
      → 0 < v.biased
      → attempt_biased_increment build fast (encode int v)
        ≡ done (some (encode int (record v { biased = v.biased + 1 })))
  unfolding attempt_biased_increment
  attempt_owned owned positive = ground (
    arith,
    load_biased-encode build fits,
    int.u20_checked_add_lem v.biased 1 fits.biased (omega arith),
    existing_short_id_lem fast consistent,
  )

  pub attempt_foreign :
      takes_biased fast.short_id v ≡ false
      → attempt_biased_increment build fast (encode int v) ≡ done none
  unfolding attempt_biased_increment
  attempt_foreign foreign = ground (
    arith,
    load_biased-encode build fits,
    int.u20_checked_add_lem v.biased 1 fits.biased (omega arith),
    existing_short_id_lem fast consistent,
  )

  pub increment_shared :
      CanAdd v.count
      → increment_strong_shared build (encode int v)
        ≡ done (encode int (record v { count = v.count +ℤ pos 1 }))
  unfolding increment_strong_shared
  increment_shared h = ground (
    arith,
    load_shared-encode build fits,
    to_raw-bump int (shared_of v) fits.count,
    bump_count-eq-add v.count v.merged v.queued h,
  )

  -- A clone returns with one reference more, which the owner counts in the biased counter while that
  -- has room, and any other thread, or the owner without room, in the shared counter. A biased counter
  -- that grows must be positive, and a shared counter that grows must have room and not be -1.
  pub increment_strong-incremented :
      (takes_biased fast.short_id v ≡ true → 0 < v.biased)
      → (takes_biased fast.short_id v ≡ false → CanAdd v.count)
      → increment_strong build fast (encode int v) ≡ done (encode int (incremented fast.short_id v))
  unfolding increment_strong
  increment_strong-incremented positive add = elim (Bool-cases (takes_biased fast.short_id v)) [
    | inl owned ↦ rw (
      attempt_owned owned (positive owned),
      increment_strong,
      incremented_owned fast.short_id v owned,
    )
    | inr foreign ↦
        rw (attempt_foreign foreign, increment_strong, incremented_foreign fast.short_id v foreign)
          (increment_shared (add foreign))
  ]

  -- A clone that succeeds has found room in the shared counter, if it went there.
  pub increment_strong-room :
      {h : RawBrcHeader}
      → increment_strong build fast (encode int v) ≡ done h
      → takes_biased fast.short_id v ≡ false
      → gt_ℤ v.count overflow_threshold ≡ false
  unfolding increment_strong increment_strong_shared
  increment_strong-room e foreign =
      ground (arith, attempt_foreign foreign, load_shared-encode build fits)
