-- ===== src/View/Counts.antt =====
-- The reading operations against the view: what they report of the number of references.
use biasedrc_rs.Common.{
  ℕ, ◌≤◌, ◌≡◌, Bool, not, ◌&&◌, ◌||◌, Option, ◌==◌, if◌then◌else◌, pos_part, arith, Result, ok, err,
}
use biasedrc_rs.Exec.{done}
use biasedrc_rs.Threads.Local.{LocalThreadStateFast, IsConsistent, existing_short_id_lem}
use biasedrc_rs.Header.{
  Build, ImpreciseRefCountError, wrong_thread, not_biased, strong_count, is_definitely_not_unique,
  is_unique, biased_count,
}
use biasedrc_rs.View.Defs.{View, refs, is_owned_by, IsView}
use biasedrc_rs.View.Encode.{encode, load_shared-encode, load_biased-encode}
use biasedrc_rs.View.Invariant.{IsView-Fits}

-- Whether the thread sees the precise count.
abbrev pub is_precise : Option ℕ → View → Bool
is_precise this v = v.merged || is_owned_by v.owner this

abbrev pub reported : Option ℕ → View → Result ℕ ImpreciseRefCountError
reported this v =
    if is_precise this v
    then ok (pos_part (refs v))
    else err (record { lower_bound = pos_part v.count })

module _ (build : Build) (fast : LocalThreadStateFast) (consistent : IsConsistent fast) (v : View)
    (h : IsView v) where
  open build use {int}

  -- On a header in a valid state, `strong_count` returns the number of references on the owner and
  -- after the merge, in both kinds of build; elsewhere it returns the error that holds the positive
  -- part of the shared counter as a lower bound.
  pub strong_count-reported :
      strong_count build fast (encode int v) ≡ done (reported fast.short_id v)
  unfolding strong_count
  strong_count-reported = ground (
    arith,
    load_shared-encode build (IsView-Fits v h),
    load_biased-encode build (IsView-Fits v h),
    existing_short_id_lem fast consistent,
  )

  -- On a header in a valid state, `is_unique` returns true exactly when there is one reference and the
  -- thread sees the precise count: it is the owner, or the object is merged.
  pub is_unique_lem :
      is_unique build fast (encode int v)
      ≡ done (is_precise fast.short_id v && (pos_part (refs v) == 1))
  unfolding is_unique
  is_unique_lem = ground (arith, strong_count-reported)

  -- On a header in a valid state, `is_definitely_not_unique` returns true exactly when the thread does
  -- not see the precise count, however many references there are.
  pub is_definitely_not_unique_lem :
      is_definitely_not_unique build fast (encode int v) ≡ done (not (is_precise fast.short_id v))
  unfolding is_definitely_not_unique
  is_definitely_not_unique_lem =
      ground
        (arith, load_biased-encode build (IsView-Fits v h), existing_short_id_lem fast consistent)

  -- On a header in a valid state, `biased_count` returns the biased counter on the owner, and an error
  -- elsewhere: that the object is merged if it is, and otherwise that the thread is the wrong one.
  pub biased_count_lem :
      biased_count build fast (encode int v)
      ≡ done (
          if v.merged
          then err not_biased
          else if is_owned_by v.owner fast.short_id
          then ok v.biased
          else err wrong_thread)
  unfolding biased_count
  biased_count_lem =
      ground
        (arith, load_biased-encode build (IsView-Fits v h), existing_short_id_lem fast consistent)

-- The lower bound that a thread is told never exceeds the number of references.
pub lower_bound_le : (v : View) → IsView v → pos_part v.count ≤ pos_part (refs v)
lower_bound_le v h = ground arith
