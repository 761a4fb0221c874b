-- ===== src/Header/Increment.antt =====
-- src/runtime.rs, `RawBrcHeader`: one more strong reference.
use biasedrc_rs.Common.{
  ℕ, ◌+◌, ◌%◌, ◌^◌, Bool, false, ◌&&◌, Option, none, some, List, option_eq, ◌==◌, ltb,
  if◌then◌else◌, ℤ, pos, negsuc, is_neg, is_zero, ok, err,
}
use biasedrc_rs.Exec.{Exec, done, fault, Fault, ◌>>=◌, ◌>>◌, fault_if}
use biasedrc_rs.Threads.Local.{LocalThreadStateFast, existing_short_id}
use biasedrc_rs.Words.Shared
use biasedrc_rs.Words.Shared.{SharedWord, overflow_threshold}
use biasedrc_rs.Words.Biased
use biasedrc_rs.Words.Biased.{BiasedWord}
use biasedrc_rs.Header.Defs.{Build, RawBrcHeader, load_shared, load_biased, cas_loop}

-- `a > b` on the counters
abbrev pub gt_ℤ : ℤ → ℕ → Bool
gt_ℤ (pos n) m = ltb m n
gt_ℤ (negsuc n) m = false

module _ (build : Build) (fast : LocalThreadStateFast) (h : RawBrcHeader) where
  -- The new biased word is stored only by the owner; `none` is `FastIncrementFailure`.
  store_increment : Option ℕ → BiasedWord → ℕ → Exec (Option RawBrcHeader)
  store_increment this biased_word incremented_counter =
      if option_eq biased_word.owner_id this
      then (do
        fault_if (build.debug_assertions && biased_word.biased_count == 0)
            Fault.biased_count_zero_and_owned
        let raw = Biased.to_raw (record biased_word { biased_count = incremented_counter })
        done (some (record h { biased_word = raw })))
      else done none

  unfoldable pub attempt_biased_increment : Exec (Option RawBrcHeader)
  unfolding store_increment
  attempt_biased_increment =
      let biased_word = load_biased build h in
      elim (build.int.u20_checked_add biased_word.biased_count 1) [
        | none ↦ done none
        | some incremented_counter ↦ do
          this ← existing_short_id fast
          elim this [
            | err _ ↦ done none
            | ok this_id ↦ store_increment (some this_id) biased_word incremented_counter
          ]
      ]

-- The flag of an overflow is looked at after the addition.
unfoldable pub increment_strong_shared : Build → RawBrcHeader → Exec RawBrcHeader
increment_strong_shared build h = do
  let old_word = load_shared build h
  fault_if (gt_ℤ old_word.shared_count overflow_threshold) Fault.shared_refcnt_overflow
  done (record h { shared_word = (h.shared_word + 1) % 2 ^ 64 })

module _ (build : Build) (fast : LocalThreadStateFast) where
  unfoldable pub increment_strong : RawBrcHeader → Exec RawBrcHeader
  unfolding attempt_biased_increment increment_strong_shared
  increment_strong h = do
    attempt ← attempt_biased_increment build fast h
    elim attempt [ some h' ↦ done h' | none ↦ increment_strong_shared build h ]

-- The closure of `fetch_update`: `none` for a dead object.
unfoldable pub increment_unless_dead : Build → SharedWord → Exec (Option SharedWord)
increment_unless_dead build old_shared = do
  fault_if (build.debug_assertions && old_shared.merged && is_neg old_shared.shared_count)
      Fault.negative_refcnt_merge
  if old_shared.merged && is_zero old_shared.shared_count
      then done none
      else elim (build.int.i62_checked_add old_shared.shared_count (pos 1)) [
        | none ↦ fault Fault.shared_refcnt_overflow
        | some count ↦ done (some (record old_shared { shared_count = count }))
      ]

-- `none` is `ZeroReferenceCountError`, with the header untouched.
module _ (build : Build) (fast : LocalThreadStateFast) where
  unfoldable pub increment_strong_unless_zero : List ℕ → RawBrcHeader → Exec (Option RawBrcHeader)
  unfolding attempt_biased_increment increment_unless_dead cas_loop
  increment_strong_unless_zero failures h = do
    attempt ← attempt_biased_increment build fast h
    elim attempt [
      | some h' ↦ done (some h')
      | none ↦ do
        swap ← cas_loop build.int (increment_unless_dead build) failures h.shared_word
        done (elim swap [
          | none ↦ none
          | some s ↦ some (record h { shared_word = Shared.to_raw build.int s.new })
        ])
    ]
