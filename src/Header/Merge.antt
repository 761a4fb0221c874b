-- ===== src/Header/Merge.antt =====
-- src/runtime.rs, `explicit_merge`: the owner, or after its death another thread, adds the biased
-- counter to the shared one.
use biasedrc_rs.Common.{
  ℕ, Bool, true, not, Option, none, some, List, option_eq, pos, is_neg, is_zero,
}
use biasedrc_rs.Exec.{Exec, done, fault, Fault, ◌>>=◌, ◌>>◌, assert, fault_if}
use biasedrc_rs.Ids.{ShortThreadId}
use biasedrc_rs.Words.Shared
use biasedrc_rs.Words.Shared.{SharedWord}
use biasedrc_rs.Header.Defs.{Build, RawBrcHeader, load_biased, cas_loop}
use biasedrc_rs.Header.Decrement.{release_ownership}

-- `dealloc` says whether the destructor of the object is called.
pub record Merged : Type 0 where
  pub header : RawBrcHeader
  pub dealloc : Bool

module _ (build : Build) where
  -- The body of the loop.
  unfoldable pub merge_word : ℕ → SharedWord → Exec (Option SharedWord)
  merge_word biased_count old_word = do
    assert (not old_word.merged)
    elim (build.int.i62_checked_add old_word.shared_count (pos biased_count)) [
      | none ↦ fault Fault.merged_refcnt_overflow
      | some count ↦ done (some (record old_word { shared_count = count; merged = true }))
    ]

  unfoldable pub explicit_merge : ShortThreadId → List ℕ → RawBrcHeader → Exec Merged
  unfolding merge_word cas_loop
  explicit_merge biased_tid failures h = do
    let biased = load_biased build h
    fault_if (not (option_eq biased.owner_id (some biased_tid))) Fault.explicit_merge_bad_id
    swap ← cas_loop build.int (merge_word biased.biased_count) failures h.shared_word
    elim swap [
      | none ↦ fault Fault.unreachable_unchecked
      | some s ↦ do
        let h' = release_ownership build (record h { shared_word = Shared.to_raw build.int s.new })
        fault_if (is_neg s.new.shared_count) Fault.negative_refcnt_merge
        done (record { header = h'; dealloc = is_zero s.new.shared_count })
    ]
