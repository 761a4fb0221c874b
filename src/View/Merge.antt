-- ===== src/View/Merge.antt =====
-- `explicit_merge` against its specification on views.
use biasedrc_rs.Common.{ℕ, ◌≡◌, ◌≢◌, true, false, some, [], pos, is_neg, is_zero, arith}
use biasedrc_rs.Exec.{done, fault, Fault}
use biasedrc_rs.Words.ArbitraryInt.{ArbitraryInt, IsI62}
use biasedrc_rs.Header.{Build, Merged, explicit_merge}
use biasedrc_rs.View.Defs.{View, refs, merged_view}
use biasedrc_rs.View.Encode.{Fits, encode, load_shared-encode, load_biased-encode}

abbrev pub encode_merged : ArbitraryInt → View → Merged
encode_merged int v = record { header = encode int v; dealloc = is_zero v.count }

module _ (build : Build) {v : View} (fits : Fits v) (tid : ℕ) where
  open build use {int}

  -- A merge of an unmerged object by its owner returns, where the sum of the counters has room and is
  -- not negative: it moves the biased count to the shared counter, sets the merged flag and gives up
  -- the ownership, and the destructor is due exactly when the sum is zero.
  pub explicit_merge-merged_view :
      v.owner ≡ some tid
      → v.merged ≡ false
      → IsI62 (refs v)
      → is_neg (refs v) ≡ false
      → explicit_merge build tid [] (encode int v) ≡ done (encode_merged int (merged_view v))
  unfolding explicit_merge merged_view
  explicit_merge-merged_view own unmerged room enough = ground (
    arith,
    load_shared-encode build fits,
    load_biased-encode build fits,
    int.i62_checked_add_lem v.count (pos v.biased) fits.count (omega arith),
  )

  -- A merge that succeeds has found room in the shared counter.
  pub explicit_merge-room :
      {m : Merged} → explicit_merge build tid [] (encode int v) ≡ done m → IsI62 (refs v)
  unfolding explicit_merge
  explicit_merge-room e = ground (
    arith,
    load_shared-encode build fits,
    load_biased-encode build fits,
    int.i62_checked_add_lem v.count (pos v.biased) fits.count (omega arith),
  )

  -- No other thread than the owner may merge.
  explicit_merge_bad_id :
      v.owner ≢ some tid
      → explicit_merge build tid [] (encode int v) ≡ fault Fault.explicit_merge_bad_id
  unfolding explicit_merge
  explicit_merge_bad_id foreign = ground (arith, load_biased-encode build fits)

  -- A merged object is never merged again.
  explicit_merge_twice :
      v.owner ≡ some tid
      → v.merged ≡ true
      → explicit_merge build tid [] (encode int v) ≡ fault Fault.assertion_failed
  unfolding explicit_merge
  explicit_merge_twice own merged =
      ground (arith, load_shared-encode build fits, load_biased-encode build fits)
