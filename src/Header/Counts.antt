-- ===== src/Header/Counts.antt =====
-- src/runtime.rs, `RawBrcHeader`: the operations that only read the counters.
use biasedrc_rs.Common.{
  ℕ, ◌-◌, ◌%◌, ◌^◌, Bool, false, not, ◌&&◌, none, option_eq, ◌==◌, ltb, if◌then◌else◌, ℤ, pos,
  negsuc, ◌+ℤ◌, pos_part, Result, ok, err, to_option,
}
use biasedrc_rs.Exec.{Exec, done, fault, Fault, ◌>>=◌}
use biasedrc_rs.Threads.Local.{LocalThreadStateFast, existing_short_id}
use biasedrc_rs.Header.Defs.{
  Build, RawBrcHeader, BiasedCountError, wrong_thread, not_biased, ImpreciseRefCountError,
  load_shared, load_biased,
}

-- `res as usize` for a merged counter, which must not be negative.
merged_count : Build → ℤ → Exec ℕ
merged_count build (pos n) = done n
merged_count build (negsuc n) =
    if build.debug_assertions
    then fault Fault.negative_refcnt_merge
    else fault Fault.unreachable_unchecked

-- `usize::checked_add_signed`, with the abort of its `unwrap_or_else`.
checked_add_signed : ℤ → Exec ℕ
checked_add_signed (pos n) =
    if ltb n (2 ^ 64) then done n else fault Fault.strong_count_arith_overflow
checked_add_signed (negsuc n) = fault Fault.strong_count_arith_overflow

-- `usize::wrapping_add_signed`
wrapping_add_signed : ℤ → ℕ
wrapping_add_signed (pos n) = n % 2 ^ 64
wrapping_add_signed (negsuc n) = 2 ^ 64 - 1 - n % 2 ^ 64

sum_count : Build → ℕ → ℤ → Exec ℕ
unfolding checked_add_signed wrapping_add_signed
sum_count build biased_count shared_count =
    let sum = pos biased_count +ℤ shared_count in
    if build.debug_assertions then checked_add_signed sum else done (wrapping_add_signed sum)

-- `Result::Ok`, for a computation that may fault.
abbrev exact : Exec ℕ → Exec (Result ℕ ImpreciseRefCountError)
exact m = m >>= λ n. done (ok n)

module _ (build : Build) (fast : LocalThreadStateFast) (h : RawBrcHeader) where
  unfoldable pub strong_count : Exec (Result ℕ ImpreciseRefCountError)
  unfolding merged_count sum_count
  strong_count = do
    this ← existing_short_id fast
    let shared_word = load_shared build h
    let biased_word = load_biased build h
    if shared_word.merged
        then exact (merged_count build shared_word.shared_count)
        else if option_eq biased_word.owner_id (to_option this)
        then exact (sum_count build biased_word.biased_count shared_word.shared_count)
        else done (err (record { lower_bound = pos_part shared_word.shared_count }))

  unfoldable pub is_definitely_not_unique : Exec Bool
  is_definitely_not_unique = do
    this ← existing_short_id fast
    let owner_id = (load_biased build h).owner_id
    done (not (option_eq owner_id none) && not (option_eq owner_id (to_option this)))

  unfoldable pub is_unique : Exec Bool
  unfolding strong_count
  is_unique = do count ← strong_count; done (elim count [ ok n ↦ n == 1 | err _ ↦ false ])

  unfoldable pub biased_count : Exec (Result ℕ BiasedCountError)
  biased_count = do
    this ← existing_short_id fast
    let biased_word = load_biased build h
    done (
        if option_eq biased_word.owner_id none
        then err not_biased
        else if option_eq (to_option this) biased_word.owner_id
        then ok biased_word.biased_count
        else err wrong_thread)

unfoldable pub shared_count : Build → RawBrcHeader → ℤ
shared_count build h = (load_shared build h).shared_count
