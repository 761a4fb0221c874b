-- ===== src/Brc.antt =====
-- src/layout.rs: `BrcHeader`; src/strong.rs and src/weak.rs: the operations on its weak count.
pub mod Object
pub mod Destruction
pub mod Sharing
pub mod World
pub mod Alloc
pub mod Weak
pub mod Calls
pub mod Pointers
pub mod Unsharing
pub mod Cycle
use biasedrc_rs.Common.{
  ℕ, ◌+◌, ◌-◌, ◌%◌, ◌^◌, ◌≡◌, Bool, true, false, ◌&&◌, Option, none, some, List, [], ◌∷◌, ◌==◌, ltb,
  if◌then◌else◌, pos_part, Result, ok, err, arith,
}
use biasedrc_rs.Exec.{Exec, done, fault, Fault, ◌>>=◌, ◌>>◌, fault_if}
use biasedrc_rs.Threads.Local.{LocalThreadStateFast, IsConsistent}
use biasedrc_rs.Header
use biasedrc_rs.Header.{
  Build, RawBrcHeader, ImpreciseRefCountError, is_definitely_not_unique, strong_count,
}
use biasedrc_rs.View.{View, refs, encode, IsView}
use biasedrc_rs.View.Counts.{is_precise, is_unique_lem, is_definitely_not_unique_lem}

-- The allocator is left out: it has no part in the counts.
pub record BrcHeader : Type 0 where
  pub strong : RawBrcHeader
  pub weak_count : ℕ

-- `u32::MAX`
abbrev pub weak_locked_count : ℕ
weak_locked_count = 2 ^ 32 - 1

abbrev pub weak_overflow_threshold : ℕ
weak_overflow_threshold = 2147483647

-- The loop of `downgrade` from the count `old`; `seen` are the counts that it reads later, while the
-- count is locked or after a failed exchange. `none` is a loop that still waits for the lock.
unfoldable pub downgrade_loop : List ℕ → ℕ → Exec (Option ℕ)
downgrade_loop [] old = if old == weak_locked_count then done none else (do
  fault_if (ltb weak_overflow_threshold old) Fault.weak_refcnt_overflow
  done (some (old + 1)))
downgrade_loop (next ∷ seen) old =
    let rest = downgrade_loop seen next in
    if old == weak_locked_count
    then rest
    else (do fault_if (ltb weak_overflow_threshold old) Fault.weak_refcnt_overflow; rest)

unfoldable pub downgrade : List ℕ → BrcHeader → Exec (Option BrcHeader)
unfolding downgrade_loop
downgrade seen h =
    downgrade_loop seen h.weak_count
    >>= elim [ none ↦ done none | some n ↦ done (some (record h { weak_count = n })) ]

-- `Weak::clone`; the count wraps around before the test.
unfoldable pub clone_weak : BrcHeader → Exec BrcHeader
clone_weak h = do
  fault_if (ltb weak_overflow_threshold h.weak_count) Fault.weak_refcnt_overflow
  done (record h { weak_count = (h.weak_count + 1) % 2 ^ 32 })

-- The flag says whether the memory is released.
unfoldable pub drop_weak : BrcHeader → BrcHeader × Bool
drop_weak h = (record h { weak_count = (h.weak_count + (2 ^ 32 - 1)) % 2 ^ 32 }, h.weak_count == 1)

-- `Brc::weak_count`; `u32` arithmetic.
unfoldable pub weak_count : BrcHeader → Result ℕ ImpreciseRefCountError
weak_count h = if h.weak_count == weak_locked_count then ok 0 else ok (h.weak_count - 1)

module _ (build : Build) (fast : LocalThreadStateFast) where
  -- `Brc::is_unique`: the header afterwards, and the answer.
  unfoldable pub is_unique : BrcHeader → Exec (BrcHeader × Bool)
  is_unique h = do
    shared ← is_definitely_not_unique build fast h.strong
    if shared
        then done (h, false)
        else if h.weak_count == 1
        then (do
          let locked = record h { weak_count = weak_locked_count }
          actually_unique ← Header.is_unique build fast locked.strong
          done (record locked { weak_count = 1 }, actually_unique))
        else done (h, false)

  -- `Weak::weak_count` of a weak reference to an object.
  unfoldable pub weak_count_of_weak : BrcHeader → Exec (Result ℕ ImpreciseRefCountError)
  weak_count_of_weak h = do
    count ← strong_count build fast h.strong
    elim count [
      | ok n ↦
          if n == 0
          then done (ok 0)
          else if h.weak_count == 0
          then fault Fault.panicked
          else done (ok (h.weak_count - 1))
      | err e ↦
          if e.lower_bound == 0
          then done (err e)
          else if h.weak_count == 0
          then fault Fault.panicked
          else done (ok (h.weak_count - 1))
    ]

  -- On a header in a valid state, `Brc::is_unique` returns and leaves the header as it was. It answers
  -- true exactly when the thread sees the precise count, that is one, and the weak count is one, for
  -- the weak reference that all strong ones share.
  pub is_unique-encode :
      IsConsistent fast
      → (v : View) (w : ℕ) → IsView v
      → (let h : BrcHeader = record { strong = encode build.int v; weak_count = w } in
          is_unique h
          ≡ done (h, is_precise fast.short_id v && (w == 1) && (pos_part (refs v) == 1)))
  unfolding is_unique
  is_unique-encode consistent v w valid = ground (
    arith,
    is_definitely_not_unique_lem build fast consistent v valid,
    is_unique_lem build fast consistent v valid,
  )

-- A downgrade that ends and the drop of the weak reference restore the weak count, and the drop does
-- not release the memory, where the count is positive when the exchange succeeds at once.
pub drop_weak-downgrade :
    (h : BrcHeader)
    → ltb 0 h.weak_count ≡ true
    → ltb weak_overflow_threshold h.weak_count ≡ false
    → (h' : BrcHeader) × (downgrade [] h ≡ done (some h')) × (drop_weak h' ≡ (h, false))
unfolding downgrade drop_weak
drop_weak-downgrade h positive small =
    (record h { weak_count = h.weak_count + 1 }, ground arith, ground arith)
