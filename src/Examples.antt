-- ===== src/Examples.antt =====
-- The headers on which the examples apply the theorems, with the integers of `plain_int`.
pub mod Operations
pub mod Runs
pub mod Threads
pub mod Objects
pub mod Slices
pub mod Cycles
pub mod Lifetimes
pub mod Contention
pub mod Accesses
pub mod Unwinding
use Prim.Native.Nat.{bit_or}
use biasedrc_rs.Common.{
  ℕ, ◌+◌, ◌-◌, ◌%◌, ◌^◌, ◌≤◌, ◌<◌, ◌≡◌, ◌⊎◌, ◌↔◌, refl, ap, ◌∙◌, Bool, true, false, not, ◌&&◌,
  Option, none, some, List, [], ◌∷◌, if◌then◌else◌, ltb, ◌==◌, ℤ, pos, negsuc, ◌+ℤ◌, ◌-ℤ◌, is_zero,
  pos_part, arith, ok, err,
}
use biasedrc_rs.Exec.{done, ◌>>=◌}
use biasedrc_rs.Ids.{
  IsShortThreadId, index-try_from, try_from-some_iff, from_index, try_from, index, short_max,
}
use biasedrc_rs.Threads.Local.{LocalThreadStateFast, active, dummy, initial_fast}
use biasedrc_rs.Words.ArbitraryInt.{plain_int, IsI62}
use biasedrc_rs.Words.Shared
use biasedrc_rs.Words.Shared.{SharedWord, bump, merged_bit}
use biasedrc_rs.Words.Biased
use biasedrc_rs.Header.{
  Build, RawBrcHeader, Decremented, Merged, init_header, increment_strong, decrement_strong,
  decrement_shared, explicit_merge, increment_strong_unless_zero, strong_count, is_unique,
  is_definitely_not_unique, biased_count,
}
use biasedrc_rs.Header.Interference.{decrement_shared-last_word, explicit_merge-last_word}
use biasedrc_rs.View
use biasedrc_rs.View.{
  View, Effect, refs, incremented, decremented, decremented_shared, released, merged_view, encode,
  Fits, IsView,
}
use biasedrc_rs.View.Increment.{CanAdd, increment_strong-incremented}
use biasedrc_rs.View.Decrement.{
  encode_effect, decrement_strong-decremented, decremented_foreign, decremented_own,
}
use biasedrc_rs.View.Merge.{encode_merged, explicit_merge-merged_view}
use biasedrc_rs.View.Upgrade.{upgraded, encode_option, increment_strong_unless_zero-upgraded}
use biasedrc_rs.View.Counts.{
  strong_count-reported, is_unique_lem, is_definitely_not_unique_lem, biased_count_lem,
}
use biasedrc_rs.View.Carry.{carried, increment_strong-carried, clone_twice_drop_once}
use biasedrc_rs.Counting.{
  init_header-counts, increment_strong-counts, decrement_strong-counts, explicit_merge-counts,
  increment_strong_unless_zero-none_iff,
}
use biasedrc_rs.Protocol.{
  System, Step, drop, push, merge, Run, Reach, allocated, here, next, after_drop,
}
use biasedrc_rs.Protocol.Safety
use biasedrc_rs.Protocol.Hasty

abbrev pub build : Build
build = record { int = plain_int; debug_assertions = true }

-- Thread 1, which owns the objects of the examples.
abbrev pub owner : LocalThreadStateFast
owner = record { status = active; short_id = some 1; shared_state_flag = dummy }

pub owner_id : IsShortThreadId 1
owner_id = (omega arith, omega arith)

abbrev pub owned_by_1 : ℕ → ℤ → Bool → View
owned_by_1 n c q = record { owner = some 1; biased = n; count = c; merged = false; queued = q }

-- One reference on the owner.
abbrev pub one : View
one = owned_by_1 1 (pos 0) false

pub one-IsView : IsView one
one-IsView = ground arith

pub one-Fits : Fits one
one-Fits = record { count = omega arith; owner = owner_id; biased = omega arith }

-- Two references on the owner, of which another thread has dropped one.
abbrev pub waiting : View
waiting = owned_by_1 2 (negsuc 0) true

pub waiting-IsView : IsView waiting
waiting-IsView = ground arith

pub waiting-Fits : Fits waiting
waiting-Fits = record { count = omega arith; owner = owner_id; biased = omega arith }
