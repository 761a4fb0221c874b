-- ===== src/Ids.antt =====
-- src/runtime/threads.rs: `UniqueThreadId`, the number of a thread in order of registration, and
-- `ShortThreadId`, which fits beside the counter in a biased word.
use biasedrc_rs.Common.{
  ℕ, ◌+◌, ◌-◌, ◌≤◌, ◌<◌, ◌^◌, ◌≡◌, Option, none, some, ◌==◌, leb, ltb, if◌then◌else◌, arith,
}
use biasedrc_rs.Exec.{Exec, done, fault, panicked}

-- A `NonZeroUsize`.
abbrev pub UniqueThreadId : Type 0
UniqueThreadId = ℕ

abbrev pub min_unique_id : UniqueThreadId
min_unique_id = 1

-- The `expect` panics where the sum leaves `usize`.
unfoldable pub from_index : ℕ → Exec UniqueThreadId
from_index index =
    if ltb (min_unique_id + index) (2 ^ 64) then done (min_unique_id + index) else fault panicked

-- A `NonZeroU16` that fits in `u12`.
abbrev pub ShortThreadId : Type 0
ShortThreadId = ℕ

abbrev pub short_bits : ℕ
short_bits = 12

-- `u12::MAX`
abbrev pub short_max : ℕ
short_max = 2 ^ 12 - 1

abbrev pub IsShortThreadId : ShortThreadId → Type 0
IsShortThreadId t = (0 < t) × (t ≤ short_max)

unfoldable pub new : ℕ → Option ShortThreadId
new x = if x == 0 then none else some x

unfoldable pub value : ShortThreadId → ℕ
value t = t

unfoldable pub index : ShortThreadId → ℕ
index t = t - 1

-- `none` is `ThreadIdOverflowError`; the first test is the conversion to `NonZeroU16`.
unfoldable pub try_from : UniqueThreadId → Option ShortThreadId
try_from u = if leb u (2 ^ 16 - 1) then (if leb u short_max then some u else none) else none

-- The short id of the thread that is registered at `i`, if it has one, is in range and leads back to
-- `i`.
pub index-try_from :
    (i : ℕ) {u : UniqueThreadId} {t : ShortThreadId}
    → from_index i ≡ done u
    → try_from u ≡ some t
    → IsShortThreadId t × (index t ≡ i)
unfolding from_index try_from index
index-try_from i h k = ground arith

-- Each index below 2 ^ 64 - 1 has a unique id, and that has a short id exactly when the index is one
-- of the first 4095.
pub try_from-some_iff :
    (i : ℕ)
    → i < 2 ^ 64 - 1
    → (u : UniqueThreadId) × (from_index i ≡ done u)
      × (try_from u ≡ (if ltb i short_max then some (i + 1) else none))
unfolding from_index try_from
try_from-some_iff i h = (i + 1, ground arith, ground arith)
