-- ===== src/Threads/Memory.antt =====
-- src/runtime.rs, `QueuedObject` and the merge of an object that lies in memory.
use biasedrc_rs.Common.{ℕ, List, [], ◌∷◌, ◌==◌, if◌then◌else◌, ◌++◌, ◌≡◌, refl, sym, ◌∙◌, arith}
use biasedrc_rs.Exec.{Exec, done, fault, ◌>>=◌}
use biasedrc_rs.Ids.{ShortThreadId}
use biasedrc_rs.Header.{Build, RawBrcHeader, Merged, explicit_merge}

-- An object is the address of its header; its drop function is what `deallocated` records.
abbrev pub QueuedObject : Type 0
QueuedObject = ℕ

-- The headers by address, and the objects whose destructor has been called, the last one first.
pub record Memory : Type 0 where
  pub header_at : ℕ → RawBrcHeader
  pub deallocated : List ℕ

abbrev pub store : ℕ → RawBrcHeader → (ℕ → RawBrcHeader) → ℕ → RawBrcHeader
store ptr h header_at other = if other == ptr then h else header_at other

abbrev pub after_merge_at : QueuedObject → Memory → Merged → Memory
after_merge_at object m r = record {
  header_at = store object r.header m.header_at;
  deallocated = if r.dealloc then object ∷ m.deallocated else m.deallocated;
}

module _ (build : Build) (short_id : ShortThreadId) where
  unfoldable pub merge_object : QueuedObject → Memory → Exec Memory
  merge_object object m = explicit_merge build short_id [] (m.header_at object) >>= λ r.
      done (after_merge_at object m r)

  -- The merges of a list of objects, one after the other.
  unfoldable pub merge_all : List QueuedObject → Memory → Exec Memory
  merge_all [] m = done m
  merge_all (object ∷ objects) m = merge_object object m >>= merge_all objects

  pub merge_all-append :
      (xs ys : List QueuedObject) (m : Memory)
      → merge_all (xs ++ ys) m ≡ (merge_all xs m >>= merge_all ys)
  unfolding merge_all
  merge_all-append [] ys m = refl
  merge_all-append (x ∷ xs) ys m = by_cases (merge_object x m) (merge_all-append xs ys)
    where
      by_cases :
          (r : Exec Memory)
          → ((m' : Memory) → merge_all (xs ++ ys) m' ≡ (merge_all xs m' >>= merge_all ys))
          → (r >>= merge_all (xs ++ ys)) ≡ (r >>= merge_all xs >>= merge_all ys)
      by_cases (done m') later = later m'
      by_cases (fault f) later = refl

  -- Where the merges of two lists return, those of the first list do.
  pub merge_all_split :
      (xs ys : List QueuedObject) (m : Memory) {last : Memory}
      → merge_all (xs ++ ys) m ≡ done last
      → (mid : Memory) × (merge_all xs m ≡ done mid) × (merge_all ys mid ≡ done last)
  merge_all_split xs ys m {last} e = by_cases (merge_all xs m) (sym (merge_all-append xs ys m) ∙ e)
    where
      by_cases :
          (r : Exec Memory)
          → (r >>= merge_all ys) ≡ done last
          → (mid : Memory) × (r ≡ done mid) × (merge_all ys mid ≡ done last)
      by_cases (done mid) h = (mid, refl, h)
      by_cases (fault f) h = absurd (ground (arith, h))
