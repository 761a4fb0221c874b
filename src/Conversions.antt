-- ===== src/Conversions.antt =====
-- src/strong/conversions.rs, src/strong.rs: slices from iterators, vectors and other slices.
pub mod Iterators
pub mod Exact
pub mod Allocated
use biasedrc_rs.Common.{
  ℕ, ◌*◌, Bool, true, false, Option, none, some, List, [], ◌∷◌, map, length, option_eq,
  if◌then◌else◌, Result, ok, err,
}
use biasedrc_rs.Exec.{Exec, done, fault, Fault, ◌>>=◌}
use biasedrc_rs.Header.{Build}
use biasedrc_rs.Layout.{Layout, LayoutInfo, array}
use biasedrc_rs.Threads.SegQueue.{SegQueue}
use biasedrc_rs.Threads.Memory.{QueuedObject}
use biasedrc_rs.Threads.Boxcar.{Boxcar}
use biasedrc_rs.Threads.Registry.{Entry}
use biasedrc_rs.Brc.Object.{Ending, returned, unwound}
use biasedrc_rs.Brc.World.{World}
use biasedrc_rs.Brc.Alloc.{alloc_with_in}
use biasedrc_rs.Conversions.Iterators.{
  Event, item, panics, Filled, full, unwound_after, AssertExactIter, next_of_source, next_exact,
  do_init,
}

-- `Layout::for_value` of a slice.
abbrev pub slice_layout {ℓ} : {T : Type ℓ} → Layout → List T → Layout
slice_layout element xs = record { size = element.size * length xs; align = element.align }

-- A call that makes a slice: its pointer and the memory, and the elements that are dropped and leaked
-- when it unwinds.
pub record Made {ℓ} (queue : SegQueue QueuedObject) (vec : Boxcar Entry) (T : Type ℓ) : Type ℓ where
  pub outcome : Option (Ending ℕ × World queue vec (List T))
  pub dropped : List T
  pub leaked : List T

abbrev pub ending_of_filled {ℓ} : {T : Type ℓ} → Filled T → Ending (List T)
ending_of_filled (full xs) = returned xs
ending_of_filled (unwound_after dropped leaked) = unwound

abbrev pub dropped_by {ℓ} : {T : Type ℓ} → Filled T → List T
dropped_by (full xs) = []
dropped_by (unwound_after dropped leaked) = dropped

abbrev pub leaked_by {ℓ} : {T : Type ℓ} → Filled T → List T
leaked_by (full xs) = []
leaked_by (unwound_after dropped leaked) = leaked

module _ {ℓ} {queue : SegQueue QueuedObject} {vec : Boxcar Entry} {T : Type ℓ} (build : Build)
    (header element : Layout) (needs_drop : Bool) (info_at : QueuedObject → LayoutInfo) (fuel : ℕ)
    (no_implicit_collect disabled panicking : Bool)
    (arrivals : List (QueuedObject × List QueuedObject)) (allocated : Option ℕ)
    (w : World queue vec (List T)) where
  -- `alloc_with_in` in this setting.
  unfoldable pub alloc_slice :
      Bool → Layout → Ending (List T) → Exec (Option (Ending ℕ × World queue vec (List T)))
  unfolding alloc_with_in
  alloc_slice may_unwind layout func =
      alloc_with_in build header needs_drop info_at fuel no_implicit_collect disabled panicking
        arrivals may_unwind layout func allocated w

  unfoldable pub copy_from_slice : List T → Exec (Option (Ending ℕ × World queue vec (List T)))
  unfolding alloc_slice
  copy_from_slice slice = alloc_slice false (slice_layout element slice) (returned slice)

  -- `impl_str_like!`, from the bytes of the string; the pointer keeps its address.
  unfoldable pub from_str_like : List T → Exec (Option (Ending ℕ × World queue vec (List T)))
  unfolding copy_from_slice
  from_str_like bytes = copy_from_slice bytes

  -- `from_vec_like!`: the elements are moved out of the source.
  unfoldable pub from_vec : List T → Exec (Option (Ending ℕ × World queue vec (List T)))
  unfolding alloc_slice
  from_vec src = alloc_slice false (slice_layout element src) (returned src)

  -- What the initialisation came to.
  unfoldable pub from_filled : Bool → Layout → Filled T → Exec (Made queue vec T)
  unfolding alloc_slice
  from_filled may_unwind layout filled =
      alloc_slice may_unwind layout (ending_of_filled filled) >>= λ outcome.
      done (record { outcome = outcome; dropped = dropped_by filled; leaked = leaked_by filled })

  -- `from_iter_exact_trusted_in` with the iterator `iter` of length `len`. The elements are made before
  -- the allocation instead of inside its callback; the `debug_assert_eq` on the layout, which the callers
  -- compute from the length, is left out.
  unfoldable pub from_iter_exact_trusted_in :
      {I : Type ℓ} → (I → Iterators.Next T × I) → Bool → Layout → ℕ → I → Exec (Made queue vec T)
  unfolding do_init from_filled
  from_iter_exact_trusted_in next may_unwind layout len iter =
      do_init next (if may_unwind then needs_drop else false) len iter
      >>= from_filled may_unwind layout

  -- `From<&[T]>`; `clone` may panic.
  unfoldable pub from_slice : (T → Event T) → List T → Exec (Made queue vec T)
  unfolding from_iter_exact_trusted_in next_of_source
  from_slice clone src =
      from_iter_exact_trusted_in next_of_source true (slice_layout element src) (length src)
        (map clone src)

  -- `from_iter`; `collected` is what collecting the iterator into a vector comes to.
  unfoldable pub from_iter :
      ℕ → Option ℕ → List (Event T) → (List (Event T) → Ending (List T)) → Exec (Made queue vec T)
  unfolding from_iter_exact_trusted_in next_exact from_vec
  from_iter lower upper iter collected =
      if option_eq (some lower) upper
      then elim (array element lower) [
        | err e ↦ fault Fault.panicked
        | ok layout ↦
            from_iter_exact_trusted_in next_exact true layout lower
              (record { inner = iter; len = lower })
      ]
      else elim (collected iter) [
        | unwound ↦ done (record { outcome = some (unwound, w); dropped = []; leaked = [] })
        | returned src ↦ from_vec src >>= λ outcome.
            done (record { outcome = outcome; dropped = []; leaked = [] })
      ]
