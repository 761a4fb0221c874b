-- ===== src/Conversions/Allocated.antt =====
-- src/strong/conversions.rs: the slices that the conversions allocate.
use biasedrc_rs.Common.{ℕ, ◌+◌, ◌≡◌, Bool, true, some, List, [], map, length, pos, ok, arith}
use biasedrc_rs.Exec.{done}
use biasedrc_rs.Header.{Build}
use biasedrc_rs.Layout
use biasedrc_rs.Layout.{Layout, LayoutInfo, array, IsLayout}
use biasedrc_rs.View.{View, IsView, refs}
use biasedrc_rs.Threads.SegQueue.{SegQueue}
use biasedrc_rs.Threads.Memory.{QueuedObject}
use biasedrc_rs.Threads.Boxcar.{Boxcar}
use biasedrc_rs.Threads.Registry.{Entry}
use biasedrc_rs.Threads.Current.{Current}
use biasedrc_rs.Threads.Birth.{IsCurrent}
use biasedrc_rs.Brc.Object.{Ending, returned}
use biasedrc_rs.Brc.Destruction.{live_object}
use biasedrc_rs.Brc.World.{World, store_object, is_idle}
use biasedrc_rs.Brc.Alloc.{alloc_with_in-returned}
use biasedrc_rs.Conversions.{
  slice_layout, from_iter_exact_trusted_in, from_iter, from_filled, alloc_slice,
}
use biasedrc_rs.Conversions.Iterators.{Event, item}
use biasedrc_rs.Conversions.Exact.{do_init-exact}

module _ {ℓ} {queue : SegQueue QueuedObject} {vec : Boxcar Entry} {T : Type ℓ} (build : Build)
    (header element : Layout) (needs_drop : Bool) (info_at : QueuedObject → LayoutInfo) (fuel : ℕ)
    (no_implicit_collect disabled panicking : Bool)
    (arrivals : List (QueuedObject × List QueuedObject)) (base : ℕ)
    (w : World queue vec (List T)) where
  -- Where nothing is to be collected, the thread is in order, and the layout of the slice has room, the
  -- collection of an iterator that gives the items `xs`, and has their number as both bounds of its size
  -- hint, returns the address of a slice of these items, in their order. The object is in a valid state
  -- with one reference, a weak count of one, and the thread as its owner; no item is dropped or leaked,
  -- and every other object is untouched.
  pub from_iter-exact :
      (xs : List T) (collected : List (Event T) → Ending (List T)) {info : LayoutInfo}
      → is_idle no_implicit_collect disabled w ≡ true
      → IsCurrent vec w.current
      → array element (length xs) ≡ ok (slice_layout element xs)
      → Layout.new header (slice_layout element xs) ≡ ok info
      → (c : Current vec) × (v : View) × (from_iter build header element needs_drop info_at fuel
            no_implicit_collect disabled panicking arrivals
            (some base)
            w
            (length xs)
            (some (length xs))
            (map item xs)
            collected
          ≡ done (record {
            outcome = some (
              returned (base + info.value_offset),
              record w {
                current = c;
                heap = store_object base (live_object build.int info v 1 xs) w.heap;
              },
            );
            dropped = [];
            leaked = [];
          }))
        × IsCurrent vec c
        × IsView v
        × (refs v ≡ pos 1)
        × (v.owner ≡ c.fast.short_id)
  unfolding from_iter from_iter_exact_trusted_in from_filled alloc_slice
  from_iter-exact xs collected idle current fits laid_out =
      let (c, v, run, order, valid, one, owner) =
        alloc_with_in-returned build header needs_drop info_at fuel no_implicit_collect disabled
          panicking arrivals true (slice_layout element xs) xs base w idle current laid_out in
      (c, v, ground (arith, fits, do_init-exact needs_drop xs, run), order, valid, one, owner)
