-- ===== src/Brc/Cycle.antt =====
-- src/strong.rs: an object from its allocation to the drop of its only reference.
use biasedrc_rs.Common.{
  ℕ, ◌+◌, ◌≡◌, refl, ap, ◌∙◌, Bool, true, false, none, some, List, [], if◌then◌else◌, ok, arith,
}
use biasedrc_rs.Exec.{done}
use biasedrc_rs.Layout
use biasedrc_rs.Layout.{LayoutInfo}
use biasedrc_rs.Layout.Divides.{Divides}
use biasedrc_rs.Layout.Placement.{IsPlaced}
use biasedrc_rs.Threads.SegQueue.{SegQueue}
use biasedrc_rs.Threads.Memory.{QueuedObject}
use biasedrc_rs.Threads.Boxcar.{Boxcar}
use biasedrc_rs.Threads.Registry.{Entry}
use biasedrc_rs.Threads.Birth.{IsCurrent, IsCurrent-IsConsistent}
use biasedrc_rs.Counting.{fresh_view, fresh_view-decremented}
use biasedrc_rs.View.{View, Effect, decremented}
use biasedrc_rs.Brc.Object.{Object, returned}
use biasedrc_rs.Brc.Destruction.{live_object, dropped_object, ending_of}
use biasedrc_rs.Brc.World.{World, store_object, store_same, disabled-IsIdle}
use biasedrc_rs.Brc.Alloc.{new_in, alloc_with_in-fresh_view}
use biasedrc_rs.Brc.Calls.{Setting, DropEnd, drop}
use biasedrc_rs.Brc.Pointers.{after_drop, drop_no_collect_of-dropped, drop-disabled}

module _ {ℓ} {V : Type ℓ} (setting : Setting V) where
  open setting use {build, info, context, needs_drop, panics}

  gone_of :
      (v : View) (e : Effect) (x : V)
      → e.should_drop ≡ true
      → e.queue_to ≡ none
      → (let d = dropped_object needs_drop panics build.int info context 1 x e in
          (d.object.memory ≡ none)
          × (d.object.value ≡ (if needs_drop then none else some x))
          × (d.ending ≡ ending_of needs_drop panics x)
          × (d.to_queue ≡ none))
  gone_of v e x last quiet = (rw last refl, rw last refl, rw last refl, rw quiet refl)

module _ {ℓ} {V : Type ℓ} (setting : Setting V) {queue : SegQueue QueuedObject} {vec : Boxcar Entry}
    (panicking : Bool) (arrivals : List (QueuedObject × List QueuedObject)) where
  open setting use {build, header, layout, info, context, needs_drop, panics, disabled}

  -- A value that `new_in` puts at an aligned address, and whose only reference is dropped by the same
  -- thread right away, leaves nothing behind, where the implicit collection is disabled, the thread is
  -- in order, and the layout has room: both calls return, the value is dropped if its type needs that,
  -- the memory is released, nothing is queued, and the drop unwinds exactly when the destructor panics.
  pub drop-new_in :
      (x : V) (base : ℕ) (w : World queue vec V)
      → disabled ≡ true
      → IsCurrent vec w.current
      → IsPlaced header layout info
      → Layout.new header layout ≡ ok info
      → Divides info.full_layout.align base
      → (w1 : World queue vec V) × (w2 : World queue vec V) × (end : DropEnd) × (new_in build header
            needs_drop setting.info_at setting.fuel setting.no_implicit_collect disabled panicking
            arrivals layout x
            (some base)
            w
          ≡ done (some (returned (base + info.value_offset), w1)))
        × (drop setting panicking arrivals [] (base + info.value_offset) w1 ≡ done (some (end, w2)))
        × ((w2.heap base).memory ≡ none)
        × ((w2.heap base).value ≡ (if needs_drop then none else some x))
        × (end.0 ≡ ending_of needs_drop panics x)
        × (end.1 ≡ none)
  unfolding new_in
  drop-new_in x base w off current placed laid_out aligned =
      let (c, run, order, owner) =
        alloc_with_in-fresh_view build header needs_drop setting.info_at setting.fuel
          setting.no_implicit_collect disabled panicking arrivals false layout x base w
          (disabled-IsIdle setting.no_implicit_collect disabled w off) current laid_out in
      let v = fresh_view c.fast.short_id in
      let (valid, has, last, quiet) = fresh_view-decremented c.fast.short_id owner in
      let fresh = live_object build.int info v 1 x in
      let w1 : World queue vec V = record w {
        current = c;
        heap = store_object base fresh w.heap;
      } in
      let d = after_drop setting c.fast v 1 x in
      let (released, dropped, ending, unqueued) =
        gone_of setting v (decremented c.fast.short_id v) x last quiet in
      let stored = store_same base d.object w1.heap in
      (
        w1,
        record w1 { heap = store_object base d.object w1.heap },
        (d.ending, d.to_queue),
        run,
        drop-disabled setting panicking arrivals (base + info.value_offset) w1 off (
            drop_no_collect_of-dropped setting c.fast base w1.heap v 1 x
              (IsCurrent-IsConsistent vec c order) placed aligned (store_same base fresh w.heap)
              valid has (omega arith) (omega arith)),
        ap (λ (o : Object V). o.memory) stored ∙ released,
        ap (λ (o : Object V). o.value) stored ∙ dropped,
        ending,
        unqueued,
      )
