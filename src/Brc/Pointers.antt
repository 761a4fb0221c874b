-- ===== src/Brc/Pointers.antt =====
-- src/strong.rs: what the calls through a strong reference do to the memory.
use biasedrc_rs.Common.{refl, Bool, List, true, some, ℕ, ◌+◌, ◌^◌, ◌<◌, ◌≡◌, ap, []}
use biasedrc_rs.Exec.{Exec, done, ◌>>=◌}
use biasedrc_rs.Layout.Divides.{Divides}
use biasedrc_rs.Layout.Placement.{IsPlaced}
use biasedrc_rs.Threads.Local.{LocalThreadStateFast, IsConsistent}
use biasedrc_rs.View.{View, IsView, decremented}
use biasedrc_rs.View.Invariant.{HasReference}
use biasedrc_rs.Brc.Object.{Dropped, drop_no_collect_in_place}
use biasedrc_rs.Brc.Destruction.{live_object, dropped_object, drop_no_collect_in_place-dropped}
use biasedrc_rs.Brc.World.{World, collect_world_idle, disabled-IsIdle, Heap, store_object}
use biasedrc_rs.Brc.Weak.{at_pointer-placed}
use biasedrc_rs.Threads.SegQueue.{SegQueue}
use biasedrc_rs.Threads.Memory.{QueuedObject}
use biasedrc_rs.Threads.Boxcar.{Boxcar}
use biasedrc_rs.Threads.Registry.{Entry}
use biasedrc_rs.Brc.Calls.{DropEnd, collecting, drop, Setting, drop_no_collect_of}

module _ {ℓ} {V : Type ℓ} (setting : Setting V) where
  open setting use {build, header, layout, info, context, needs_drop, panics}

  -- What a drop leaves of an object.
  abbrev pub after_drop : LocalThreadStateFast → View → ℕ → V → Dropped V
  after_drop fast v w x =
      dropped_object needs_drop panics build.int info context w x (decremented fast.short_id v)

  -- A drop through the address of a placed value, whose object is in a valid state with a reference and
  -- has a weak count that is a positive number of 32 bits, returns, and the counters change as their
  -- specification says. Exactly when that says that the object is to be destroyed, its value is dropped,
  -- if its type needs that, the weak count is one less, and the memory is released if it was one. Every
  -- other object is untouched.
  pub drop_no_collect_of-dropped :
      (fast : LocalThreadStateFast) (base : ℕ) (heap : Heap V) (v : View) (w : ℕ) (x : V)
      → IsConsistent fast
      → IsPlaced header layout info
      → Divides info.full_layout.align base
      → heap base ≡ live_object build.int info v w x
      → IsView v
      → HasReference v
      → 0 < w
      → w < 2 ^ 32
      → drop_no_collect_of setting fast [] (base + info.value_offset) heap ≡ (
          let d = after_drop fast v w x in
          done ((d.ending, d.to_queue), store_object base d.object heap))
  unfolding drop_no_collect_of
  drop_no_collect_of-dropped fast base heap v w x consistent placed aligned at valid has positive
        small =
      at_pointer-placed info header layout base heap
        (λ o. drop_no_collect_in_place build fast needs_drop panics info context [] o >>= λ d.
          done ((d.ending, d.to_queue), d.object))
        placed aligned at
        (ap (λ (c : Exec (Dropped V)). c >>= λ d. done ((d.ending, d.to_queue), d.object))
          (drop_no_collect_in_place-dropped build fast needs_drop panics info context consistent v w
            x valid has positive small))

  module _ {queue : SegQueue QueuedObject} {vec : Boxcar Entry} (panicking : Bool)
      (arrivals : List (QueuedObject × List QueuedObject)) where
    -- With the implicit collection disabled, a drop is one without a collection.
    pub drop-disabled :
        (ptr : ℕ) (w : World queue vec V) {end : DropEnd} {heap : Heap V}
        → setting.disabled ≡ true
        → drop_no_collect_of setting w.current.fast [] ptr w.heap ≡ done (end, heap)
        → drop setting panicking arrivals [] ptr w ≡ done (some (end, record w { heap = heap }))
    unfolding drop collecting
    drop-disabled ptr w off run =
        let cfg = setting.no_implicit_collect_drop in
        let idle =
          collect_world_idle needs_drop setting.info_at build setting.fuel cfg setting.disabled
            panicking arrivals w (disabled-IsIdle cfg setting.disabled w off) in
        rw (idle, run) refl
