-- ===== src/Brc/Unsharing.antt =====
-- src/strong.rs: what `make_mut` does with a value that others share.
use biasedrc_rs.Common.{
  ℕ, ◌+◌, ◌^◌, ◌<◌, ◌≡◌, ◌≢◌, refl, sym, ap, ◌∙◌, Bool, true, false, ◌&&◌, Option, some, List, [],
  if◌then◌else◌, pos, ok,
}
use biasedrc_rs.Exec.{Exec, done, ◌>>=◌}
use biasedrc_rs.Layout
use biasedrc_rs.Layout.{LayoutInfo}
use biasedrc_rs.Layout.Divides.{Divides}
use biasedrc_rs.Layout.Placement.{IsPlaced}
use biasedrc_rs.Threads.SegQueue.{SegQueue}
use biasedrc_rs.Threads.Memory.{QueuedObject}
use biasedrc_rs.Threads.Boxcar.{Boxcar}
use biasedrc_rs.Threads.Registry.{Entry}
use biasedrc_rs.Threads.Current.{Current}
use biasedrc_rs.Threads.Local.{LocalThreadStateFast, IsConsistent}
use biasedrc_rs.Threads.Birth.{IsCurrent, IsCurrent-IsConsistent}
use biasedrc_rs.View.{View, IsView, refs, decremented}
use biasedrc_rs.View.Invariant.{HasReference}
use biasedrc_rs.Brc.Object.{Ending, Object, returned, unwound, QueuedDrop, value_of, get_mut}
use biasedrc_rs.Brc.Destruction.{live_object}
use biasedrc_rs.Brc.Sharing.{finds_unique, get_mut-live_object}
use biasedrc_rs.Brc.World.{store_same, store_other, disabled-IsIdle, Heap, World, store_object}
use biasedrc_rs.Brc.Alloc.{alloc_with_in, new_with_in, alloc_with_in-returned}
use biasedrc_rs.Brc.Weak.{at_pointer, at_pointer-placed, header_ptr_for, real_pointer}
use biasedrc_rs.Brc.Calls.{Setting, MadeMut, write_made, replace, make_mut}
use biasedrc_rs.Brc.Pointers.{drop-disabled, after_drop, drop_no_collect_of-dropped}

due_ending :
    (due raised : Bool) (end : Ending (Unit {0}))
    → raised ≡ false
    → (if due then if raised then unwound else end else end) ≡ end
due_ending true raised end e = rw e refl
due_ending false raised end e = refl

module _ {ℓ} {V : Type ℓ} (setting : Setting V) where
  open setting use {needs_drop, panics}

  ending_returned :
      (fast : LocalThreadStateFast) (v : View) (w : ℕ) (x : V)
      → needs_drop && panics x ≡ false
      → (after_drop setting fast v w x).ending ≡ returned tt
  ending_returned fast v w x calm =
      due_ending (decremented fast.short_id v).should_drop (needs_drop && panics x) (returned tt)
        calm

module _ {ℓ} {V : Type ℓ} (setting : Setting V) {queue : SegQueue QueuedObject} {vec : Boxcar Entry}
    (panicking : Bool) (arrivals : List (QueuedObject × List QueuedObject)) where
  open setting use {build, header, layout, info, context, needs_drop, panics, disabled}

  write_done :
      (change : V → V) (new : ℕ) (w : World queue vec V) (to_queue : Option QueuedDrop) (v : View)
      (x : V)
      → IsPlaced header layout info
      → Divides info.full_layout.align new
      → w.heap new ≡ live_object build.int info v 1 x
      → write_made setting panicking arrivals change
          (new + info.value_offset)
          (some ((returned tt, to_queue), w))
        ≡ done (
            some (record {
              this = new + info.value_offset;
              end = (returned tt, to_queue);
              world = record w {
                heap = store_object new (live_object build.int info v 1 (change x)) w.heap;
              };
            }))
  unfolding write_made
  write_done change new w to_queue v x placed aligned at =
      ap
        (λ (c : Exec (V × Heap V)). c >>= λ r. done (
          some (record {
            this = new + info.value_offset;
            end = (returned tt, to_queue);
            world = record w { heap = r.1 };
          })))
        (at_pointer-placed info header layout new w.heap
          (λ o. value_of o >>= λ y. done (y, record o { value = some (change y) })) placed aligned
          at refl)

  make_mut-steps :
      (change : V → V) (ptr : ℕ) (allocated : Option ℕ) (w : World queue vec V) {heap1 : Heap V}
      {x : V} {r : Ending ℕ × World queue vec V} {m : MadeMut queue vec V}
      → at_pointer info ptr w.heap (get_mut build w.current.fast change) ≡ done (false, heap1)
      → value_of (heap1 (header_ptr_for info ptr)) ≡ done x
      → new_with_in build header needs_drop setting.info_at setting.fuel setting.no_implicit_collect
          disabled panicking arrivals layout
          (setting.clone_value x)
          allocated
          (record w { heap = heap1 })
        ≡ done (some r)
      → replace setting panicking arrivals change [] ptr (some r) ≡ done (some m)
      → make_mut setting panicking arrivals change [] allocated ptr w ≡ done (some m)
  unfolding make_mut
  make_mut-steps change ptr allocated w found looked made last = rw (found, looked, made, last) refl

  module _ (change : V → V) (base new : ℕ) (w : World queue vec V) (v : View) (weak : ℕ) (x y : V)
      (off : disabled ≡ true) (placed : IsPlaced header layout info)
      (aligned : Divides info.full_layout.align base)
      (aligned_new : Divides info.full_layout.align new) (apart : base ≢ new) (valid : IsView v)
      (has : HasReference v) (positive : 0 < weak) (small : weak < 2 ^ 32)
      (calm : needs_drop && panics x ≡ false) where
    abbrev copied : Current vec → View → World queue vec V → World queue vec V
    copied c u w' = record w' {
      current = c;
      heap = store_object new (live_object build.int info u 1 y) w'.heap;
    }

    abbrev left : Current vec → Object V
    left c = (after_drop setting c.fast v weak x).object

    abbrev result : Current vec → View → World queue vec V → MadeMut queue vec V
    result c u w' = record {
      this = new + info.value_offset;
      end = (returned tt, (after_drop setting c.fast v weak x).to_queue);
      world = record (copied c u w') {
        heap =
            store_object new (live_object build.int info u 1 (change y))
              (store_object base (left c) (copied c u w').heap);
      };
    }

    -- The old reference is dropped, and the new value written.
    replaced :
        (c : Current vec) (u : View) (w' : World queue vec V)
        → IsConsistent c.fast
        → w'.heap base ≡ live_object build.int info v weak x
        → replace setting panicking arrivals change []
            (base + info.value_offset)
            (some (returned (new + info.value_offset), copied c u w'))
          ≡ done (some (result c u w'))
    unfolding replace
    replaced c u w' consistent at =
        let d = after_drop setting c.fast v weak x in
        let w2 = copied c u w' in
        let at2 =
          store_other new base (live_object build.int info u 1 y) w'.heap (λ e. apart (sym e))
          ∙ at in
        let w3 : World queue vec V = record w2 { heap = store_object base d.object w2.heap } in
        let at3 =
          store_other base new d.object w2.heap apart
          ∙ store_same new (live_object build.int info u 1 y) w'.heap in
        ap (λ r. r >>= write_made setting panicking arrivals change (new + info.value_offset))
          (drop-disabled setting panicking arrivals (base + info.value_offset) w2 off (
            drop_no_collect_of-dropped setting c.fast base w2.heap v weak x consistent placed
              aligned at2 valid has positive small))
        ∙ ap
            (λ e.
              write_made setting panicking arrivals change (new + info.value_offset)
                (some ((e, d.to_queue), w3)))
            (ending_returned setting c.fast v weak x calm)
        ∙ write_done change new w3 d.to_queue u y placed aligned_new at3

    found_shared :
        IsCurrent vec w.current
        → w.heap base ≡ live_object build.int info v weak x
        → finds_unique build w.current.fast v weak ≡ false
        → at_pointer info (base + info.value_offset) w.heap (get_mut build w.current.fast change)
          ≡ done (false, store_object base (live_object build.int info v weak x) w.heap)
    found_shared current at not_alone =
        at_pointer-placed info header layout base w.heap (get_mut build w.current.fast change)
          placed aligned at
          (get_mut-live_object build w.current.fast (IsCurrent-IsConsistent vec w.current current)
              info change v weak x valid
            ∙ ap (λ b. done (b, live_object build.int info v weak (if b then change x else x)))
                not_alone)

    looked_up :
        value_of (
          store_object base
            (live_object build.int info v weak x)
            w.heap
            (header_ptr_for info (base + info.value_offset)))
        ≡ done x
    looked_up =
        let heap1 = store_object base (live_object build.int info v weak x) w.heap in
        ap (λ b. value_of (heap1 b)) (real_pointer info header layout base placed aligned).1
        ∙ ap value_of (store_same base (live_object build.int info v weak x) w.heap)

    -- `make_mut` on a placed value that the thread does not find to be its own alone, whose object is in
    -- a valid state with a reference and has a weak count that is a positive number of 32 bits, returns,
    -- where the implicit collection is disabled, the thread is in order, the layout has room, the
    -- clone returns, and the destructor of the value does not panic. The reference then points to a new
    -- object at `new` with the changed clone and one reference; the old object has one reference less,
    -- as after a drop, and is destroyed only if it was the last.
    pub make_mut-shared :
        IsCurrent vec w.current
        → Layout.new header layout ≡ ok info
        → w.heap base ≡ live_object build.int info v weak x
        → finds_unique build w.current.fast v weak ≡ false
        → setting.clone_value x ≡ returned y
        → (m : MadeMut queue vec V) × (u : View) × (make_mut setting panicking arrivals change []
              (some new)
              (base + info.value_offset)
              w
            ≡ done (some m))
          × (m.this ≡ new + info.value_offset)
          × (m.world.heap new ≡ live_object build.int info u 1 (change y))
          × (m.world.heap base ≡ (after_drop setting m.world.current.fast v weak x).object)
          × IsView u
          × (refs u ≡ pos 1)
    unfolding new_with_in
    make_mut-shared current laid_out at not_alone cloned =
        let shared_object = live_object build.int info v weak x in
        let heap1 = store_object base shared_object w.heap in
        let w1 : World queue vec V = record w { heap = heap1 } in
        let (c, u, run, order, valid_new, one, _) =
          alloc_with_in-returned build header needs_drop setting.info_at setting.fuel
            setting.no_implicit_collect disabled panicking arrivals true layout y new w1
            (disabled-IsIdle setting.no_implicit_collect disabled w off) current laid_out in
        let consistent = IsCurrent-IsConsistent vec c order in
        let last = replaced c u w1 consistent (store_same base shared_object w.heap) in
        let m = result c u w1 in
        let dropped_heap = store_object base (left c) (copied c u w1).heap in
        (
          m,
          u,
          make_mut-steps change (base + info.value_offset) (some new) w
              (found_shared current at not_alone) looked_up
              (ap
                  (λ f.
                    alloc_with_in build header needs_drop setting.info_at setting.fuel
                      setting.no_implicit_collect disabled panicking arrivals true layout f
                      (some new) w1)
                  cloned
                ∙ run)
              last,
          refl,
          store_same new (live_object build.int info u 1 (change y)) dropped_heap,
          store_other new base (live_object build.int info u 1 (change y)) dropped_heap
                (λ e. apart (sym e))
              ∙ store_same base (left c) (copied c u w1).heap,
          valid_new,
          one,
        )
