-- ===== src/Brc/Alloc.antt =====
-- src/strong.rs: the allocation of an object.
use biasedrc_rs.Common.{
  ℕ, ◌+◌, ◌≡◌, refl, Bool, true, false, Option, none, some, List, if◌then◌else◌, pos, ok, arith,
}
use biasedrc_rs.Exec.{Exec, done, fault, Fault, ◌>>=◌}
use biasedrc_rs.Header.{Build, RawBrcHeader}
use biasedrc_rs.Layout
use biasedrc_rs.Layout.{Layout, LayoutInfo, new_or_panic, new_or_panic-new}
use biasedrc_rs.View.{View, encode, IsView, refs}
use biasedrc_rs.Threads.SegQueue.{SegQueue}
use biasedrc_rs.Threads.Memory.{QueuedObject}
use biasedrc_rs.Threads.Boxcar.{Boxcar}
use biasedrc_rs.Threads.Registry.{Entry}
use biasedrc_rs.Threads.Current.{Current, init}
use biasedrc_rs.Counting.{fresh_view}
use biasedrc_rs.Words.Biased.{IsOwner}
use biasedrc_rs.Threads.Birth.{init-fresh_view, IsCurrent, init-IsCurrent}
use biasedrc_rs.Brc.Object.{Ending, returned, unwound, Object, deallocate}
use biasedrc_rs.Brc.Destruction.{live_object}
use biasedrc_rs.Brc.World.{World, store_object, collect_world, is_idle, collect_world_idle}

module _ {ℓ} {V : Type ℓ} where
  -- A new object before its value is written.
  abbrev pub blank : LayoutInfo → RawBrcHeader → Object V
  blank info strong = record {
    header = record { strong = strong; weak_count = 1 };
    value = none;
    memory = some info.full_layout;
  }

  -- The callback, which writes the value or panics, and the guard that releases the memory.
  unfoldable pub initialize : Bool → LayoutInfo → Ending V → Object V → Exec (Object V)
  unfolding deallocate
  initialize may_unwind info (returned x) o = done (record o { value = some x })
  initialize may_unwind info unwound o =
      if may_unwind then deallocate info.full_layout o else done o

  unwound_blank :
      (may_unwind : Bool) (info : LayoutInfo) (strong : RawBrcHeader)
      → (o : Object V) × (initialize may_unwind info unwound (blank info strong) ≡ done o)
        × (o.value ≡ none)
        × (o.memory ≡ (if may_unwind then none else some info.full_layout))
  unfolding initialize deallocate
  unwound_blank true info strong =
      (record (blank info strong) { memory = none }, ground arith, refl, refl)
  unwound_blank false info strong = (blank info strong, refl, refl, refl)

abbrev pub ending_at {ℓ} : {V : Type ℓ} → ℕ → Ending V → Ending ℕ
ending_at ptr (returned x) = returned ptr
ending_at ptr unwound = unwound

module _ {ℓ} {queue : SegQueue QueuedObject} {vec : Boxcar Entry} {V : Type ℓ} (build : Build)
    (header : Layout) where
  -- The call after the collection. `allocated` is what the allocator returns.
  unfoldable pub alloc_initialized :
      Bool → Layout → Ending V → Option ℕ → World queue vec V → Exec (Ending ℕ × World queue vec V)
  unfolding new_or_panic initialize
  alloc_initialized may_unwind layout func allocated w = do
    info ← new_or_panic header layout
    elim allocated [
      | none ↦ fault Fault.alloc_error
      | some base ↦ do
        (current, strong) ← init vec build.int w.current
        o ← initialize may_unwind info func (blank info strong)
        done (
          ending_at (base + info.value_offset) func,
          record w { current = current; heap = store_object base o w.heap },
        )
    ]

  initialized_run :
      (may_unwind : Bool) (layout : Layout) (func : Ending V) (base : ℕ) (w : World queue vec V)
      {info : LayoutInfo} {current : Current vec} {strong : RawBrcHeader} {o : Object V}
      → Layout.new header layout ≡ ok info
      → init vec build.int w.current ≡ done (current, strong)
      → initialize may_unwind info func (blank info strong) ≡ done o
      → alloc_initialized may_unwind layout func (some base) w
        ≡ done (
          ending_at (base + info.value_offset) func,
          record w { current = current; heap = store_object base o w.heap },
        )
  unfolding alloc_initialized
  initialized_run may_unwind layout func base w laid_out start written =
      rw (new_or_panic-new header layout laid_out, alloc_initialized, start, written) refl

  module _ (needs_drop : Bool) (info_at : QueuedObject → LayoutInfo) (fuel : ℕ)
      (no_implicit_collect disabled panicking : Bool)
      (arrivals : List (QueuedObject × List QueuedObject)) where
    unfoldable pub alloc_with_in :
        Bool
        → Layout
        → Ending V
        → Option ℕ
        → World queue vec V
        → Exec (Option (Ending ℕ × World queue vec V))
    unfolding alloc_initialized
    alloc_with_in may_unwind layout func allocated w =
        collect_world needs_drop info_at build fuel no_implicit_collect disabled panicking arrivals
          w
        >>= elim [
          | none ↦ done none
          | some w' ↦ alloc_initialized may_unwind layout func allocated w' >>= λ r. done (some r)
        ]

    -- `new_in`, with the layout of the type.
    unfoldable pub new_in :
        Layout → V → Option ℕ → World queue vec V → Exec (Option (Ending ℕ × World queue vec V))
    unfolding alloc_with_in
    new_in layout x = alloc_with_in false layout (returned x)

    -- `From<Box<T>>`, with the layout of the value, which is copied.
    unfoldable pub from_box :
        Layout → V → Option ℕ → World queue vec V → Exec (Option (Ending ℕ × World queue vec V))
    unfolding alloc_with_in
    from_box layout value = alloc_with_in false layout (returned value)

    -- `new_with_in`; the closure returns a value or panics.
    unfoldable pub new_with_in :
        Layout
        → Ending V
        → Option ℕ
        → World queue vec V
        → Exec (Option (Ending ℕ × World queue vec V))
    unfolding alloc_with_in
    new_with_in layout func = alloc_with_in true layout func

    alloc_run :
        (may_unwind : Bool) (layout : Layout) (func : Ending V) (base : ℕ) (w : World queue vec V)
        {info : LayoutInfo} {current : Current vec} {strong : RawBrcHeader} {o : Object V}
        → is_idle no_implicit_collect disabled w ≡ true
        → Layout.new header layout ≡ ok info
        → init vec build.int w.current ≡ done (current, strong)
        → initialize may_unwind info func (blank info strong) ≡ done o
        → alloc_with_in may_unwind layout func (some base) w
          ≡ done (
              some (
                ending_at (base + info.value_offset) func,
                record w { current = current; heap = store_object base o w.heap },
              ))
    unfolding alloc_with_in
    alloc_run may_unwind layout func base w idle laid_out start written =
        rw
          (
            collect_world_idle needs_drop info_at build fuel no_implicit_collect disabled panicking
                arrivals w idle,
            initialized_run may_unwind layout func base w laid_out start written,
          )
          refl

    -- Where nothing is to be collected, the thread is in order, and the layout has room, an allocation
    -- in the memory at `base` whose callback returns a value returns the address of the value. The thread
    -- is in order again; at `base` is an object with the value, in a valid state with one reference, the
    -- short id of the thread as its owner, and a weak count of one; every other object is untouched.
    pub alloc_with_in-returned :
        (may_unwind : Bool) (layout : Layout) (x : V) (base : ℕ) (w : World queue vec V)
        {info : LayoutInfo}
        → is_idle no_implicit_collect disabled w ≡ true
        → IsCurrent vec w.current
        → Layout.new header layout ≡ ok info
        → (c : Current vec) × (v : View) × (alloc_with_in may_unwind layout
              (returned x)
              (some base)
              w
            ≡ done (
                some (
                  returned (base + info.value_offset),
                  record w {
                    current = c;
                    heap = store_object base (live_object build.int info v 1 x) w.heap;
                  },
                )))
          × IsCurrent vec c
          × IsView v
          × (refs v ≡ pos 1)
          × (v.owner ≡ c.fast.short_id)
    unfolding initialize
    alloc_with_in-returned may_unwind layout x base w idle current laid_out =
        let (c, v, start, order, valid, one, owner) =
          init-IsCurrent vec build.int w.current current in
        (
          c,
          v,
          alloc_run may_unwind layout (returned x) base w idle laid_out start refl,
          order,
          valid,
          one,
          owner,
        )

    -- Where nothing is to be collected, the thread is in order, and the layout has room, an allocation
    -- in the memory at `base` whose callback panics unwinds. The thread is in order again; the memory at
    -- `base` is released if the caller said that the callback may unwind, and otherwise stays allocated,
    -- without a value; every other object is untouched.
    pub alloc_with_in-unwound :
        (may_unwind : Bool) (layout : Layout) (base : ℕ) (w : World queue vec V) {info : LayoutInfo}
        → is_idle no_implicit_collect disabled w ≡ true
        → IsCurrent vec w.current
        → Layout.new header layout ≡ ok info
        → (c : Current vec) × (o : Object V) × (alloc_with_in may_unwind layout unwound
              (some base)
              w
            ≡ done (some (unwound, record w { current = c; heap = store_object base o w.heap })))
          × IsCurrent vec c
          × (o.value ≡ none)
          × (o.memory ≡ (if may_unwind then none else some info.full_layout))
    alloc_with_in-unwound may_unwind layout base w {info} idle current laid_out =
        let (c, v, start, order, _, _, _) = init-IsCurrent vec build.int w.current current in
        let (o, written, empty, memory) = unwound_blank may_unwind info (encode build.int v) in
        (
          c,
          o,
          alloc_run may_unwind layout unwound base w idle laid_out start written,
          order,
          empty,
          memory,
        )

    -- The counts that a new object starts with.
    pub alloc_with_in-fresh_view :
        (may_unwind : Bool) (layout : Layout) (x : V) (base : ℕ) (w : World queue vec V)
        {info : LayoutInfo}
        → is_idle no_implicit_collect disabled w ≡ true
        → IsCurrent vec w.current
        → Layout.new header layout ≡ ok info
        → (c : Current vec) × (alloc_with_in may_unwind layout (returned x) (some base) w
            ≡ done (
                some (
                  returned (base + info.value_offset),
                  record w {
                    current = c;
                    heap =
                        store_object base
                          (live_object build.int info (fresh_view c.fast.short_id) 1 x)
                          w.heap;
                  },
                )))
          × IsCurrent vec c
          × IsOwner c.fast.short_id
    unfolding initialize
    alloc_with_in-fresh_view may_unwind layout x base w idle current laid_out =
        let (c, start, order, owner) = init-fresh_view vec build.int w.current current in
        (c, alloc_run may_unwind layout (returned x) base w idle laid_out start refl, order, owner)
