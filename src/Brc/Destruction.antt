-- ===== src/Brc/Destruction.antt =====
-- src/strong.rs, src/layout.rs: what the drop of a strong reference leaves of the object.
use biasedrc_rs.Common.{
  ℕ, ◌-◌, ◌^◌, ◌<◌, ◌≡◌, refl, Bool, ◌&&◌, none, some, [], ◌==◌, if◌then◌else◌, arith, Bool-cases,
  inl, inr,
}
use biasedrc_rs.Exec.{done}
use biasedrc_rs.Words.ArbitraryInt.{ArbitraryInt}
use biasedrc_rs.Threads.Local.{LocalThreadStateFast, IsConsistent}
use biasedrc_rs.Layout.{LayoutInfo}
use biasedrc_rs.Pointee.{DropContext}
use biasedrc_rs.Header.{Build}
use biasedrc_rs.View.{View, encode, IsView, Effect, decremented}
use biasedrc_rs.View.Decrement.{decrement_strong-decremented}
use biasedrc_rs.View.Invariant.{
  IsView-Fits, HasReference, IsView-CanRelease, IsView-CanSubtract, HasReference-room,
}
use biasedrc_rs.Brc.{drop_weak}
use biasedrc_rs.Brc.Object.{
  Ending, returned, unwound, Object, Dropped, to_queue_of, deallocate, drop_weak_at, drop_in_place,
  erased_dealloc, drop_no_collect_in_place,
}

module _ {ℓ} {V : Type ℓ} where
  -- An object with a value, in an allocation of its own.
  abbrev pub live_object : ArbitraryInt → LayoutInfo → View → ℕ → V → Object V
  live_object int info v w x = record {
    header = record { strong = encode int v; weak_count = w };
    value = some x;
    memory = some info.full_layout;
  }

  -- What is left of it: the last weak reference takes the memory with it.
  abbrev pub destroyed_object : Bool → ArbitraryInt → LayoutInfo → View → ℕ → V → Object V
  destroyed_object needs_drop int info v w x = record {
    header = record { strong = encode int v; weak_count = w - 1 };
    value = if needs_drop then none else some x;
    memory = if w == 1 then none else some info.full_layout;
  }

  abbrev pub ending_of : Bool → (V → Bool) → V → Ending (Unit {0})
  ending_of needs_drop panics x = if needs_drop && panics x then unwound else returned tt

  -- The destruction of an object whose weak count is a positive number of 32 bits returns, whether its
  -- destructor panics or not: the value is dropped, if its type needs that, the weak count is one less,
  -- and the memory is released exactly when the count was one.
  pub erased_dealloc-destroyed :
      (needs_drop : Bool) (panics : V → Bool) (int : ArbitraryInt) (info : LayoutInfo) (v : View)
      (w : ℕ) (x : V)
      → 0 < w
      → w < 2 ^ 32
      → erased_dealloc needs_drop panics info (live_object int info v w x)
        ≡ done (ending_of needs_drop panics x, destroyed_object needs_drop int info v w x)
  unfolding erased_dealloc drop_in_place drop_weak_at drop_weak deallocate
  erased_dealloc-destroyed needs_drop panics int info v w x positive small = ground arith

  abbrev pub dropped_object :
      Bool → (V → Bool) → ArbitraryInt → LayoutInfo → DropContext → ℕ → V → Effect → Dropped V
  dropped_object needs_drop panics int info context w x e = record {
    object =
        if e.should_drop
        then destroyed_object needs_drop int info e.view w x
        else live_object int info e.view w x;
    ending = if e.should_drop then ending_of needs_drop panics x else returned tt;
    to_queue = to_queue_of context e.queue_to;
  }

  module _ (build : Build) (fast : LocalThreadStateFast) (needs_drop : Bool) (panics : V → Bool)
      (info : LayoutInfo) (context : DropContext) where
    open build use {int}

    -- A drop on an object in a valid state with a reference, whose weak
    -- count is a positive number of 32 bits, returns. The counters change as the specification says. The
    -- value is destroyed exactly when the specification says that it is, and the memory is released
    -- exactly when the weak count was one then; the queue entry for the owner is there exactly when the
    -- specification asks for one.
    pub drop_no_collect_in_place-dropped :
        IsConsistent fast
        → (v : View) (w : ℕ) (x : V) → IsView v
        → HasReference v
        → 0 < w
        → w < 2 ^ 32
        → drop_no_collect_in_place build fast needs_drop panics info context []
            (live_object int info v w x)
          ≡ done
              (dropped_object needs_drop panics int info context w x (decremented fast.short_id v))
    unfolding drop_no_collect_in_place
    drop_no_collect_in_place-dropped consistent v w x valid has positive small =
        let run =
          decrement_strong-decremented build fast consistent (IsView-Fits v valid)
            (IsView-CanRelease v valid has fast.short_id)
            (λ _. IsView-CanSubtract v valid has (HasReference-room v valid has)) in
        let e = decremented fast.short_id v in
        elim (Bool-cases e.should_drop) [
          | inl last ↦
              rw
                (
                  run,
                  last,
                  erased_dealloc-destroyed needs_drop panics int info e.view w x positive small,
                )
                refl
          | inr more ↦ rw (run, more) refl
        ]
