-- ===== src/Counting.antt =====
-- src/runtime.rs, `RawBrcHeader`: what each operation does to the number of references, on every
-- header that the operations themselves can produce.
use biasedrc_rs.Common.{
  ℕ, ◌≡◌, ◌≢◌, ◌↔◌, if◌then◌else◌, refl, true, false, not, ◌&&◌, Option, none, some, [], pos, ◌+ℤ◌,
  ◌-ℤ◌, is_zero, arith,
}
use biasedrc_rs.Exec.{done}
use biasedrc_rs.Threads.Local.{LocalThreadStateFast, IsConsistent}
use biasedrc_rs.Words.ArbitraryInt.{IsI62, ArbitraryInt}
use biasedrc_rs.Header.{
  Build, RawBrcHeader, increment_strong, decrement_strong, explicit_merge, init_header,
  increment_strong_unless_zero,
}
use biasedrc_rs.View.{View, Effect, refs, incremented, decremented, merged_view, IsView, encode}
use biasedrc_rs.View.Increment.{takes_biased, CanAdd, CanAdd-room, increment_strong-incremented}
use biasedrc_rs.View.Decrement.{encode_effect, decrement_strong-decremented}
use biasedrc_rs.View.Upgrade.{
  upgraded, encode_option, increment_strong_unless_zero-upgraded, upgraded-none_iff,
}
use biasedrc_rs.View.Merge.{explicit_merge-merged_view}
use biasedrc_rs.View.Invariant
use biasedrc_rs.Words.Biased

abbrev pub fresh_view : Option ℕ → View
fresh_view none = record { owner = none; biased = 0; count = pos 1; merged = true; queued = false }
fresh_view (some t) = record {
  owner = some t;
  biased = 1;
  count = pos 0;
  merged = false;
  queued = false;
}

-- A new header is in a valid state, stands for one reference, and has the short id of the thread as
-- its owner, if it has one.
pub init_header-counts :
    (int : ArbitraryInt) (this : Option ℕ)
    → Biased.IsOwner this
    → (v : View) × (init_header int this ≡ encode int v)
      × IsView v
      × (refs v ≡ pos 1)
      × (v.owner ≡ this)
unfolding init_header
init_header-counts int none h = (fresh_view none, refl, ground arith, refl, refl)
init_header-counts int (some t) h = (fresh_view (some t), refl, ground arith, refl, refl)

pub init_header-fresh_view :
    (int : ArbitraryInt) (this : Option ℕ) → init_header int this ≡ encode int (fresh_view this)
unfolding init_header
init_header-fresh_view int none = refl
init_header-fresh_view int (some t) = refl

-- The drop of the first reference by its thread destroys the object, and queues nothing.
pub fresh_view-decremented :
    (this : Option ℕ)
    → Biased.IsOwner this
    → IsView (fresh_view this)
      × Invariant.HasReference (fresh_view this)
      × ((decremented this (fresh_view this)).should_drop ≡ true)
      × ((decremented this (fresh_view this)).queue_to ≡ none)
unfolding decremented
fresh_view-decremented none h = (ground arith, refl, refl, refl)
fresh_view-decremented (some t) h = (ground arith, refl, ground arith, ground arith)

module _ (build : Build) (fast : LocalThreadStateFast) (consistent : IsConsistent fast) (v : View)
    (h : IsView v) where
  open build use {int}

  -- On a header in a valid state, a clone returns, where the shared counter has room and is not -1 if
  -- it is the one to grow: the state is valid again, with one reference more.
  pub increment_strong-counts :
      (takes_biased fast.short_id v ≡ false → CanAdd v.count)
      → (u : View) × (increment_strong build fast (encode int v) ≡ done (encode int u))
        × IsView u
        × (refs u ≡ refs v +ℤ pos 1)
  increment_strong-counts add = (
    incremented fast.short_id v,
    increment_strong-incremented build fast consistent (Invariant.IsView-Fits v h)
        (λ owned. Invariant.owned-positive fast.short_id v h (ground arith)) add,
    Invariant.incremented-IsView fast.short_id v h
        (λ foreign. CanAdd-room v.count h.0 (add foreign)),
    Invariant.refs-incremented fast.short_id v,
  )

  -- On a header in a valid state with a reference, a drop returns: the state is valid again, with one
  -- reference less, and the destructor is due exactly when a merged object has lost its last one. The
  -- drop hands the object to its owner exactly when it sets the queued flag, which it never clears; an
  -- unmerged object has an owner to be handed to, and the flag is set when it is left without references.
  pub decrement_strong-counts :
      Invariant.HasReference v
      → (e : Effect) × (decrement_strong build fast [] (encode int v) ≡ done (encode_effect int e))
        × IsView e.view
        × (refs e.view ≡ refs v -ℤ pos 1)
        × ((e.should_drop ≡ true) ↔ ((refs e.view ≡ pos 0) × (e.view.merged ≡ true)))
        × (e.queue_to ≡ (if not v.queued && e.view.queued then v.owner else none))
        × ((v.queued && not e.view.queued) ≡ false)
        × (v.merged ≡ false → v.owner ≢ none)
        × ((is_zero (refs e.view) && not e.view.merged && not e.view.queued) ≡ false)
  decrement_strong-counts has =
      let this = fast.short_id in
      let room = Invariant.HasReference-room v h has in
      (
        decremented this v,
        decrement_strong-decremented build fast consistent (Invariant.IsView-Fits v h)
            (Invariant.IsView-CanRelease v h has this)
            (λ _. Invariant.IsView-CanSubtract v h has room),
        Invariant.decremented-IsView this v h has room,
        Invariant.refs-decremented this v (Invariant.owned-positive this v h),
        Invariant.decremented-should_drop this v h has,
        Invariant.decremented-queue_to this v h has,
        Invariant.decremented-queued this v,
        Invariant.unmerged-owned v h,
        Invariant.decremented-waits this v h has,
      )

module _ (build : Build) (v : View) (h : IsView v) (tid : ℕ) where
  open build use {int}

  -- A merge by the owner of a header in a valid state returns, where the sum of the counters has room
  -- in the shared one: the state is valid again, merged, with the same number of references, and the
  -- destructor is due exactly when that is zero.
  pub explicit_merge-counts :
      v.owner ≡ some tid
      → IsI62 (refs v)
      → (u : View) × (explicit_merge build tid [] (encode int v)
          ≡ done (record { header = encode int u; dealloc = is_zero (refs v) }))
        × IsView u
        × (u.merged ≡ true)
        × (refs u ≡ refs v)
  unfolding merged_view
  explicit_merge-counts own room =
      let unmerged = Invariant.owned-unmerged tid v h own in
      (
        merged_view v,
        explicit_merge-merged_view build (Invariant.IsView-Fits v h) tid own unmerged room
            (Invariant.refs-nonneg v h),
        Invariant.merged_view-IsView v h unmerged room,
        Invariant.merged_view-merged v,
        Invariant.refs-merged_view v,
      )

module _ (build : Build) (fast : LocalThreadStateFast) (consistent : IsConsistent fast) (v : View)
    (h : IsView v) where
  open build use {int}

  encode_option-none : (o : Option View) → (encode_option int o ≡ none) ↔ (o ≡ none)
  encode_option-none none = (λ e. refl, λ e. refl)
  encode_option-none (some u) = (λ e. ground arith, λ e. ground arith)

  -- An upgrade of a header in a valid state, with room for one more reference, returns, and with
  -- nothing exactly when the object is merged and has no reference left.
  pub increment_strong_unless_zero-none_iff :
      IsI62 (v.count +ℤ pos 1)
      → (o : Option RawBrcHeader) × (increment_strong_unless_zero build fast [] (encode int v)
          ≡ done o)
        × ((o ≡ none) ↔ ((v.merged ≡ true) × (refs v ≡ pos 0)))
  increment_strong_unless_zero-none_iff room =
      let this = fast.short_id in
      let a = encode_option-none (upgraded this v) in
      let b = upgraded-none_iff this v h in
      (
        encode_option int (upgraded this v),
        increment_strong_unless_zero-upgraded build fast consistent (Invariant.IsView-Fits v h)
            (λ owned. Invariant.owned-positive this v h (ground arith))
            (Invariant.merged-nonneg v h) (λ _. room),
        (λ e. b.0 (a.0 e), λ e. a.1 (b.1 e)),
      )
