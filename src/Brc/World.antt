-- ===== src/Brc/World.antt =====
-- What a call on a `Brc` sees beside the object: its thread, the queue of the thread, and the memory;
-- and the implicit collection, src/runtime.rs, with the destructions that it leads to.
use biasedrc_rs.Common.{
  arith, ◌≢◌, ℕ, ◌≡◌, refl, ap, Bool, true, false, not, ◌||◌, Option, none, some, List, [], ◌∷◌,
  ◌==◌, if◌then◌else◌,
}
use mathlib.Core.List.{reverse}
use biasedrc_rs.Exec.{Exec, done, ◌>>=◌}
use biasedrc_rs.Header.{Build, RawBrcHeader}
use biasedrc_rs.Layout.{LayoutInfo}
use biasedrc_rs.Threads.SegQueue.{SegQueue}
use biasedrc_rs.Threads.Memory.{QueuedObject, Memory}
use biasedrc_rs.Threads.Shared.{SharedThreadInfo}
use biasedrc_rs.Threads.Boxcar.{Boxcar}
use biasedrc_rs.Threads.Registry.{Entry}
use biasedrc_rs.Threads.Current.{Current}
use biasedrc_rs.Threads.Collect.{collect_implicit, collect_implicit_idle, currently_needs_collect}
use biasedrc_rs.Brc.Object.{Object, erased_dealloc}

-- The objects by the address of their header.
abbrev pub Heap {ℓ} : Type ℓ → Type ℓ
Heap V = ℕ → Object V

abbrev pub store_object {ℓ} : {V : Type ℓ} → ℕ → Object V → Heap V → Heap V
store_object base o heap other = if other == base then o else heap other

module _ {ℓ} {V : Type ℓ} where
  pub store_same : (base : ℕ) (o : Object V) (heap : Heap V) → store_object base o heap base ≡ o
  store_same base o heap = ground arith

  pub store_other :
      (base other : ℕ) (o : Object V) (heap : Heap V)
      → base ≢ other
      → store_object base o heap other ≡ heap other
  store_other base other o heap apart = ground (arith, apart)

module _ {ℓ} (queue : SegQueue QueuedObject) (vec : Boxcar Entry) (V : Type ℓ) where
  pub record World : Type ℓ where
    pub current : Current vec
    pub shared : SharedThreadInfo queue
    pub heap : Heap V

-- The words of the headers, as a collection sees them.
abbrev pub words {ℓ} : {V : Type ℓ} → Heap V → Memory
words heap = record { header_at = λ base. (heap base).header.strong; deallocated = [] }

abbrev pub with_words {ℓ} : {V : Type ℓ} → (ℕ → RawBrcHeader) → Heap V → Heap V
with_words header_at heap base = record (heap base) {
  header = record ((heap base).header) { strong = header_at base };
}

-- The destructions that the merges call for. Each only touches its own object, and they are put after
-- the merges; no destructor panics. `info_at` is the layout to which the drop information of a queued
-- object leads.
module _ {ℓ} {V : Type ℓ} (needs_drop : Bool) (info_at : QueuedObject → LayoutInfo) where
  unfoldable pub dealloc_all : List QueuedObject → Heap V → Exec (Heap V)
  dealloc_all [] heap = done heap
  dealloc_all (base ∷ bases) heap =
      erased_dealloc needs_drop (λ _. false) (info_at base) (heap base) >>= λ r.
      dealloc_all bases (store_object base r.1 heap)

module _ {ℓ} {queue : SegQueue QueuedObject} {vec : Boxcar Entry} {V : Type ℓ} where
  abbrev pub scene : World queue vec V → Current vec × SharedThreadInfo queue × Memory
  scene w = (w.current, w.shared, words w.heap)

  -- Nothing is to be collected.
  abbrev pub is_idle : Bool → Bool → World queue vec V → Bool
  is_idle no_implicit_collect disabled w =
      no_implicit_collect
      || (disabled || not (currently_needs_collect w.current.fast w.shared.state_flag))

  pub disabled-IsIdle :
      (cfg disabled : Bool) (w : World queue vec V)
      → disabled ≡ true
      → is_idle cfg disabled w ≡ true
  disabled-IsIdle cfg disabled w off = ground (arith, off)

  module _ (needs_drop : Bool) (info_at : QueuedObject → LayoutInfo) where
    abbrev pub after_collect :
        World queue vec V
        → Option (Current vec × SharedThreadInfo queue × Memory)
        → Exec (Option (World queue vec V))
    unfolding dealloc_all
    after_collect w none = done none
    after_collect w (some (current, shared, m)) =
        dealloc_all needs_drop info_at (reverse m.deallocated) (with_words m.header_at w.heap)
        >>= λ heap. done (some (record { current = current; shared = shared; heap = heap }))

    -- `no_implicit_collect` is the configuration of the operation; `none` is a loop that has not ended.
    module _ (build : Build) (fuel : ℕ) (no_implicit_collect disabled panicking : Bool)
        (arrivals : List (QueuedObject × List QueuedObject)) where
      unfoldable pub collect_world : World queue vec V → Exec (Option (World queue vec V))
      unfolding dealloc_all
      collect_world w =
          if no_implicit_collect
          then done (some w)
          else (collect_implicit queue vec build fuel disabled panicking arrivals (scene w)
              >>= after_collect w)

      pub collect_world_idle :
          (w : World queue vec V)
          → is_idle no_implicit_collect disabled w ≡ true
          → collect_world w ≡ done (some w)
      unfolding collect_world dealloc_all
      collect_world_idle w idle = by_cfg no_implicit_collect idle
        where
          by_cfg :
              (cfg : Bool)
              → is_idle cfg disabled w ≡ true
              → (if cfg
                  then done (some w)
                  else (collect_implicit queue vec build fuel disabled panicking arrivals (scene w)
                      >>= after_collect w))
                ≡ done (some w)
          by_cfg true e = refl
          by_cfg false e =
              ap
                (λ (c : Exec (Option (Current vec × SharedThreadInfo queue × Memory))).
                  c >>= after_collect w)
                (collect_implicit_idle queue vec build fuel disabled panicking arrivals (scene w) e)
