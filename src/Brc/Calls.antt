-- ===== src/Brc/Calls.antt =====
-- src/strong.rs: the calls on a strong reference, the address of a value, in a memory of objects of one
-- type with a size known in advance.
use biasedrc_rs.Common.{ℤ, ℕ, Bool, Option, none, some, List, ◌==◌, if◌then◌else◌, Result}
use biasedrc_rs.Exec.{Exec, done, ◌>>=◌}
use biasedrc_rs.Header.{Build, BiasedCountError, biased_count, shared_count}
use biasedrc_rs.Layout.{Layout, LayoutInfo}
use biasedrc_rs.Pointee.{DropContext}
use biasedrc_rs.Threads.SegQueue.{SegQueue}
use biasedrc_rs.Threads.Memory.{QueuedObject}
use biasedrc_rs.Threads.Boxcar.{Boxcar}
use biasedrc_rs.Threads.Registry.{Entry}
use biasedrc_rs.Threads.Local.{LocalThreadStateFast}
use biasedrc_rs.Brc.Object
use biasedrc_rs.Brc.Object.{
  Ending, returned, unwound, Object, Dropped, QueuedDrop, header_of, value_of, clone_no_collect,
  drop_no_collect_in_place, get_mut,
}
use biasedrc_rs.Brc.World.{Heap, World, collect_world}
use biasedrc_rs.Brc.Alloc.{new_with_in}
use biasedrc_rs.Brc.Weak.{at_pointer, header_ptr_for}

-- The type of the values, and the configuration. `info_at` is the layout to which the drop information
-- of a queued object leads.
pub record Setting {ℓ} (V : Type ℓ) : Type ℓ where
  pub build : Build
  pub header : Layout
  pub layout : Layout
  pub info : LayoutInfo
  pub context : DropContext
  pub needs_drop : Bool
  pub panics : V → Bool
  pub clone_value : V → Ending V
  pub info_at : QueuedObject → LayoutInfo
  pub fuel : ℕ
  pub no_implicit_collect : Bool
  pub no_implicit_collect_clone : Bool
  pub no_implicit_collect_drop : Bool
  pub disabled : Bool

-- How a drop ends, and the entry for the queue of the owner.
abbrev pub DropEnd : Type 0
DropEnd = Ending (Unit {0}) × Option QueuedDrop

abbrev drop_end {ℓ} : {V : Type ℓ} → Dropped V → DropEnd × Object V
drop_end d = ((d.ending, d.to_queue), d.object)

-- What `make_mut` leaves: the reference, how the call ends, and the entry for a queue.
pub record MadeMut {ℓ} (queue : SegQueue QueuedObject) (vec : Boxcar Entry) (V : Type ℓ)
    : Type ℓ where
  pub this : ℕ
  pub end : DropEnd
  pub world : World queue vec V

-- `Brc::ptr_eq`
unfoldable pub ptr_eq : ℕ → ℕ → Bool
ptr_eq this other = this == other

module _ {ℓ} {V : Type ℓ} (setting : Setting V) where
  open setting use {build, info, context, needs_drop, panics}

  module _ (fast : LocalThreadStateFast) where
    -- `Brc::clone_no_collect`: the new reference.
    unfoldable pub clone_no_collect_of : ℕ → Heap V → Exec (ℕ × Heap V)
    unfolding at_pointer clone_no_collect
    clone_no_collect_of this heap =
        at_pointer info this heap (λ o. clone_no_collect build fast o >>= λ o'. done (this, o'))

    -- `Brc::clone_shared`
    unfoldable pub clone_shared_of : ℕ → Heap V → Exec (ℕ × Heap V)
    unfolding at_pointer Object.clone_shared
    clone_shared_of this heap =
        at_pointer info this heap (λ o. Object.clone_shared build fast o >>= λ o'. done (this, o'))

    -- `Brc::drop_no_collect`
    unfoldable pub drop_no_collect_of : List ℕ → ℕ → Heap V → Exec (DropEnd × Heap V)
    unfolding at_pointer drop_no_collect_in_place
    drop_no_collect_of failures this heap = at_pointer info this heap (λ o.
        drop_no_collect_in_place build fast needs_drop panics info context failures o >>= λ d.
        done (drop_end d))

    -- `Brc::increment_strong_count`: the new reference is forgotten.
    unfoldable pub increment_strong_count : ℕ → Heap V → Exec (Heap V)
    unfolding clone_no_collect_of
    increment_strong_count ptr heap = clone_no_collect_of ptr heap >>= λ r. done r.1

    -- `Brc::decrement_strong_count`
    unfoldable pub decrement_strong_count : List ℕ → ℕ → Heap V → Exec (DropEnd × Heap V)
    unfolding drop_no_collect_of
    decrement_strong_count failures ptr heap = drop_no_collect_of failures ptr heap

    -- `Brc::biased_and_shared_counts`
    unfoldable pub biased_and_shared_counts : ℕ → Heap V → Exec (Result ℕ BiasedCountError × ℤ)
    unfolding header_ptr_for
    biased_and_shared_counts this heap = do
      h ← header_of (heap (header_ptr_for info this))
      biased ← biased_count build fast h.strong
      done (biased, shared_count build h.strong)

  module _ {queue : SegQueue QueuedObject} {vec : Boxcar Entry} (panicking : Bool)
      (arrivals : List (QueuedObject × List QueuedObject)) where
    -- A call after the implicit collection of its kind.
    unfoldable pub collecting {κ} :
        {A : Type κ}
        → Bool
        → (World queue vec V → Exec (A × Heap V))
        → World queue vec V
        → Exec (Option (A × World queue vec V))
    unfolding collect_world
    collecting no_collect call w =
        collect_world needs_drop setting.info_at build setting.fuel no_collect setting.disabled
          panicking arrivals w
        >>= elim [
          | none ↦ done none
          | some w' ↦ call w' >>= λ r. done (some (r.0, record w' { heap = r.1 }))
        ]

    -- `Clone for Brc`
    unfoldable pub clone : ℕ → World queue vec V → Exec (Option (ℕ × World queue vec V))
    unfolding collecting clone_no_collect_of
    clone this =
        collecting setting.no_implicit_collect_clone
          (λ w. clone_no_collect_of w.current.fast this w.heap)

    -- `Drop for Brc`
    unfoldable pub drop :
        List ℕ → ℕ → World queue vec V → Exec (Option (DropEnd × World queue vec V))
    unfolding collecting drop_no_collect_of
    drop failures this =
        collecting setting.no_implicit_collect_drop
          (λ w. drop_no_collect_of w.current.fast failures this w.heap)

    -- The write through the reference, once the old one has been dropped.
    unfoldable pub write_made :
        (V → V) → ℕ → Option (DropEnd × World queue vec V) → Exec (Option (MadeMut queue vec V))
    write_made change new none = done none
    write_made change new (some ((unwound, to_queue), w)) =
        done (some (record { this = new; end = (unwound, to_queue); world = w }))
    write_made change new (some ((returned u, to_queue), w)) =
        at_pointer info new w.heap
          (λ o. value_of o >>= λ v. done (v, record o { value = some (change v) }))
        >>= λ r. done (
            some (record {
              this = new;
              end = (returned u, to_queue);
              world = record w { heap = r.1 };
            }))

    unfoldable pub replace :
        (V → V)
        → List ℕ
        → ℕ
        → Option (Ending ℕ × World queue vec V)
        → Exec (Option (MadeMut queue vec V))
    replace change failures this none = done none
    replace change failures this (some (unwound, w)) =
        done (some (record { this = this; end = (unwound, none); world = w }))
    replace change failures this (some (returned new, w)) =
        drop failures this w >>= write_made change new

    -- `make_mut`, and a mutation `change` of the value through the reference that it returns.
    unfoldable pub make_mut :
        (V → V) → List ℕ → Option ℕ → ℕ → World queue vec V → Exec (Option (MadeMut queue vec V))
    make_mut change failures allocated this w = do
      found ← at_pointer info this w.heap (get_mut build w.current.fast change)
      let w' = record w { heap = found.1 }
      if found.0
          then done (some (record { this = this; end = (returned tt, none); world = w' }))
          else (do
            value ← value_of (w'.heap (header_ptr_for info this))
            made ←
                new_with_in build setting.header needs_drop setting.info_at setting.fuel
                  setting.no_implicit_collect setting.disabled panicking arrivals setting.layout
                  (setting.clone_value value) allocated w'
            replace change failures this made)
