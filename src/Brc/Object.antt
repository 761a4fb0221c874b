-- ===== src/Brc/Object.antt =====
-- src/strong.rs, src/weak.rs: the operations on one object, from its header. An object stays in the
-- model when its memory is released.
use biasedrc_rs.Common.{ℕ, Bool, true, false, ◌&&◌, Option, none, some, List, ◌==◌, if◌then◌else◌}
use biasedrc_rs.Exec.{Exec, done, fault, Fault, ◌>>=◌}
use biasedrc_rs.Ids.{ShortThreadId}
use biasedrc_rs.Threads.Local.{LocalThreadStateFast}
use biasedrc_rs.Layout.{Layout, LayoutInfo}
use biasedrc_rs.Pointee.{DropContext, ErasedDropInfo, erase}
use biasedrc_rs.Header.{
  Build, increment_strong, increment_strong_shared, increment_strong_unless_zero, decrement_strong,
}
use biasedrc_rs.Brc
use biasedrc_rs.Brc.{BrcHeader, drop_weak}

-- A call that may unwind: it returns, or it panics.
pub data Ending {ℓ} (A : Type ℓ) : Type ℓ where
  returned : A → Ending A
  unwound : Ending A

-- `value` is none where the value is not initialised, moved out, or dropped; `memory` is the layout of
-- the allocation until its release.
pub record Object {ℓ} (V : Type ℓ) : Type ℓ where
  pub header : BrcHeader
  pub value : Option V
  pub memory : Option Layout

-- The entry that `decrement_shared_do_queue` hands to the owner.
pub record QueuedDrop : Type 0 where
  pub owner : ShortThreadId
  pub drop_info : ErasedDropInfo

-- What a drop leaves of the object, how it ends, and the entry for the queue of the owner.
pub record Dropped {ℓ} (V : Type ℓ) : Type ℓ where
  pub object : Object V
  pub ending : Ending (Unit {0})
  pub to_queue : Option QueuedDrop

abbrev pub layout_eq : Layout → Layout → Bool
layout_eq a b = (a.size == b.size) && (a.align == b.align)

abbrev pub to_queue_of : DropContext → Option ShortThreadId → Option QueuedDrop
to_queue_of context none = none
to_queue_of context (some owner) = some (record { owner = owner; drop_info = erase context })

module _ {ℓ} {V : Type ℓ} where
  -- What only an object in memory has.
  abbrev pub header_of : Object V → Exec BrcHeader
  header_of o = elim o.memory [ none ↦ fault Fault.use_after_free | some _ ↦ done o.header ]

  abbrev pub value_of : Object V → Exec V
  value_of o = elim o.memory [
    | none ↦ fault Fault.use_after_free
    | some _ ↦ elim o.value [ none ↦ fault Fault.no_value | some v ↦ done v ]
  ]

  -- `Allocator::deallocate`, which has to be given the layout of the allocation.
  unfoldable pub deallocate : Layout → Object V → Exec (Object V)
  deallocate layout o = elim o.memory [
    | none ↦ fault Fault.bad_deallocation
    | some actual ↦
        if layout_eq actual layout
        then done (record o { memory = none })
        else fault Fault.bad_deallocation
  ]

  -- `BrcHeader::drop_weak`
  unfoldable pub drop_weak_at : LayoutInfo → Object V → Exec (Object V)
  unfolding drop_weak deallocate
  drop_weak_at info o = do
    h ← header_of o
    let (h', last) = drop_weak h
    if last
        then deallocate info.full_layout (record o { header = h' })
        else done (record o { header = h' })

  -- `drop_in_place`. `panics` says whether the destructor of a value panics; its value counts as
  -- dropped then, too.
  unfoldable pub drop_in_place : (V → Bool) → Object V → Exec (Ending (Unit {0}) × Object V)
  drop_in_place panics o = do
    v ← value_of o
    done (if panics v then unwound else returned tt, record o { value = none })

  -- The guard drops the weak reference however the destructor ends. The `debug_assert_eq` on the offset of
  -- the value is left out: in the source both offsets come from the layout of the object.
  unfoldable pub erased_dealloc :
      Bool → (V → Bool) → LayoutInfo → Object V → Exec (Ending (Unit {0}) × Object V)
  unfolding drop_in_place drop_weak_at
  erased_dealloc needs_drop panics info o = do
    dropped ← if needs_drop then drop_in_place panics o else done (returned tt, o)
    o' ← drop_weak_at info dropped.1
    done (dropped.0, o')

  module _ (build : Build) (fast : LocalThreadStateFast) where
    unfoldable pub clone_no_collect : Object V → Exec (Object V)
    clone_no_collect o = do
      h ← header_of o
      strong ← increment_strong build fast h.strong
      done (record o { header = record h { strong = strong } })

    unfoldable pub clone_shared : Object V → Exec (Object V)
    clone_shared o = do
      h ← header_of o
      strong ← increment_strong_shared build h.strong
      done (record o { header = record h { strong = strong } })

    unfoldable pub drop_no_collect_in_place :
        Bool → (V → Bool) → LayoutInfo → DropContext → List ℕ → Object V → Exec (Dropped V)
    unfolding erased_dealloc
    drop_no_collect_in_place needs_drop panics info context failures o = do
      h ← header_of o
      r ← decrement_strong build fast failures h.strong
      let o' = record o { header = record h { strong = r.header } }
      let to_queue = to_queue_of context r.queue_to
      if r.result.should_drop
          then (do
            (ending, last) ← erased_dealloc needs_drop panics info o'
            done (record { object = last; ending = ending; to_queue = to_queue }))
          else done (record { object = o'; ending = returned tt; to_queue = to_queue })

    -- `Weak::upgrade` on an object; `none` is the failure.
    unfoldable pub upgrade : List ℕ → Object V → Exec (Option (Object V))
    upgrade failures o = do
      h ← header_of o
      strong ← increment_strong_unless_zero build fast failures h.strong
      done (elim strong [
        | none ↦ none
        | some s ↦ some (record o { header = record h { strong = s } })
      ])

    -- The value that is moved out, or `Err` with the reference.
    unfoldable pub try_unwrap : Object V → Exec (Option V × Object V)
    try_unwrap o = do
      h ← header_of o
      (h', unique) ← Brc.is_unique build fast h
      let o' = record o { header = h' }
      if unique
          then (do v ← value_of o'; done (some v, record o' { value = none }))
          else done (none, o')

    -- A mutation of the value through the reference that `get_mut` returns.
    unfoldable pub get_mut : (V → V) → Object V → Exec (Bool × Object V)
    get_mut change o = do
      h ← header_of o
      (h', unique) ← Brc.is_unique build fast h
      let o' = record o { header = h' }
      if unique
          then (do v ← value_of o'; done (true, record o' { value = some (change v) }))
          else done (false, o')
