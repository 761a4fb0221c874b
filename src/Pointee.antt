-- ===== src/Pointee.antt =====
-- src/pointee.rs: what the library knows of the types that it can point to; src/runtime.rs: `DropInfo`
-- and `ErasedDropInfo`; src/strong.rs: `DropContext`.
use biasedrc_rs.Common.{ℕ, ◌+◌, ◌*◌, ◌≡◌, refl, ap, Result, ok, err, arith}
use biasedrc_rs.Exec.{Exec, done, fault, Fault}
use biasedrc_rs.Layout.{Layout, LayoutError, array, IsLayout}

-- The types: a sized one, a slice, one like `str`, and a trait object. `weak_pointee_str_like` covers
-- the third.
pub data Pointee : Type 0 where
  sized slice : Layout → Pointee
  str_like trait_object : Pointee

-- `Pointee::Metadata`: nothing, a length, or the address of a vtable.
pub data Metadata : Type 0 where
  thin : Metadata
  len vtable : ℕ → Metadata

pub data HasMetadata : Pointee → Metadata → Type 0 where
  of_sized : {layout : Layout} → HasMetadata (sized layout) thin
  of_slice : {element : Layout} {n : ℕ} → HasMetadata (slice element) (len n)
  of_str : {n : ℕ} → HasMetadata str_like (len n)
  of_trait_object : {address : ℕ} → HasMetadata trait_object (vtable address)

-- `ErasedDestructorContext` is an address; the null pointer is 0.
abbrev pub ErasedDestructorContext : Type 0
ErasedDestructorContext = ℕ

unfoldable pub to_context : Metadata → ErasedDestructorContext
to_context thin = 0
to_context (len n) = n
to_context (vtable address) = address

-- The implementation for the metadata of a type.
unfoldable pub from_context : Pointee → ErasedDestructorContext → Metadata
from_context (sized layout) ctx = thin
from_context (slice element) ctx = len ctx
from_context str_like ctx = len ctx
from_context trait_object ctx = vtable ctx

abbrev pub byte : Layout
byte = record { size = 1; align = 1 }

-- `unwrap_unchecked`
abbrev unwrapped : Result Layout LayoutError → Exec Layout
unwrapped (ok layout) = done layout
unwrapped (err e) = fault Fault.unreachable_unchecked

slice_layout_for_ptr : Layout → Metadata → Exec Layout
slice_layout_for_ptr element (len n) = unwrapped (array element n)
slice_layout_for_ptr element thin = fault Fault.unreachable_unchecked
slice_layout_for_ptr element (vtable address) = fault Fault.unreachable_unchecked

-- `layout_for_ptr` on stable Rust, where a trait object has no weak references.
unfoldable pub layout_for_ptr : Pointee → Metadata → Exec Layout
unfolding slice_layout_for_ptr
layout_for_ptr (sized layout) metadata = done layout
layout_for_ptr (slice element) metadata = slice_layout_for_ptr element metadata
layout_for_ptr str_like metadata = slice_layout_for_ptr byte metadata
layout_for_ptr trait_object metadata = fault Fault.unreachable_unchecked

-- `Layout::for_value`, of a value that is in memory. `behind` is the layout that a vtable holds.
abbrev pub for_value : (ℕ → Layout) → Pointee → Metadata → Layout
for_value behind (sized layout) metadata = layout
for_value behind (slice element) (len n) = record { size = element.size * n; align = element.align }
for_value behind str_like (len n) = record { size = n; align = 1 }
for_value behind trait_object (vtable address) = behind address
for_value behind pointee metadata = byte

-- A type with weak references, whose value has been allocated.
abbrev pub IsWeakPointee : Pointee → Type 0
IsWeakPointee trait_object = ⊥
IsWeakPointee _ = Unit {0}

-- For a type that can have weak references, its own metadata, and a value whose layout is one, the
-- layout that a weak reference finds from the pointer alone is that of the value.
pub layout_for_ptr-for_value :
    (behind : ℕ → Layout) {pointee : Pointee} {metadata : Metadata}
    → IsWeakPointee pointee
    → HasMetadata pointee metadata
    → IsLayout (for_value behind pointee metadata)
    → layout_for_ptr pointee metadata ≡ done (for_value behind pointee metadata)
unfolding layout_for_ptr
layout_for_ptr-for_value behind w of_sized h = refl
layout_for_ptr-for_value behind w of_slice h = ground (arith, h.size)
layout_for_ptr-for_value behind w of_str h = ground (arith, h.size)
layout_for_ptr-for_value behind w of_trait_object h = elim w [ ]

-- `DropContext`, for the type `pointee`.
pub record DropContext : Type 0 where
  pub pointee : Pointee
  pub metadata : Metadata
  pub value_offset : ℕ

-- `erased_func` is the function for a type.
pub record ErasedDropInfo : Type 0 where
  pub value_offset : ℕ
  pub erased_ctx : ErasedDestructorContext
  pub erased_func : Pointee

unfoldable pub erase : DropContext → ErasedDropInfo
unfolding to_context
erase drop = record {
  value_offset = drop.value_offset;
  erased_ctx = to_context drop.metadata;
  erased_func = drop.pointee;
}

-- The value that `erased_dealloc` drops: its address and its metadata.
unfoldable pub erased_target : ErasedDropInfo → ℕ → ℕ × Metadata
unfolding from_context
erased_target drop header_ptr =
    (header_ptr + drop.value_offset, from_context drop.erased_func drop.erased_ctx)

from_context-to_context :
    {pointee : Pointee} {metadata : Metadata}
    → HasMetadata pointee metadata
    → from_context pointee (to_context metadata) ≡ metadata
unfolding from_context to_context
from_context-to_context of_sized = refl
from_context-to_context of_slice = refl
from_context-to_context of_str = refl
from_context-to_context of_trait_object = refl

-- The erased drop information of an object leads from its header to its value, with the metadata of the
-- value.
pub erased_target-erase :
    (drop : DropContext) (header_ptr : ℕ)
    → HasMetadata drop.pointee drop.metadata
    → erased_target (erase drop) header_ptr ≡ (header_ptr + drop.value_offset, drop.metadata)
unfolding erase erased_target
erased_target-erase drop header_ptr h =
    ap (λ m. (header_ptr + drop.value_offset, m)) (from_context-to_context h)
