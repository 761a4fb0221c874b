-- ===== src/Layout.antt =====
-- src/layout.rs: `LayoutInfo`, which says where the header and the value of an object stand.
mod Std
pub mod Divides
pub mod Placement
pub use Std.*
use biasedrc_rs.Common.{ℕ, ℤ, pos, negsuc, ◌-ℤ◌, ◌≡◌, arith, Result, ok, err}
use biasedrc_rs.Exec.{Exec, done, fault, Fault}

pub record LayoutInfo : Type 0 where
  pub value_offset : ℕ
  pub full_layout : Layout

-- `MIN_VALUE_ALIGNMENT`
abbrev pub min_value_alignment : ℕ
min_value_alignment = 2

-- `header` is the layout of `BrcHeader<A>`, which depends on the allocator.
module _ (header : Layout) where
  abbrev pub info_of : Result (Layout × ℕ) LayoutError → Result LayoutInfo LayoutError
  info_of (ok (full_layout, value_offset)) =
      ok (record { value_offset = value_offset; full_layout = full_layout })
  info_of (err e) = err e

  unfoldable pub new : Layout → Result LayoutInfo LayoutError
  new layout = elim (align_to layout min_value_alignment) [
    | err e ↦ err e
    | ok aligned ↦ info_of (extend header aligned)
  ]

  unfoldable pub new_or_panic : Layout → Exec LayoutInfo
  unfolding new
  new_or_panic layout = elim (new layout) [ ok info ↦ done info | err e ↦ fault Fault.panicked ]

  pub new_or_panic-new :
      (layout : Layout) {info : LayoutInfo} → new layout ≡ ok info → new_or_panic layout ≡ done info
  unfolding new_or_panic
  new_or_panic-new layout laid_out = ground (arith, laid_out)

-- From the value back to the header.
unfoldable pub header_offset : LayoutInfo → ℤ
header_offset info = pos 0 -ℤ pos info.value_offset
