-- ===== src/Layout/Std.antt =====
-- `core::alloc::Layout`, as far as src/layout.rs and src/strong.rs use it.
use Prim.Native.Nat.{max}
use biasedrc_rs.Common.{ℕ, ◌+◌, ◌-◌, ◌*◌, ◌/◌, ◌^◌, ◌≤◌, ◌≡◌, leb, if◌then◌else◌, Result, ok, err}

pub record Layout : Type 0 where
  pub size : ℕ
  pub align : ℕ

pub data LayoutError : Type 0 where
  layout_error : LayoutError

-- The sizes that an alignment allows: rounded up to it, they fit in `isize`.
abbrev pub max_size_for_align : ℕ → ℕ
max_size_for_align align = 2 ^ 63 - align

-- The alignments that are used are powers of two.
abbrev pub from_size_align : ℕ → ℕ → Result Layout LayoutError
from_size_align size align =
    if leb size (max_size_for_align align)
    then ok (record { size = size; align = align })
    else err layout_error

-- `size_rounded_up_to_custom_align`
abbrev pub round_up : ℕ → ℕ → ℕ
round_up size align = (size + align - 1) / align * align

abbrev pub align_to : Layout → ℕ → Result Layout LayoutError
align_to layout align = from_size_align layout.size (max layout.align align)

abbrev pub extended : ℕ → Result Layout LayoutError → Result (Layout × ℕ) LayoutError
extended offset (ok layout) = ok (layout, offset)
extended offset (err e) = err e

-- The layout of the two, and the offset of the second.
abbrev pub extend : Layout → Layout → Result (Layout × ℕ) LayoutError
extend first next =
    let offset = round_up first.size next.align in
    extended offset (from_size_align (offset + next.size) (max first.align next.align))

-- `Layout::array::<T>(n)`, for the layout of `T`.
abbrev pub array : Layout → ℕ → Result Layout LayoutError
array element n = from_size_align (element.size * n) element.align

pub data IsPowerOfTwo : ℕ → Type 0 where
  one : {n : ℕ} → n ≡ 1 → IsPowerOfTwo n
  double : {n m : ℕ} → IsPowerOfTwo m → n ≡ m * 2 → IsPowerOfTwo n

pub record IsLayout (layout : Layout) : Type 0 where
  pub align : IsPowerOfTwo layout.align
  pub size : layout.size ≤ max_size_for_align layout.align
