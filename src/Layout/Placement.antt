-- ===== src/Layout/Placement.antt =====
-- Where `LayoutInfo` puts the header and the value of an object.
use Prim.Native.Nat.{max}
use mathlib.Core.Path.{subst}
use native.Mathlib.Nat.{le-max_right}
use biasedrc_rs.Common.{ℕ, ◌+◌, ◌-◌, ◌^◌, ◌≤◌, ◌≡◌, ◌≢◌, refl, sym, pos, ◌+ℤ◌, ok, arith}
use biasedrc_rs.Layout
use biasedrc_rs.Layout.{
  LayoutInfo, Layout, IsLayout, IsPowerOfTwo, one, double, LayoutError, layout_error, header_offset,
  max_size_for_align, round_up, from_size_align, extend, align_to, min_value_alignment,
}
use biasedrc_rs.Layout.Divides.{
  Divides, IsPowerOfTwo-pos, Divides-trans, Divides-add, Divides-max, Divides-max_left,
  Divides-max_two, max-IsPowerOfTwo, round_up_bounds, Divides-round_up, round_up-le,
}

-- The value stands behind the header and inside the allocation, and every address that the allocation
-- may have aligns both.
pub record IsPlaced (header value : Layout) (info : LayoutInfo) : Type 0 where
  pub after_header : header.size ≤ info.value_offset
  pub room : info.full_layout.size ≡ info.value_offset + value.size
  pub full : IsLayout info.full_layout
  pub offset_aligned : Divides value.align info.value_offset
  pub value_aligned : Divides value.align info.full_layout.align
  pub header_aligned : Divides header.align info.full_layout.align
  pub offset_even : Divides 2 info.value_offset
  pub even : Divides 2 info.full_layout.align

-- The alignment at which values are placed.
abbrev pub value_align : Layout → ℕ
value_align layout = max layout.align min_value_alignment

two : IsPowerOfTwo min_value_alignment
two = double (one refl) refl

module _ (header value : Layout) (h : IsLayout header) (v : IsLayout value) where
  offset : ℕ
  offset = round_up header.size (value_align value)

  abbrev placed : LayoutInfo
  placed = record {
    value_offset = round_up header.size (value_align value);
    full_layout = record {
      size = round_up header.size (value_align value) + value.size;
      align = max header.align (value_align value);
    };
  }

  align_pow : IsPowerOfTwo (value_align value)
  align_pow = max-IsPowerOfTwo v.align two

  placed-IsPlaced :
      placed.full_layout.size ≤ max_size_for_align placed.full_layout.align
      → IsPlaced header value placed
  placed-IsPlaced fits =
      let a = align_pow in
      let rounded = Divides-round_up header.size (value_align value) in
      let outer = Divides-max h.align a in
      let inner = Divides-max_left v.align two in
      record {
        after_header = (round_up_bounds header.size (value_align value) (IsPowerOfTwo-pos a)).0;
        room = refl;
        full = record { align = max-IsPowerOfTwo h.align a; size = fits };
        offset_aligned = Divides-trans inner rounded;
        value_aligned = Divides-trans inner outer;
        header_aligned = Divides-max_left h.align a;
        offset_even = Divides-trans (Divides-max_two v.align) rounded;
        even = Divides-trans (Divides-max_two v.align) outer;
      }

  -- Where `new` returns a layout, it is this one.
  new-placed :
      {info : LayoutInfo}
      → Layout.new header value ≡ ok info
      → (info ≡ placed) × (placed.full_layout.size ≤ max_size_for_align placed.full_layout.align)
  unfolding Layout.new
  new-placed {info} e = ground (arith, le-max_right header.align (value_align value))

  new-fits :
      placed.full_layout.size ≤ max_size_for_align placed.full_layout.align
      → Layout.new header value ≡ ok placed
  unfolding Layout.new
  new-fits fits = ground (arith, le-max_right header.align (value_align value))

  -- Wherever the layouts of header and value are layouts and `new` returns, the value stands behind the
  -- header and inside the allocation, at an even offset that is aligned for it, and the alignment of
  -- the allocation is a multiple of both alignments.
  pub new-IsPlaced :
      {info : LayoutInfo} → Layout.new header value ≡ ok info → IsPlaced header value info
  new-IsPlaced {info} e =
      let (same, fits) = new-placed e in
      subst (IsPlaced header value) (sym same) (placed-IsPlaced fits)

  -- Where some offset behind the header is a multiple of the alignment at which values are placed, and
  -- leaves room for the value below the limit of `isize`, `new` returns, and its offset is no greater.
  pub new-least :
      (place : ℕ)
      → header.size ≤ place
      → Divides (value_align value) place
      → place + value.size ≤ max_size_for_align (max header.align (value_align value))
      → (info : LayoutInfo) × (Layout.new header value ≡ ok info) × (info.value_offset ≤ place)
  new-least place above aligned room =
      let least =
        round_up-le header.size (value_align value) (IsPowerOfTwo-pos align_pow) above aligned in
      (placed, new-fits (omega arith), least)

-- For a placed value and an allocation at an aligned address, adding `header_offset` to
-- the address of the value gives that of the header, and the address of the value is aligned for it
-- and is not the one that `Weak::new` reserves.
pub header_offset-IsPlaced :
    (header value : Layout) (info : LayoutInfo) (base : ℕ)
    → IsPlaced header value info
    → Divides info.full_layout.align base
    → (pos (base + info.value_offset) +ℤ header_offset info ≡ pos base)
      × Divides value.align (base + info.value_offset)
      × (base + info.value_offset ≢ 2 ^ 64 - 1)
unfolding header_offset
header_offset-IsPlaced header value info base p aligned =
    let even = Divides-add (Divides-trans p.even aligned) p.offset_even in
    (
      ground arith,
      Divides-add (Divides-trans p.value_aligned aligned) p.offset_aligned,
      λ e. omega (arith, even.is_multiple),
    )
