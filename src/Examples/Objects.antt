-- ===== src/Examples/Objects.antt =====
-- The theorems on objects at a `Brc<u32>`, whose header stands at the address 64.
use biasedrc_rs.Common.{
  ℕ, ◌+◌, ◌-◌, ◌^◌, ◌≡◌, ◌≢◌, refl, true, false, none, some, [], pos, ◌+ℤ◌, arith, ok,
}
use biasedrc_rs.Exec.{done, ◌>>=◌}
use biasedrc_rs.View.{View, IsView, refs}
use biasedrc_rs.Layout
use biasedrc_rs.Layout.{Layout, LayoutInfo, IsLayout, double, header_offset}
use biasedrc_rs.Layout.Divides.{Divides}
use biasedrc_rs.Layout.Placement.{IsPlaced, new-IsPlaced, header_offset-IsPlaced}
use biasedrc_rs.Pointee.{DropContext, sized, thin}
use biasedrc_rs.Words.ArbitraryInt.{plain_int}
use biasedrc_rs.View.Upgrade.{upgraded}
use biasedrc_rs.Brc.Object.{
  Object, Dropped, returned, try_unwrap, clone_no_collect, drop_no_collect_in_place,
}
use biasedrc_rs.Brc.Destruction.{live_object}
use biasedrc_rs.Brc.Sharing.{try_unwrap-live_object, drop_no_collect_in_place-clone_no_collect}
use biasedrc_rs.Brc.World.{Heap, store_object}
use biasedrc_rs.Brc.Weak.{upgrade, upgrade-upgraded, kept_object, upgraded_pointer, upgraded_object}
use biasedrc_rs.Brc.Calls.{Setting, drop_no_collect_of}
use biasedrc_rs.Brc.Pointers.{after_drop, drop_no_collect_of-dropped}
use biasedrc_rs.Examples.{build, owner, one, one-IsView}

abbrev pub header_layout : Layout
header_layout = record { size = 16; align = 8 }

abbrev pub word : Layout
word = record { size = 4; align = 4 }

pub header_layout-IsLayout : IsLayout header_layout
header_layout-IsLayout = record {
  align = double (double (double (Layout.one refl) refl) refl) refl;
  size = omega arith;
}

pub word-IsLayout : IsLayout word
word-IsLayout = record { align = double (double (Layout.one refl) refl) refl; size = omega arith }

abbrev pub word_info : LayoutInfo
word_info = record { value_offset = 16; full_layout = record { size = 20; align = 8 } }

pub laid_out : Layout.new header_layout word ≡ ok word_info
unfolding Layout.new
laid_out = refl

pub word-IsPlaced : IsPlaced header_layout word word_info
word-IsPlaced = new-IsPlaced header_layout word header_layout-IsLayout word-IsLayout laid_out

new-IsPlaced_example : IsPlaced header_layout word word_info
new-IsPlaced_example = new-IsPlaced header_layout word header_layout-IsLayout word-IsLayout laid_out

pub aligned : Divides 8 64
aligned = record { quotient = 8; is_multiple = refl }

header_offset-IsPlaced_example :
    (pos (64 + 16) +ℤ header_offset word_info ≡ pos 64)
    × Divides 4 (64 + 16)
    × (64 + 16 ≢ 2 ^ 64 - 1)
header_offset-IsPlaced_example =
    header_offset-IsPlaced header_layout word word_info 64 word-IsPlaced aligned

abbrev context : DropContext
context = record { pointee = sized word; metadata = thin; value_offset = 16 }

abbrev live : Object ℕ
live = live_object plain_int word_info one 1 7

try_unwrap-live_object_example :
    try_unwrap build owner live ≡ done (some 7, record live { value = none })
try_unwrap-live_object_example = try_unwrap-live_object build owner tt word_info one 1 7 one-IsView

drop_no_collect_in_place-clone_no_collect_example :
    (u : View) × (d : Dropped ℕ) × ((clone_no_collect build owner live >>= λ o.
    drop_no_collect_in_place build owner true (λ _. false) word_info context [] o)
      ≡ done d)
    × (d.object ≡ live_object plain_int word_info u 1 7)
    × (d.ending ≡ returned tt)
    × IsView u
    × (refs u ≡ pos 1)
drop_no_collect_in_place-clone_no_collect_example =
    drop_no_collect_in_place-clone_no_collect build owner tt word_info true (λ _. false) context one
      1 7 one-IsView refl (λ e. ground arith) (omega arith) (omega arith)

-- The value is gone, and two weak references keep the memory.
abbrev kept : Heap ℕ
kept base = kept_object word_info build one 2 none

upgrade-upgraded_example :
    upgrade word_info build owner [] (64 + 16) kept
    ≡ done (
      upgraded_pointer (64 + 16) (upgraded (some 1) one),
      store_object 64 (upgraded_object word_info build one 2 none (upgraded (some 1) one)) kept,
    )
upgrade-upgraded_example =
    upgrade-upgraded word_info build owner tt header_layout word 64 kept one 2 none word-IsPlaced
      aligned one-IsView (λ e. ground arith) refl

abbrev pub setting : Setting ℕ
setting = record {
  build = build;
  header = header_layout;
  layout = word;
  info = word_info;
  context = context;
  needs_drop = true;
  panics = λ _. false;
  clone_value = λ x. returned x;
  info_at = λ _. word_info;
  fuel = 1;
  no_implicit_collect = false;
  no_implicit_collect_clone = false;
  no_implicit_collect_drop = false;
  disabled = false;
}

abbrev heap : Heap ℕ
heap base = live

drop_no_collect_of-dropped_example : drop_no_collect_of setting owner [] (64 + 16) heap ≡ (
    let d = after_drop setting owner one 1 7 in
    done ((d.ending, d.to_queue), store_object 64 d.object heap))
drop_no_collect_of-dropped_example =
    drop_no_collect_of-dropped setting owner 64 heap one 1 7 tt word-IsPlaced aligned refl
      one-IsView refl (omega arith) (omega arith)
