-- ===== src/View/Invariant.antt =====
-- The operations keep the states that a header may have, and count references one by one.
use biasedrc_rs.Common.{
  ℕ, ◌<◌, ◌≡◌, ◌≢◌, ◌↔◌, refl, Bool, true, false, not, ◌&&◌, Option, none, some, if◌then◌else◌, ℤ,
  pos, ◌+ℤ◌, ◌-ℤ◌, is_neg, is_zero, arith,
}
use biasedrc_rs.Words.ArbitraryInt.{IsI62}
use biasedrc_rs.View.Defs.{View, refs, is_owned_by, incremented, decremented, merged_view, IsView}
use biasedrc_rs.View.Encode.{Fits}
use biasedrc_rs.View.Increment.{takes_biased}
use biasedrc_rs.View.Decrement.{CanRelease, CanSubtract}

abbrev pub HasReference : View → Type 0
HasReference v = is_neg (refs v -ℤ pos 1) ≡ false

phase-Fits :
    (o : Option ℕ) (n : ℕ) (c : ℤ) (m q : Bool)
    → IsView (record { owner = o; biased = n; count = c; merged = m; queued = q })
    → Fits (record { owner = o; biased = n; count = c; merged = m; queued = q })
phase-Fits (some t) n c false q h = record { count = h.0; owner = h.1.0; biased = h.1.1.small }
phase-Fits none n c false q h = elim h.1 [ ]
phase-Fits o n c true q h = ground arith

pub IsView-Fits : (v : View) → IsView v → Fits v
IsView-Fits v h = phase-Fits v.owner v.biased v.count v.merged v.queued h

pub refs-incremented : (this : Option ℕ) (v : View) → refs (incremented this v) ≡ refs v +ℤ pos 1
unfolding incremented
refs-incremented this v = ground arith

pub refs-decremented :
    (this : Option ℕ) (v : View)
    → (is_owned_by v.owner this ≡ true → 0 < v.biased)
    → refs (decremented this v).view ≡ refs v -ℤ pos 1
unfolding decremented
refs-decremented this v positive = ground arith

pub refs-merged_view : (v : View) → refs (merged_view v) ≡ refs v
unfolding merged_view
refs-merged_view v = ground arith

pub owned-positive :
    (this : Option ℕ) (v : View) → IsView v → is_owned_by v.owner this ≡ true → 0 < v.biased
owned-positive this v h own = ground arith

pub IsView-CanRelease :
    (v : View)
    → IsView v
    → HasReference v
    → (this : Option ℕ) → is_owned_by v.owner this ≡ true
    → CanRelease v
IsView-CanRelease v h has this own = ground arith

pub IsView-CanSubtract :
    (v : View) → IsView v → HasReference v → IsI62 (v.count -ℤ pos 1) → CanSubtract v
IsView-CanSubtract v h has room = ground arith

pub incremented-IsView :
    (this : Option ℕ) (v : View)
    → IsView v
    → (takes_biased this v ≡ false → IsI62 (v.count +ℤ pos 1))
    → IsView (incremented this v)
unfolding incremented
incremented-IsView this v h room = ground arith

pub decremented-IsView :
    (this : Option ℕ) (v : View)
    → IsView v
    → HasReference v
    → IsI62 (v.count -ℤ pos 1)
    → IsView (decremented this v).view
unfolding decremented
decremented-IsView this v h has room = ground arith

pub merged_view-IsView :
    (v : View) → IsView v → v.merged ≡ false → IsI62 (refs v) → IsView (merged_view v)
unfolding merged_view
merged_view-IsView v h unmerged room = ground arith

-- The destructor is due exactly for the last reference, unless the merge is still to come.
pub decremented-should_drop :
    (this : Option ℕ) (v : View)
    → IsView v
    → HasReference v
    → ((decremented this v).should_drop ≡ true)
      ↔ ((refs (decremented this v).view ≡ pos 0) × ((decremented this v).view.merged ≡ true))
unfolding decremented
decremented-should_drop this v h has = (λ e. ground arith, λ e. ground arith)

pub decremented-waits :
    (this : Option ℕ) (v : View)
    → IsView v
    → HasReference v
    → (let w = (decremented this v).view in is_zero (refs w) && not w.merged && not w.queued)
      ≡ false
unfolding decremented
decremented-waits this v h has = ground arith

pub decremented-queue_to :
    (this : Option ℕ) (v : View)
    → IsView v
    → HasReference v
    → (decremented this v).queue_to
      ≡ (if not v.queued && (decremented this v).view.queued then v.owner else none)
unfolding decremented
decremented-queue_to this v h has = ground arith

pub decremented-queued :
    (this : Option ℕ) (v : View) → (v.queued && not (decremented this v).view.queued) ≡ false
unfolding decremented
decremented-queued this v = ground arith

pub unmerged-owned : (v : View) → IsView v → v.merged ≡ false → v.owner ≢ none
unmerged-owned v h unmerged e = ground (arith, e)

-- A header with a reference never underflows its shared counter.
pub HasReference-room : (v : View) → IsView v → HasReference v → IsI62 (v.count -ℤ pos 1)
HasReference-room v h has = ground arith

pub owned-unmerged : (tid : ℕ) (v : View) → IsView v → v.owner ≡ some tid → v.merged ≡ false
owned-unmerged tid v h own = ground arith

pub refs-nonneg : (v : View) → IsView v → is_neg (refs v) ≡ false
refs-nonneg v h = ground arith

pub merged_view-merged : (v : View) → (merged_view v).merged ≡ true
unfolding merged_view
merged_view-merged v = refl

pub incremented-merged : (this : Option ℕ) (v : View) → (incremented this v).merged ≡ v.merged
unfolding incremented
incremented-merged this v = ground arith

pub merged-nonneg : (v : View) → IsView v → v.merged ≡ true → is_neg v.count ≡ false
merged-nonneg v h m = ground arith
