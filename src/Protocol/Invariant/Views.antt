-- ===== src/Protocol/Invariant/Views.antt =====
-- What the invariant asks of a view, and that each operation on views keeps it.
use biasedrc_rs.Common.{
  ℕ, ◌+◌, ◌≡◌, Bool, true, false, not, ◌&&◌, Option, some, is_neg, is_zero, arith,
}
use biasedrc_rs.Ids.{ShortThreadId}
use biasedrc_rs.Words.Shared.{of_bool}
use biasedrc_rs.View.{View, refs, IsView, incremented, decremented, merged_view}
use biasedrc_rs.View.Increment.{takes_biased}
use biasedrc_rs.View.Upgrade.{upgraded}
use biasedrc_rs.View.Invariant.{HasReference}
use biasedrc_rs.Protocol.Calls.{requests}

abbrev pub is_waiting : View → Bool
is_waiting v = v.queued && not v.merged

pub record IsShared (tid : ShortThreadId) (v : View) : Type 0 where
  pub valid : IsView v
  pub owned : v.merged ≡ false → v.owner ≡ some tid
  pub negative : is_waiting v ≡ true → is_neg v.count ≡ true

module _ {tid : ShortThreadId} (this : Option ℕ) (v : View) (h : IsShared tid v) where
  pub incremented-IsShared :
      IsView (incremented this v)
      → (is_waiting v && not (takes_biased this v)) ≡ false
      → IsShared tid (incremented this v)
  unfolding incremented
  incremented-IsShared valid calm = record {
    valid = valid;
    owned = ground (arith, h.owned);
    negative = ground (arith, h.negative);
  }

  pub incremented-is_waiting : is_waiting (incremented this v) ≡ is_waiting v
  unfolding incremented
  incremented-is_waiting = ground arith

  pub decremented-IsShared :
      IsView (decremented this v).view → HasReference v → IsShared tid (decremented this v).view
  unfolding decremented
  decremented-IsShared valid has = record {
    valid = valid;
    owned = ground (arith, h.owned);
    negative = ground (arith, h.negative);
  }

  -- The object is announced exactly when it begins to wait.
  pub requests-decremented :
      HasReference v
      → of_bool (is_waiting v) + requests (decremented this v).queue_to
        ≡ of_bool (is_waiting (decremented this v).view)
  unfolding decremented
  requests-decremented has = ground (arith, h.owned, h.negative)

  -- An upgrade happens only while a reference is left or the merge is to come.
  pub upgraded-IsShared :
      {u : View}
      → upgraded this v ≡ some u
      → IsView u
      → (is_waiting v && not (takes_biased this v)) ≡ false
      → IsShared tid u × (is_waiting u ≡ is_waiting v) × ((v.merged && is_zero (refs v)) ≡ false)
  unfolding upgraded
  upgraded-IsShared {u} e valid calm = (
    record {
      valid = valid;
      owned = ground (arith, h.owned);
      negative = ground (arith, h.negative);
    },
    ground arith,
    ground arith,
  )

module _ {tid : ShortThreadId} (v : View) where
  pub merged_view-IsShared : IsView (merged_view v) → IsShared tid (merged_view v)
  unfolding merged_view
  merged_view-IsShared valid = record {
    valid = valid;
    owned = ground arith;
    negative = ground arith;
  }

pub merged_view-is_waiting : (v : View) → is_waiting (merged_view v) ≡ false
unfolding merged_view
merged_view-is_waiting v = ground arith
