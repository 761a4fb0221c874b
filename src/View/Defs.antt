-- ===== src/View/Defs.antt =====
-- The specification of src/runtime.rs, `RawBrcHeader`, on unpacked counters.
use biasedrc_rs.Common.{
  ℕ, ◌+◌, ◌-◌, ◌^◌, ◌<◌, ◌≡◌, Bool, true, false, not, ◌&&◌, ◌||◌, Option, none, some, option_eq,
  ltb, if◌then◌else◌, ℤ, pos, ◌+ℤ◌, ◌-ℤ◌, is_neg, is_zero,
}
use biasedrc_rs.Ids.{ShortThreadId, IsShortThreadId}
use biasedrc_rs.Words.ArbitraryInt.{IsI62}

pub record View : Type 0 where
  pub owner : Option ShortThreadId
  pub biased : ℕ
  pub count : ℤ
  pub merged : Bool
  pub queued : Bool

-- The number of strong references that the counters stand for.
abbrev pub refs : View → ℤ
refs v = pos v.biased +ℤ v.count

abbrev pub is_owned_by : Option ShortThreadId → Option ShortThreadId → Bool
is_owned_by owner none = false
is_owned_by owner (some this_id) = option_eq owner (some this_id)

-- The owner counts in the biased counter while it has room.
unfoldable pub incremented : Option ShortThreadId → View → View
incremented this v =
    if is_owned_by v.owner this && ltb (v.biased + 1) (2 ^ 20)
    then record v { biased = v.biased + 1 }
    else record v { count = v.count +ℤ pos 1 }

pub record Effect : Type 0 where
  pub view : View
  pub should_drop : Bool
  pub queue_to : Option ShortThreadId

-- Giving up the biased counter with the last reference that it counts.
abbrev pub released : View → Effect
released v = record {
  view = record v { owner = none; biased = 0; merged = true };
  should_drop = is_zero v.count;
  queue_to = none;
}

abbrev pub decremented_owned : View → Effect
decremented_owned v =
    if ltb 1 v.biased
    then record { view = record v { biased = v.biased - 1 }; should_drop = false; queue_to = none }
    else released v

-- The first decrement below zero asks the owner to merge.
abbrev pub decremented_shared : View → Effect
decremented_shared v =
    let count' = v.count -ℤ pos 1 in
    record {
      view = record v { count = count'; queued = is_neg count' || v.queued };
      should_drop = not (is_neg count' && not v.queued) && (v.merged && is_zero count');
      queue_to = if is_neg count' && not v.queued then v.owner else none;
    }

unfoldable pub decremented : Option ShortThreadId → View → Effect
decremented this v = if is_owned_by v.owner this then decremented_owned v else decremented_shared v

-- A merge keeps the number of references.
unfoldable pub merged_view : View → View
merged_view v = record v {
  owner = none;
  biased = 0;
  count = pos v.biased +ℤ v.count;
  merged = true;
}

-- Before a merge the owner counts at least one, and a negative shared counter has been announced.
pub record IsBiased (v : View) : Type 0 where
  pub positive : 0 < v.biased
  pub small : v.biased < 2 ^ 20
  pub announced : is_neg v.count ≡ true → v.queued ≡ true
  pub enough : is_neg (refs v) ≡ false

abbrev pub IsOwned : Option ShortThreadId → View → Type 0
IsOwned none v = ⊥
IsOwned (some t) v = IsShortThreadId t × IsBiased v

pub record IsMerged (v : View) : Type 0 where
  pub unowned : v.owner ≡ none
  pub unbiased : v.biased ≡ 0
  pub enough : is_neg v.count ≡ false

abbrev pub HasPhase : Bool → View → Type 0
HasPhase false v = IsOwned v.owner v
HasPhase true v = IsMerged v

-- The states of a header that the operations keep.
abbrev pub IsView : View → Type 0
IsView v = IsI62 v.count × HasPhase v.merged v
