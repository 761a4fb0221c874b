-- ===== src/Protocol/Invariant/Steps.antt =====
-- Each call keeps the invariant.
use biasedrc_rs.Common.{
  ℕ, ◌+◌, ◌-◌, ◌<◌, ◌≡◌, ◌≢◌, refl, sym, ap, ◌∙◌, true, false, not, ◌&&◌, Option, none, some, [],
  pos, negsuc, ◌+ℤ◌, ◌-ℤ◌, is_zero, arith,
}
use biasedrc_rs.Exec.{done}
use biasedrc_rs.Ids.{ShortThreadId, IsShortThreadId}
use biasedrc_rs.Threads.Local.{LocalThreadStateFast, IsConsistent}
use biasedrc_rs.Words.ArbitraryInt.{IsI62}
use biasedrc_rs.Header.{
  Build, RawBrcHeader, Decremented, Merged, increment_strong, increment_strong_unless_zero,
  decrement_strong, explicit_merge,
}
use biasedrc_rs.View.{
  View, refs, encode, IsView, incremented, decremented, merged_view, Fits, decode-encode,
}
use biasedrc_rs.View.Increment.{
  takes_biased, CanAdd, CanAdd-room, increment_strong-room, increment_strong-incremented,
}
use biasedrc_rs.View.Invariant.{
  IsView-Fits, HasReference, owned-positive, merged-nonneg, IsView-CanRelease, IsView-CanSubtract,
  HasReference-room, decremented-IsView, refs-decremented, decremented-should_drop, refs-nonneg,
  merged_view-IsView, refs-merged_view, merged_view-merged, incremented-IsView, refs-incremented,
  incremented-merged,
}
use biasedrc_rs.View.Decrement.{encode_effect, decrement_strong-decremented}
use biasedrc_rs.View.Merge.{explicit_merge-room, explicit_merge-merged_view}
use biasedrc_rs.View.Upgrade.{
  upgraded, encode_option, increment_strong_unless_zero-upgraded, increment_strong_unless_zero-room,
  upgraded-some, upgraded-IsView,
}
use biasedrc_rs.Protocol.Calls.{
  System, Step, clone, upgrade, drop, push, merge, Reach, here, next, is_hasty, after_drop,
  after_merge,
}
use biasedrc_rs.Protocol.Invariant.Views.{
  is_waiting, incremented-IsShared, incremented-is_waiting, decremented-IsShared,
  requests-decremented, upgraded-IsShared, merged_view-IsShared, merged_view-is_waiting,
}
use biasedrc_rs.Protocol.Invariant.Defs.{Inv, allocated-Inv}

done-injective {ℓ} : {A : Type ℓ} {a b : A} → done a ≡ done b → a ≡ b
done-injective e = cc

not_hasty :
    (build : Build) (fast : LocalThreadStateFast) (v : View) (h : RawBrcHeader)
    → IsView v
    → h ≡ encode build.int v
    → is_hasty build fast h && true ≡ false
    → (is_waiting v && not (takes_biased fast.short_id v)) ≡ false
not_hasty build fast v h valid same calm = ground (arith, decode-encode build (IsView-Fits v valid))

-- A shared counter of -1 belongs to an object that waits.
not_waiting-no_carry : (v : View) → IsView v → is_waiting v ≡ false → v.count ≢ negsuc 0
not_waiting-no_carry v h calm e = ground arith

module _ {build : Build} {tid : ShortThreadId} {s : System} (inv : Inv build tid s) where
  open inv use {view, same, shared, counted, waiting, dropped}
  open build use {int}

  clone-Inv :
      (fast : LocalThreadStateFast) {h : RawBrcHeader}
      → IsConsistent fast
      → 0 < s.handles
      → is_hasty build fast s.header && true ≡ false
      → increment_strong build fast s.header ≡ done h
      → Inv build tid (record s { header = h; handles = s.handles + 1 })
  clone-Inv fast {h} consistent alive calm call = record {
    view = incremented this view;
    same = done-injective (sym call' ∙ spec);
    shared = incremented-IsShared this view shared valid calm';
    counted = ground (arith, refs-incremented this view, counted);
    waiting = ground (arith, incremented-is_waiting this view shared, waiting);
    dropped = ground (arith, dropped, incremented-merged this view);
  }
    where
      this : Option ℕ
      this = fast.short_id

      fits : Fits view
      fits = IsView-Fits view shared.valid

      calm' : (is_waiting view && not (takes_biased this view)) ≡ false
      calm' = not_hasty build fast view s.header shared.valid same calm

      call' : increment_strong build fast (encode int view) ≡ done h
      call' = rw (← same) call

      can : takes_biased this view ≡ false → CanAdd view.count
      can foreign = record {
        no_carry = not_waiting-no_carry view shared.valid (ground (arith, calm'));
        room = increment_strong-room build fast consistent fits call' foreign;
      }

      spec :
          increment_strong build fast (encode int view) ≡ done (encode int (incremented this view))
      spec =
          increment_strong-incremented build fast consistent fits
            (λ own. owned-positive this view shared.valid (ground arith)) can

      valid : IsView (incremented this view)
      valid =
          incremented-IsView this view shared.valid
            (λ foreign. CanAdd-room view.count shared.valid.0 (can foreign))

  upgrade-Inv :
      (fast : LocalThreadStateFast) {h : RawBrcHeader}
      → IsConsistent fast
      → is_hasty build fast s.header && true ≡ false
      → increment_strong_unless_zero build fast [] s.header ≡ done (some h)
      → Inv build tid (record s { header = h; handles = s.handles + 1 })
  upgrade-Inv fast {h} consistent calm call = by_result (upgraded this view) refl
    where
      this : Option ℕ
      this = fast.short_id

      fits : Fits view
      fits = IsView-Fits view shared.valid

      calm' : (is_waiting view && not (takes_biased this view)) ≡ false
      calm' = not_hasty build fast view s.header shared.valid same calm

      call' : increment_strong_unless_zero build fast [] (encode int view) ≡ done (some h)
      call' = rw (← same) call

      room : takes_biased this view ≡ false → IsI62 (view.count +ℤ pos 1)
      room = increment_strong_unless_zero-room build fast consistent fits call'

      result : some h ≡ encode_option int (upgraded this view)
      result = done-injective (
          sym call'
          ∙ increment_strong_unless_zero-upgraded build fast consistent fits
              (λ own. owned-positive this view shared.valid (ground arith))
              (merged-nonneg view shared.valid) room)

      by_result :
          (o : Option View)
          → upgraded this view ≡ o
          → Inv build tid (record s { header = h; handles = s.handles + 1 })
      by_result none e = absurd (cc (result, e))
      by_result (some u) e =
          let valid = upgraded-IsView this view e shared.valid room in
          let (shared', waits', alive) = upgraded-IsShared this view shared e valid calm' in
          let (counted', merged', _, _) = upgraded-some this view e in
          record {
            view = u;
            same = ground (arith, result, e);
            shared = shared';
            counted = ground (arith, counted', counted);
            waiting = ground (arith, waits', waiting);
            dropped = ground (arith, dropped, merged', alive, counted);
          }

  drop-Inv :
      (fast : LocalThreadStateFast) {r : Decremented}
      → IsConsistent fast
      → 0 < s.handles
      → decrement_strong build fast [] s.header ≡ done r
      → Inv build tid (after_drop s r)
  drop-Inv fast {r} consistent alive call = record {
    view = (decremented this view).view;
    same = ap (λ (d : Decremented). d.header) result;
    shared = decremented-IsShared this view shared valid has;
    counted = ground (arith, refs', counted);
    waiting = ground (arith, result, requests-decremented this view shared has, waiting);
    dropped = ground (
      arith,
      result,
      dropped,
      refs',
      counted,
      decremented-should_drop this view shared.valid has,
    );
  }
    where
      this : Option ℕ
      this = fast.short_id

      has : HasReference view
      has = ground (arith, counted)

      result : r ≡ encode_effect int (decremented this view)
      result = done-injective (
          sym (rw (← same) call)
          ∙ decrement_strong-decremented build fast consistent (IsView-Fits view shared.valid)
              (IsView-CanRelease view shared.valid has this)
              (λ _.
                IsView-CanSubtract view shared.valid has (HasReference-room view shared.valid has)))

      valid : IsView (decremented this view).view
      valid =
          decremented-IsView this view shared.valid has (HasReference-room view shared.valid has)

      refs' : refs (decremented this view).view ≡ refs view -ℤ pos 1
      refs' = refs-decremented this view (owned-positive this view shared.valid)

  push-Inv :
      0 < s.announced
      → Inv build tid (record s { announced = s.announced - 1; enqueued = s.enqueued + 1 })
  push-Inv some_announced = record {
    view = view;
    same = same;
    shared = shared;
    counted = counted;
    waiting = omega (arith, waiting);
    dropped = dropped;
  }

  merge-Inv :
      {m : Merged}
      → 0 < s.enqueued
      → explicit_merge build tid [] s.header ≡ done m
      → Inv build tid (after_merge s m)
  unfolding merged_view
  merge-Inv {m} some_queued call = record {
    view = merged_view view;
    same = ap (λ (d : Merged). d.header) result;
    shared = merged_view-IsShared view (merged_view-IsView view shared.valid unmerged room);
    counted = refs-merged_view view ∙ counted;
    waiting = ground (arith, waiting, merged_view-is_waiting view, unmerged);
    dropped = ground (arith, result, dropped, counted, unmerged, merged_view-merged view);
  }
    where
      fits : Fits view
      fits = IsView-Fits view shared.valid

      unmerged : view.merged ≡ false
      unmerged = ground (arith, waiting)

      call' : explicit_merge build tid [] (encode int view) ≡ done m
      call' = rw (← same) call

      room : IsI62 (refs view)
      room = explicit_merge-room build fits tid call'

      result : m ≡ record { header = encode int (merged_view view); dealloc = is_zero (refs view) }
      result = done-injective (
          sym call'
          ∙ explicit_merge-merged_view build fits tid (shared.owned unmerged) unmerged room
              (refs-nonneg view shared.valid))

-- Each call keeps the invariant, unless it is a hasty clone.
pub Step-Inv :
    {build : Build} {tid : ShortThreadId} {s t : System}
    → Step build tid false s t
    → Inv build tid s
    → Inv build tid t
Step-Inv (clone fast consistent alive calm call) inv = clone-Inv inv fast consistent alive calm call
Step-Inv (upgrade fast consistent calm call) inv = upgrade-Inv inv fast consistent calm call
Step-Inv (drop fast consistent alive call) inv = drop-Inv inv fast consistent alive call
Step-Inv (push announced) inv = push-Inv inv announced
Step-Inv (merge queued call) inv = merge-Inv inv queued call

pub Reach-Inv :
    {build : Build} {tid : ShortThreadId} {s : System}
    → IsShortThreadId tid
    → Reach build tid false s
    → Inv build tid s
Reach-Inv {build} {tid} h here = allocated-Inv build tid h
Reach-Inv h (next r st) = Step-Inv st (Reach-Inv h r)
