-- ===== src/Protocol/Safety.antt =====
-- Safety and progress of the calls on one object, as long as no thread clones hastily.
use biasedrc_rs.Common.{◌+◌, ◌^◌, ◌<◌, ◌≡◌, ◌⊎◌, inl, inr, ap, ◌∙◌, false, [], ◌==◌, arith}
use native.Mathlib.Decide.{dec_lt}
use biasedrc_rs.Exec.{done}
use biasedrc_rs.Ids.{ShortThreadId, IsShortThreadId}
use biasedrc_rs.Threads.Local.{LocalThreadStateFast, IsConsistent}
use biasedrc_rs.Words.ArbitraryInt.{IsI62}
use biasedrc_rs.Header.{Build, Decremented, Merged, decrement_strong, explicit_merge}
use biasedrc_rs.View.{refs, merged_view}
use biasedrc_rs.View.Invariant.{IsView-Fits, HasReference, refs-nonneg}
use biasedrc_rs.View.Decrement.{encode_effect}
use biasedrc_rs.View.Merge.{encode_merged, explicit_merge-merged_view}
use biasedrc_rs.Counting.{decrement_strong-counts}
use biasedrc_rs.Protocol.Calls.{
  System, Step, clone, upgrade, drop, push, merge, Run, Reach, here, next, after_merge,
}
use biasedrc_rs.Protocol.Invariant.{Inv, Reach-Inv, Step-Inv}

module _ {build : Build} {tid : ShortThreadId} {s : System} (h : IsShortThreadId tid)
    (r : Reach build tid false s) where
  abbrev inv : Inv build tid s
  inv = Reach-Inv h r

  -- When the destructor of an object has been called, in a run without hasty clones, it was called
  -- once, no strong reference is left, the object is in no queue, and no thread is about to put it
  -- there.
  pub destroyed_last :
      0 < s.destroyed → (s.destroyed ≡ 1) × (s.handles ≡ 0) × (s.announced ≡ 0) × (s.enqueued ≡ 0)
  destroyed_last d = let i = inv in ground (arith, i.dropped, i.waiting)

  -- In a run without hasty clones, once no reference is left, either the destructor has been called,
  -- or one thread is about to queue the object or one entry of the queue stands for it.
  pub destroyed_or_waits :
      s.handles ≡ 0 → (s.destroyed ≡ 1) ⊎ ((s.destroyed ≡ 0) × (s.announced + s.enqueued ≡ 1))
  destroyed_or_waits e =
      let i = inv in ground (arith, i.dropped, i.waiting, i.counted, i.shared.valid)

  -- Of the calls as wholes, none follows the call of the destructor, but an upgrade that returns
  -- nothing, which is no step.
  pub untouched_when_destroyed : {t : System} → 0 < s.destroyed → ¬ Step build tid false s t
  untouched_when_destroyed d (clone fast consistent alive calm call) =
      absurd (omega (arith, (destroyed_last d).1))
  untouched_when_destroyed d (upgrade fast consistent calm call) =
      let after = Step-Inv (upgrade fast consistent calm call) inv in ground (arith, after.dropped)
  untouched_when_destroyed d (drop fast consistent alive call) =
      absurd (omega (arith, (destroyed_last d).1))
  untouched_when_destroyed d (push announced) = absurd (omega (arith, (destroyed_last d).2))
  untouched_when_destroyed d (merge queued call) = absurd (omega (arith, (destroyed_last d).3))

  -- In a run without hasty clones, a drop returns while a reference is alive, on each thread whose
  -- status and id agree.
  pub drop_returns :
      (fast : LocalThreadStateFast)
      → IsConsistent fast
      → 0 < s.handles
      → (d : Decremented) × (decrement_strong build fast [] s.header ≡ done d)
  drop_returns fast consistent alive =
      let i = inv in
      let has : HasReference i.view = ground (arith, i.counted) in
      let (e, call, _, _, _, _, _, _, _) =
        decrement_strong-counts build fast consistent i.view i.shared.valid has in
      (encode_effect build.int e, ap (decrement_strong build fast []) i.same ∙ call)

  -- In a run without hasty clones, the merge of a queued object returns, while there are less than
  -- 2 ^ 61 references, and calls the destructor exactly when there is none.
  pub merge_returns :
      0 < s.enqueued
      → s.handles < 2 ^ 61
      → (m : Merged) × (explicit_merge build tid [] s.header ≡ done m)
        × (m.dealloc ≡ (s.handles == 0))
  unfolding merged_view
  merge_returns queued few = (
    encode_merged build.int (merged_view i.view),
    ap (explicit_merge build tid []) i.same
        ∙ explicit_merge-merged_view build (IsView-Fits i.view i.shared.valid) tid
            (i.shared.owned unmerged) unmerged room (refs-nonneg i.view i.shared.valid),
    ground (arith, i.counted),
  )
    where
      i : Inv build tid s
      i = inv

      unmerged : i.view.merged ≡ false
      unmerged = ground (arith, i.waiting)

      room : IsI62 (refs i.view)
      room = rw i.counted few

module _ {build : Build} {tid : ShortThreadId} (h : IsShortThreadId tid) where
  merge_destroys :
      {s : System}
      → Reach build tid false s
      → 0 < s.enqueued
      → s.handles ≡ 0
      → s.destroyed ≡ 0
      → (t : System) × Run build tid false s t × (t.destroyed ≡ 1)
  merge_destroys {s} r queued none_left not_yet =
      let (m, call, last) = merge_returns h r queued (omega arith) in
      (after_merge s m, next here (merge queued call), ground (arith, last))

  Run-append :
      {s t u : System} → Run build tid false s t → Run build tid false t u → Run build tid false s u
  Run-append r here = r
  Run-append r (next q st) = next (Run-append r q) st

  -- In a run without hasty clones, from each state without references some calls lead to a state in
  -- which the destructor has been called once.
  pub destroyed_in_the_end :
      {s : System}
      → Reach build tid false s
      → s.handles ≡ 0
      → (t : System) × Run build tid false s t × (t.destroyed ≡ 1)
  destroyed_in_the_end {s} r none_left = elim (destroyed_or_waits h r none_left) [
    | inl gone ↦ (s, here, gone)
    | inr (not_yet, one) ↦ elim (dec_lt 0 s.announced) [
      | yes announced ↦
          let (t, rest, gone) =
            merge_destroys (next r (push announced)) (omega arith) none_left not_yet in
          (t, Run-append (next here (push announced)) rest, gone)
      | no unannounced ↦ merge_destroys r (omega arith) none_left not_yet
    ]
  ]
