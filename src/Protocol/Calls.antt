-- ===== src/Protocol/Calls.antt =====
-- An object that thread `tid` owns, and the calls that threads make on it, in any order. A call is
-- one step: what interferes with its loop on the shared word leaves it a call on the word last seen
-- (`Header.Interference`). An upgrade that returns nothing changes
-- nothing and is no step. That the owner's drop gives up its ownership after it has set the merged flag,
-- by a store that other calls may come before, is seen only in Protocol/Accesses. Pushing the object onto the queue of its owner is a step of its own.
use biasedrc_rs.Common.{ℕ, ◌+◌, ◌-◌, ◌<◌, ◌≡◌, Bool, false, not, ◌&&◌, Option, none, some, []}
use biasedrc_rs.Exec.{done}
use biasedrc_rs.Ids.{ShortThreadId}
use biasedrc_rs.Threads.Local.{LocalThreadStateFast, IsConsistent}
use biasedrc_rs.Words.Shared.{of_bool}
use biasedrc_rs.Header.{
  Build, RawBrcHeader, Decremented, Merged, init_header, increment_strong,
  increment_strong_unless_zero, decrement_strong, explicit_merge,
}
use biasedrc_rs.View.{decode}
use biasedrc_rs.View.Increment.{takes_biased}

-- `handles` counts the strong references that are alive, `announced` the threads on the way to
-- `queue_object`, `enqueued` the entries in the owner's queue, and `destroyed` the calls of the
-- destructor.
pub record System : Type 0 where
  pub header : RawBrcHeader
  pub handles : ℕ
  pub announced : ℕ
  pub enqueued : ℕ
  pub destroyed : ℕ

abbrev pub requests : Option ShortThreadId → ℕ
requests none = 0
requests (some t) = 1

abbrev pub after_drop : System → Decremented → System
after_drop s r = record {
  header = r.header;
  handles = s.handles - 1;
  announced = s.announced + requests r.queue_to;
  enqueued = s.enqueued;
  destroyed = s.destroyed + of_bool r.result.should_drop;
}

abbrev pub after_merge : System → Merged → System
after_merge s m = record {
  header = m.header;
  handles = s.handles;
  announced = s.announced;
  enqueued = s.enqueued - 1;
  destroyed = s.destroyed + of_bool m.dealloc;
}

-- An object that a non-owner has announced, and that has not been merged yet.
abbrev pub waits : Build → RawBrcHeader → Bool
waits build h = let v = decode build h in v.queued && not v.merged

-- A clone or upgrade that would grow the shared counter of an object that waits for its merge.
abbrev pub is_hasty : Build → LocalThreadStateFast → RawBrcHeader → Bool
is_hasty build fast h = waits build h && not (takes_biased fast.short_id (decode build h))

-- The calls, with `hasty` saying whether hasty clones occur.
pub data Step (build : Build) (tid : ShortThreadId) (hasty : Bool) (s : System)
    : System → Type 0 where
  clone :
      (fast : LocalThreadStateFast) {h : RawBrcHeader}
      → IsConsistent fast
      → 0 < s.handles
      → is_hasty build fast s.header && not hasty ≡ false
      → increment_strong build fast s.header ≡ done h
      → Step build tid hasty s (record s { header = h; handles = s.handles + 1 })
  upgrade :
      (fast : LocalThreadStateFast) {h : RawBrcHeader}
      → IsConsistent fast
      → is_hasty build fast s.header && not hasty ≡ false
      → increment_strong_unless_zero build fast [] s.header ≡ done (some h)
      → Step build tid hasty s (record s { header = h; handles = s.handles + 1 })
  drop :
      (fast : LocalThreadStateFast) {r : Decremented}
      → IsConsistent fast
      → 0 < s.handles
      → decrement_strong build fast [] s.header ≡ done r
      → Step build tid hasty s (after_drop s r)
  push :
      0 < s.announced
      → Step build tid hasty s (record s { announced = s.announced - 1; enqueued = s.enqueued + 1 })
  merge :
      {m : Merged}
      → 0 < s.enqueued
      → explicit_merge build tid [] s.header ≡ done m
      → Step build tid hasty s (after_merge s m)

-- The object as `tid` has just allocated it.
abbrev pub allocated : Build → ShortThreadId → System
allocated build tid = record {
  header = init_header build.int (some tid);
  handles = 1;
  announced = 0;
  enqueued = 0;
  destroyed = 0;
}

pub data Run (build : Build) (tid : ShortThreadId) (hasty : Bool) (s : System)
    : System → Type 0 where
  here : Run build tid hasty s s
  next :
      {t u : System} → Run build tid hasty s t → Step build tid hasty t u → Run build tid hasty s u

-- The states of an object since its allocation.
abbrev pub Reach : Build → ShortThreadId → Bool → System → Type 0
Reach build tid hasty = Run build tid hasty (allocated build tid)
