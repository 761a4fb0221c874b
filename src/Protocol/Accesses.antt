-- ===== src/Protocol/Accesses.antt =====
-- The calls on one object as threads carry them out, one access to the memory at a time:
-- src/runtime.rs, `RawBrcHeader` and `explicit_merge`. Between two accesses of a thread the others may
-- run. What a thread computes after an access, up to its next one, belongs to that access. The biased
-- word is written by one thread only, so that the owner's load of it and the store that follows are
-- one access. The runs are those without hasty clones: the shared counter of an object that has been
-- queued and not yet merged does not grow.
pub mod Whole
pub mod Missed
pub mod Anyone
pub mod OwnCalls
pub mod Owner
pub mod Kept
pub mod Atomicity
pub mod Death
pub mod Alone
pub mod Late
use biasedrc_rs.Common.{
  ℕ, ◌+◌, ◌-◌, ◌<◌, ◌≡◌, ◌≢◌, Bool, true, false, not, ◌&&◌, ◌||◌, none, some, List, ◌∷◌, ◌++◌,
  if◌then◌else◌, ℤ, is_neg, is_zero,
}
use biasedrc_rs.Exec.{Exec, done, Fault, ◌>>=◌, ◌>>◌, fault_if}
use biasedrc_rs.Ids.{ShortThreadId}
use biasedrc_rs.Threads.Local.{LocalThreadStateFast, IsConsistent}
use biasedrc_rs.Words.Shared
use biasedrc_rs.Words.Shared.{SharedWord}
use biasedrc_rs.Header.{
  Build, RawBrcHeader, Decremented, load_shared, load_biased, debug_assert,
  attempt_biased_increment, increment_strong_shared, increment_unless_dead, decrement_biased,
  decrement_word, queue_owner, merge_word, merge_shared, release_ownership, bool_eq,
}
use biasedrc_rs.Protocol.Calls.{waits}

-- Where a thread stands, with the local variables that are live there.
pub data Pc : Type 0 where
  idle : Pc
  adding : Pc  -- a clone before its `fetch_add`
  upgrading : Pc  -- an upgrade before the load of the shared word
  upgrade_from : (seen : ℕ) → Pc  -- before an exchange in `fetch_update`
  subtracting : Pc  -- `decrement_shared` before the load of the shared word
  subtract_from : (seen : ℕ) → Pc  -- before an exchange of its loop
  announcing : Pc  -- `decrement_shared_do_queue` before the load of the owner's id
  pushing : Pc  -- before the push onto the queue of the owner
  flagging : Pc  -- `decrement_biased_slow` before its `fetch_or`
  disowning : (should_drop : Bool) → Pc  -- before the store of `UNOWNED`
  merging : (biased_count : ℕ) → Pc  -- `explicit_merge` before the load of the shared word
  merge_from : (biased_count seen : ℕ) → Pc  -- before an exchange of its loop
  unbiasing : (count : ℤ) → Pc  -- before its store of `UNOWNED`
  destroying : Pc  -- before the call of the destructor

-- What the threads share. `handles` counts the references that no call has in hand; `enqueued` the
-- entries in the queue of the owner; `destroyed` the calls of the destructor.
pub record Cells : Type 0 where
  pub header : RawBrcHeader
  pub handles : ℕ
  pub enqueued : ℕ
  pub destroyed : ℕ

abbrev pub finish : Bool → Pc
finish true = destroying
finish false = idle

-- The end of `decrement_shared`, after the exchange.
unfoldable pub after_exchange : Build → SharedWord → SharedWord → Exec Pc
after_exchange build old new = do
  debug_assert build (not new.merged || not (is_neg new.shared_count))
  done (
      if bool_eq old.queued new.queued
      then finish (new.merged && is_zero new.shared_count)
      else announcing)

-- The end of `explicit_merge`, after the store.
unfoldable pub after_merge : ℤ → Exec Pc
after_merge count = do
  fault_if (is_neg count) Fault.negative_refcnt_merge
  done (finish (is_zero count))

module _ (build : Build) where
  open build use {int}

  abbrev pub word_of : Cells → SharedWord
  word_of m = load_shared build m.header

  abbrev pub with_word : Cells → SharedWord → RawBrcHeader
  with_word m new = record m.header { shared_word = Shared.to_raw int new }

  abbrev pub disowned : Cells → Cells
  disowned m = record m { header = release_ownership build m.header }

  -- The accesses of any thread, which read the biased word and act on the shared one: those of clones,
  -- upgrades and drops. A call on a reference has it in hand until the count is changed, a clone too, so
  -- that two threads that clone one borrowed reference do so one after the other.
  pub data Move (fast : LocalThreadStateFast) (m : Cells) (p : Pc) : Cells → Pc → Type 0 where
    clone :
        p ≡ idle
        → 0 < m.handles
        → attempt_biased_increment build fast m.header ≡ done none
        → Move fast m p (record m { handles = m.handles - 1 }) adding
    add :
        {h : RawBrcHeader}
        → p ≡ adding
        → waits build m.header ≡ false
        → increment_strong_shared build m.header ≡ done h
        → Move fast m p (record m { header = h; handles = m.handles + 2 }) idle
    upgrade :
        p ≡ idle
        → attempt_biased_increment build fast m.header ≡ done none
        → Move fast m p m upgrading
    upgrade_load : p ≡ upgrading → Move fast m p m (upgrade_from m.header.shared_word)
    upgrade_exchange :
        {new : SharedWord}
        → p ≡ upgrade_from m.header.shared_word
        → waits build m.header ≡ false
        → increment_unless_dead build (word_of m) ≡ done (some new)
        → Move fast m p (record m { header = with_word m new; handles = m.handles + 1 }) idle
    upgrade_retry :
        {seen : ℕ} {new : SharedWord}
        → p ≡ upgrade_from seen
        → increment_unless_dead build (Shared.from_raw int seen) ≡ done (some new)
        → Move fast m p m (upgrade_from m.header.shared_word)
    upgrade_dead :
        {seen : ℕ}
        → p ≡ upgrade_from seen
        → increment_unless_dead build (Shared.from_raw int seen) ≡ done none
        → Move fast m p m idle
    drop :
        p ≡ idle
        → 0 < m.handles
        → decrement_biased build fast m.header ≡ done none
        → Move fast m p (record m { handles = m.handles - 1 }) subtracting
    subtract_load : p ≡ subtracting → Move fast m p m (subtract_from m.header.shared_word)
    subtract_exchange :
        {new : SharedWord} {q : Pc}
        → p ≡ subtract_from m.header.shared_word
        → decrement_word build (word_of m) ≡ done (some new)
        → after_exchange build (word_of m) new ≡ done q
        → Move fast m p (record m { header = with_word m new }) q
    subtract_retry :
        {seen : ℕ} {new : SharedWord}
        → p ≡ subtract_from seen
        → decrement_word build (Shared.from_raw int seen) ≡ done (some new)
        → Move fast m p m (subtract_from m.header.shared_word)
    read_owner :
        {id : ShortThreadId}
        → p ≡ announcing
        → queue_owner build m.header ≡ done id
        → Move fast m p m pushing
    push : p ≡ pushing → Move fast m p (record m { enqueued = m.enqueued + 1 }) idle
    destroy : p ≡ destroying → Move fast m p (record m { destroyed = m.destroyed + 1 }) idle

  -- The accesses of the thread that acts for the owner `tid`: the clones, upgrades and drops of the owner
  -- on the biased word, and `explicit_merge` on the thread that merges its queue.
  pub data OwnMove (tid : ShortThreadId) (fast : LocalThreadStateFast) (m : Cells) (p : Pc)
      : Cells → Pc → Type 0 where
    clone_biased :
        {h : RawBrcHeader}
        → p ≡ idle
        → 0 < m.handles
        → attempt_biased_increment build fast m.header ≡ done (some h)
        → OwnMove tid fast m p (record m { header = h; handles = m.handles + 1 }) idle
    upgrade_biased :
        {h : RawBrcHeader}
        → p ≡ idle
        → attempt_biased_increment build fast m.header ≡ done (some h)
        → OwnMove tid fast m p (record m { header = h; handles = m.handles + 1 }) idle
    drop_biased :
        {r : Decremented}
        → p ≡ idle
        → 0 < m.handles
        → 1 < (load_biased build m.header).biased_count
        → decrement_biased build fast m.header ≡ done (some r)
        → OwnMove tid fast m p (record m { header = r.header; handles = m.handles - 1 }) idle
    drop_last :
        p ≡ idle
        → 0 < m.handles
        → load_biased build m.header ≡ record { owner_id = some tid; biased_count = 1 }
        → fast.short_id ≡ some tid
        → OwnMove tid fast m p (record m { handles = m.handles - 1 }) flagging
    flag :
        p ≡ flagging
        → debug_assert build (not (word_of m).merged) ≡ done tt
        → debug_assert build (not (is_neg (word_of m).shared_count)) ≡ done tt
        → OwnMove tid fast m p
            (record m { header = merge_shared build m.header })
            (disowning (is_zero (word_of m).shared_count))
    disown :
        {should_drop : Bool}
        → p ≡ disowning should_drop
        → OwnMove tid fast m p (disowned m) (finish should_drop)
    pop :
        p ≡ idle
        → 0 < m.enqueued
        → (load_biased build m.header).owner_id ≡ some tid
        → OwnMove tid fast m p
            (record m { enqueued = m.enqueued - 1 })
            (merging (load_biased build m.header).biased_count)
    merge_load :
        {n : ℕ} → p ≡ merging n → OwnMove tid fast m p m (merge_from n m.header.shared_word)
    merge_exchange :
        {n : ℕ} {new : SharedWord}
        → p ≡ merge_from n m.header.shared_word
        → merge_word build n (word_of m) ≡ done (some new)
        → OwnMove tid fast m p (record m { header = with_word m new }) (unbiasing new.shared_count)
    merge_retry :
        {n seen : ℕ} {new : SharedWord}
        → p ≡ merge_from n seen
        → merge_word build n (Shared.from_raw int seen) ≡ done (some new)
        → OwnMove tid fast m p m (merge_from n m.header.shared_word)
    unbias :
        {count : ℤ} {q : Pc}
        → p ≡ unbiasing count
        → after_merge count ≡ done q
        → OwnMove tid fast m p (disowned m) q

pub record Thread : Type 0 where
  pub fast : LocalThreadStateFast
  pub pc : Pc

-- `owner` acts for the owner; `others` are any number of other threads.
pub record Machine : Type 0 where
  pub cells : Cells
  pub owner : Thread
  pub others : List Thread

pub data Access (build : Build) (tid : ShortThreadId) (s : Machine) : Machine → Type 0 where
  by_owner :
      {m : Cells} {q : Pc}
      → Move build s.owner.fast s.cells s.owner.pc m q
      → Access build tid s (record s { cells = m; owner = record s.owner { pc = q } })
  as_owner :
      {m : Cells} {q : Pc}
      → OwnMove build tid s.owner.fast s.cells s.owner.pc m q
      → Access build tid s (record s { cells = m; owner = record s.owner { pc = q } })
  by_other :
      (before after : List Thread) (t : Thread) {m : Cells} {q : Pc}
      → s.others ≡ before ++ t ∷ after
      → Move build t.fast s.cells t.pc m q
      → Access build tid s (record s { cells = m; others = before ++ record t { pc = q } ∷ after })
  -- The owner dies.
  retire :
      (fast : LocalThreadStateFast)
      → s.owner.pc ≡ idle
      → IsConsistent fast
      → fast.short_id ≡ none
      → Access build tid s (record s { owner = record s.owner { fast = fast } })
  -- Another thread gets its state, under an id of its own, or dies.
  change :
      (before after : List Thread) (t : Thread) (fast : LocalThreadStateFast)
      → s.others ≡ before ++ t ∷ after
      → t.pc ≡ idle
      → IsConsistent fast
      → fast.short_id ≢ some tid
      → Access build tid s (record s { others = before ++ record t { fast = fast } ∷ after })

pub data Interleaving (build : Build) (tid : ShortThreadId) (s : Machine) : Machine → Type 0 where
  start : Interleaving build tid s s
  and_then :
      {t u : Machine}
      → Interleaving build tid s t
      → Access build tid t u
      → Interleaving build tid s u
