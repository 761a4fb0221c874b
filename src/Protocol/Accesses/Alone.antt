-- ===== src/Protocol/Accesses/Alone.antt =====
-- A drop that no other thread interferes with, from its first access to its last.
use mathlib.Core.Path.{subst}
use biasedrc_rs.Common.{
  Bool, ◌-◌, ◌<◌, ◌≡◌, ◌⊎◌, inl, inr, refl, sym, ap, ◌∙◌, false, ◌&&◌, ◌||◌, none, some, List, ◌∷◌,
  ◌++◌, ◌+◌, true, [], if◌then◌else◌, pos, ◌-ℤ◌, is_neg, is_zero, arith,
}
use biasedrc_rs.Exec.{done}
use biasedrc_rs.Threads.Local.{LocalThreadStateFast, IsConsistent}
use biasedrc_rs.Ids.{ShortThreadId, IsShortThreadId}
use biasedrc_rs.Words.Shared.{SharedWord, of_bool}
use biasedrc_rs.Words.Shared
use biasedrc_rs.Header.{
  RawBrcHeader, Decremented, decrement_strong, queue_owner, Build, load_shared, decrement_biased,
  decrement_word, bool_eq,
}
use biasedrc_rs.View.{View, encode, Fits, load_shared-encode}
use biasedrc_rs.View.Decrement.{CanSubtract}
use biasedrc_rs.View.Invariant.{IsView-Fits, HasReference, HasReference-room, IsView-CanSubtract}
use biasedrc_rs.Protocol.Invariant.{Inv, Reach-Inv}
use biasedrc_rs.Protocol.Calls.{requests}
use biasedrc_rs.Protocol.Safety.{drop_returns}
use biasedrc_rs.Protocol.Accesses.{
  Pc, idle, subtracting, announcing, destroying, Thread, Machine, Cells, Move, drop, subtract_load,
  subtract_exchange, read_owner, push, destroy, after_exchange, finish, with_word, Interleaving,
  start, and_then, by_other,
}
use biasedrc_rs.Protocol.Accesses.Anyone.{IsDropped, drop_whole}
use biasedrc_rs.Protocol.Accesses.Whole.{whole, settle, is_late}
use biasedrc_rs.Protocol.Accesses.Missed.{foreign-is_own, missed_decrement}
use biasedrc_rs.Protocol.Accesses.Atomicity.{
  IsOther, All, All-middle, IsBystander, launched, IsTracked, Interleaving-IsTracked,
}
use biasedrc_rs.Protocol.Accesses.Death.{owner_found, other_stands}

module _ (build : Build) {v : View} (fits : Fits v) (can : CanSubtract v) where
  open build use {int}

  abbrev subtracted : SharedWord
  subtracted =
      let count = v.count -ℤ pos 1 in
      record { shared_count = count; merged = v.merged; queued = is_neg count || v.queued }

  word_subtracted : decrement_word build (load_shared build (encode int v)) ≡ done (some subtracted)
  unfolding decrement_word
  word_subtracted = ground (
    arith,
    load_shared-encode build fits,
    can.room,
    int.i62_checked_sub_lem v.count (pos 1) fits.count (omega arith),
  )

  exchange_ends :
      (q : Pc) × (after_exchange build (load_shared build (encode int v)) subtracted ≡ done q)
      × ((q ≡ announcing) ⊎ ((q ≡ idle) ⊎ (q ≡ destroying)))
  unfolding after_exchange
  exchange_ends =
      let q =
        if bool_eq v.queued (is_neg (v.count -ℤ pos 1) || v.queued)
        then finish (v.merged && is_zero (v.count -ℤ pos 1))
        else announcing in
      (q, ground (arith, load_shared-encode build fits, can.enough), ground arith)

Interleaving-append :
    {build : Build} {tid : ShortThreadId} {s t u : Machine}
    → Interleaving build tid s t
    → Interleaving build tid t u
    → Interleaving build tid s u
Interleaving-append run start = run
Interleaving-append run (and_then rest last) = and_then (Interleaving-append run rest) last

-- The machine with one of the other threads, `t`, at a place.
abbrev pub with_thread : Machine → List Thread → List Thread → Thread → Cells → Pc → Machine
with_thread s before after t m q = record s {
  cells = m;
  others = before ++ record t { pc = q } ∷ after;
}

abbrev pub begun : Cells → Cells
begun m = record m { handles = m.handles - 1 }

-- What a drop as a whole leaves.
abbrev pub dropped : Cells → Decremented → Cells
dropped m d = record {
  header = d.header;
  handles = m.handles - 1;
  enqueued = m.enqueued + requests d.queue_to;
  destroyed = m.destroyed + of_bool d.result.should_drop;
}

abbrev pub is_idle : Pc → Bool
is_idle idle = true
is_idle _ = false

-- Accesses of one thread, from the cells `m` and the place `p` in a call, none of which begins another
-- call.
pub data InCall (build : Build) (fast : LocalThreadStateFast) (m : Cells) (p : Pc)
    : Cells → Pc → Type 0 where
  here : InCall build fast m p m p
  on :
      {k l : Cells} {q r : Pc}
      → InCall build fast m p k q
      → is_idle q ≡ false
      → Move build fast k q l r
      → InCall build fast m p l r

Cells-≡ :
    {m k : Cells}
    → m.header ≡ k.header
    → m.handles ≡ k.handles
    → m.enqueued ≡ k.enqueued
    → m.destroyed ≡ k.destroyed
    → m ≡ k
Cells-≡ a b c d = cc (a, b, c, d)

module _ {build : Build} {fast : LocalThreadStateFast} {k : Cells} {p : Pc} where
  at_idle : {m n : Cells} → m ≡ n → InCall build fast k p m idle → InCall build fast k p n idle
  at_idle e run = subst (λ m. InCall build fast k p m idle) e run

  at_place : {m : Cells} {q r : Pc} → q ≡ r → InCall build fast k p m q → InCall build fast k p m r
  at_place {m} e run = subst (λ r. InCall build fast k p m r) e run

  -- What is left of a drop after the exchange.
  ended :
      (m : Cells) (q : Pc) (d : Decremented) {new : SharedWord} {h : RawBrcHeader}
      → m.header ≡ record h { shared_word = Shared.to_raw build.int new }
      → IsDropped build false h new q d
      → (q ≡ announcing) ⊎ ((q ≡ idle) ⊎ (q ≡ destroying))
      → (q ≡ announcing → (id : ShortThreadId) × (queue_owner build m.header ≡ done id))
      → InCall build fast k p m q
      → InCall build fast k p
          (record {
            header = d.header;
            handles = m.handles;
            enqueued = m.enqueued + requests d.queue_to;
            destroyed = m.destroyed + of_bool d.result.should_drop;
          })
          idle
  ended m q d same whole_ (inr (inl e)) found run =
      at_idle
        (Cells-≡ (same ∙ sym whole_.header) refl (ground (arith, whole_.announces, e))
          (ground (arith, whole_.due, e)))
        (at_place e run)
  ended m q d same whole_ (inr (inr e)) found run =
      at_idle
        (Cells-≡ (same ∙ sym whole_.header) refl (ground (arith, whole_.announces, e))
          (ground (arith, whole_.due, e)))
        (on (at_place e run) refl (destroy refl))
  ended m q d same whole_ (inl e) found run =
      at_idle
        (Cells-≡ (same ∙ sym whole_.header) refl (ground (arith, whole_.announces, e))
          (ground (arith, whole_.due, e)))
        (on (on (at_place e run) refl (read_owner refl (found e).1)) refl (push refl))

-- In the machine the other threads stand still.
alone :
    {build : Build} {tid : ShortThreadId} {s : Machine} (before after : List Thread) (t : Thread)
    {m : Cells} {p : Pc} {k : Cells} {q : Pc}
    → Interleaving build tid s (with_thread s before after t m p)
    → InCall build t.fast m p k q
    → Interleaving build tid s (with_thread s before after t k q)
alone before after t first here = first
alone before after t first (on {q} run inside move) =
    and_then (alone before after t first run)
      (by_other before after (record t { pc = q }) refl move)

module _ {build : Build} {tid : ShortThreadId} (h : IsShortThreadId tid) {others : List Thread}
    (bystanding : All (IsBystander tid) others) {s : Machine}
    (run : Interleaving build tid (launched build tid others) s) (before after : List Thread)
    (t : Thread) where
  -- In each state of a run without hasty clones in which there is a reference that no call has in
  -- hand, and the owner is not about to give up the ownership, let another thread be in no call. It can
  -- begin a drop, and accesses of that thread alone, all within this call, carry it out: the call of
  -- `decrement_strong` as a whole returns, and the accesses end with the header that it returns, one
  -- reference less, the object in the queue of its owner if it is to be queued, and one more call of the
  -- destructor if that is due.
  pub drop_alone :
      s.others ≡ before ++ t ∷ after
      → t.pc ≡ idle
      → 0 < s.cells.handles
      → is_late s.owner.pc ≡ false
      → (d : Decremented) × (decrement_strong build t.fast [] s.cells.header ≡ done d)
        × Move build t.fast s.cells t.pc (begun s.cells) subtracting
        × InCall build t.fast (begun s.cells) subtracting (dropped s.cells d) idle
  drop_alone e idle_ alive prompt = (
    returned.0,
    returns,
    drop idle_ alive missed,
    ended _ q returned.0 refl
        (drop_whole build t.fast false s.cells.header missed returns word_ exchanged) ends found
        over,
  )
    where
      tracked : IsTracked build tid s
      tracked = Interleaving-IsTracked h bystanding run

      inv : Inv build tid (whole build s)
      inv = Reach-Inv h tracked.reach

      view : View
      view = inv.view

      real : (whole build s).header ≡ s.cells.header
      real = ap (λ b. settle build b s.cells.header) prompt

      same : s.cells.header ≡ encode build.int view
      same = sym real ∙ inv.same

      fits : Fits view
      fits = IsView-Fits view inv.shared.valid

      has : HasReference view
      has = ground (arith, inv.counted, alive)

      can : CanSubtract view
      can =
          IsView-CanSubtract view inv.shared.valid has (HasReference-room view inv.shared.valid has)

      other : IsOther tid t
      other = All-middle (IsOther tid) before after t (subst (All (IsOther tid)) e tracked.others)

      consistent : IsConsistent t.fast
      consistent = other.0

      missed : decrement_biased build t.fast s.cells.header ≡ done none
      missed =
          ap (decrement_biased build t.fast) (sym real)
          ∙ missed_decrement inv t.fast consistent (foreign-is_own inv t.fast.short_id other.1)

      returned :
          (d : Decremented) × (decrement_strong build t.fast [] (whole build s).header ≡ done d)
      returned = drop_returns h tracked.reach t.fast consistent (omega (arith, alive))

      returns : decrement_strong build t.fast [] s.cells.header ≡ done returned.0
      returns = ap (decrement_strong build t.fast []) (sym real) ∙ returned.1

      new : SharedWord
      new = subtracted build fits can

      word_ : decrement_word build (load_shared build s.cells.header) ≡ done (some new)
      word_ =
          ap (λ x. decrement_word build (load_shared build x)) same ∙ word_subtracted build fits can

      q : Pc
      q = (exchange_ends build fits can).0

      ends : (q ≡ announcing) ⊎ ((q ≡ idle) ⊎ (q ≡ destroying))
      ends = (exchange_ends build fits can).2

      exchanged : after_exchange build (load_shared build s.cells.header) new ≡ done q
      exchanged =
          ap (λ x. after_exchange build (load_shared build x) new) same
          ∙ (exchange_ends build fits can).1

      over :
          InCall build t.fast
            (begun s.cells)
            subtracting
            (record (begun s.cells) { header = with_word build s.cells new })
            q
      over = on (on here refl (subtract_load refl)) refl (subtract_exchange refl word_ exchanged)

      found :
          q ≡ announcing
          → (id : ShortThreadId) × (queue_owner build (with_word build s.cells new) ≡ done id)
      found e' =
          let dropping = and_then start (by_other before after t e (drop idle_ alive missed)) in
          (
            _,
            owner_found h bystanding (Interleaving-append run (alone before after t dropping over))
                (other_stands before after (record t { pc = q }) refl e'),
          )
