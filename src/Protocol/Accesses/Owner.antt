-- ===== src/Protocol/Accesses/Owner.antt =====
-- Each access of the thread that acts for the owner is a call as a whole, or none.
use mathlib.Core.Path.{subst}
use biasedrc_rs.Common.{
  ℕ, ℤ, ◌+◌, ◌-◌, ◌<◌, ◌≡◌, refl, Bool, true, false, Option, some, is_zero, arith,
}
use biasedrc_rs.Exec.{done}
use biasedrc_rs.Ids.{ShortThreadId, IsShortThreadId}
use biasedrc_rs.Threads.Local.{LocalThreadStateFast, IsConsistent}
use biasedrc_rs.Words.Biased.{BiasedWord}
use biasedrc_rs.Words.Shared
use biasedrc_rs.Words.Shared.{SharedWord, of_bool}
use biasedrc_rs.Header.{
  Build, RawBrcHeader, Decremented, load_biased, attempt_biased_increment, decrement_biased,
  merge_word, merge_shared,
}
use biasedrc_rs.Protocol.Calls
use biasedrc_rs.Protocol.Calls.{System, Reach, next, is_hasty}
use biasedrc_rs.Protocol.Invariant.{Reach-Inv}
use biasedrc_rs.Protocol.Accesses.{
  Pc, idle, flagging, disowning, merging, merge_from, unbiasing, Cells, OwnMove, clone_biased,
  upgrade_biased, drop_biased, drop_last, flag, disown, pop, merge_load, merge_exchange,
  merge_retry, unbias, finish, after_merge, word_of, disowned,
}
use biasedrc_rs.Protocol.Accesses.Whole.{Rest, seen_with, is_late}
use biasedrc_rs.Protocol.Accesses.Anyone.{Reach-same, HasMissed}
use biasedrc_rs.Protocol.Accesses.OwnCalls.{owned_word, own_clone, own_drop, last_drop, whole_merge}

-- What the thread knows of the biased word, by the place where it stands.
abbrev pub OwnerAt : ShortThreadId → Option ℕ → Pc → BiasedWord → Type 0
OwnerAt tid this flagging w = (w ≡ owned_word tid 1) × (this ≡ some tid)
OwnerAt tid this (merging n) w = w ≡ owned_word tid n
OwnerAt tid this (merge_from n _) w = w ≡ owned_word tid n
OwnerAt tid this p w = HasMissed this p w

abbrev pub with_late : Rest → Pc → Rest
with_late c p = record c { late = is_late p }

-- What an access of the thread leaves.
abbrev pub OwnerState : Build → ShortThreadId → Option ℕ → Rest → Cells → Pc → Type 0
OwnerState build tid this c m p =
    Reach build tid false (seen_with build (with_late c p) m p)
    × OwnerAt tid this p (load_biased build m.header)

module _ {build : Build} {tid : ShortThreadId} (h : IsShortThreadId tid) (c : Rest) (m : Cells)
    (fast : LocalThreadStateFast) (consistent : IsConsistent fast) where
  open build use {int}

  at_owner :
      {p q : Pc}
      → p ≡ q
      → OwnerState build tid fast.short_id c m p
      → OwnerState build tid fast.short_id c m q
  at_owner e r = subst (OwnerState build tid fast.short_id c m) e r

  clone_step :
      {h' : RawBrcHeader}
      → 0 < m.handles
      → attempt_biased_increment build fast m.header ≡ done (some h')
      → OwnerState build tid fast.short_id c m idle
      → OwnerState build tid fast.short_id c
          (record m { header = h'; handles = m.handles + 1 })
          idle
  clone_step alive e (r, _) =
      let (calm, call, _) = own_clone (Reach-Inv h r) fast consistent e in
      (
        Reach-same h (next r (Calls.clone fast consistent (omega (arith, alive)) calm call)) refl
            (omega arith) refl refl refl,
        tt,
      )

  upgrade_step :
      {h' : RawBrcHeader}
      → attempt_biased_increment build fast m.header ≡ done (some h')
      → OwnerState build tid fast.short_id c m idle
      → OwnerState build tid fast.short_id c
          (record m { header = h'; handles = m.handles + 1 })
          idle
  upgrade_step e (r, _) =
      let (calm, _, call) = own_clone (Reach-Inv h r) fast consistent e in
      (
        Reach-same h (next r (Calls.upgrade fast consistent calm call)) refl (omega arith) refl refl
            refl,
        tt,
      )

  drop_step :
      {r' : Decremented}
      → 0 < m.handles
      → 1 < (load_biased build m.header).biased_count
      → decrement_biased build fast m.header ≡ done (some r')
      → OwnerState build tid fast.short_id c m idle
      → OwnerState build tid fast.short_id c
          (record m { header = r'.header; handles = m.handles - 1 })
          idle
  drop_step alive many e (r, _) =
      let (call, kept, unqueued) =
        own_drop (Reach-Inv h r) fast consistent (omega (arith, alive)) many e in
      (
        Reach-same h (next r (Calls.drop fast consistent (omega (arith, alive)) call)) refl
            (omega (arith, alive)) (ground (arith, unqueued)) refl (ground (arith, kept)),
        tt,
      )

  flag_step :
      OwnerState build tid fast.short_id c m flagging
      → OwnerState build tid fast.short_id c
          (record m { header = merge_shared build m.header })
          (disowning (is_zero (word_of build m).shared_count))
  flag_step (r, (word, own)) =
      let call = last_drop (Reach-Inv h r) fast consistent (omega arith) word own in
      (
        Reach-same h (next r (Calls.drop fast consistent (omega arith) call)) refl (omega arith)
            (omega arith) refl (omega arith),
        tt,
      )

  merge_step :
      {n : ℕ} {new : SharedWord} (seen : ℕ)
      → merge_word build n (word_of build m) ≡ done (some new)
      → OwnerState build tid fast.short_id c m (merge_from n seen)
      → OwnerState build tid fast.short_id c
          (record m { header = record m.header { shared_word = Shared.to_raw int new } })
          (unbiasing new.shared_count)
  merge_step seen e (r, word) =
      let call = whole_merge (Reach-Inv h r) word e in
      (
        Reach-same h (next r (Calls.merge (omega arith) call)) refl (omega arith) refl (omega arith)
            (omega arith),
        tt,
      )

  -- The store of `UNOWNED`, after which the destructor is called if that is due.
  disown_step :
      (should_drop : Bool)
      → OwnerState build tid fast.short_id c m (disowning should_drop)
      → OwnerState build tid fast.short_id c (disowned build m) (finish should_drop)
  disown_step true (r, _) = (r, tt)
  disown_step false (r, _) = (r, tt)

after_merge-finish : (count : ℤ) {q : Pc} → after_merge count ≡ done q → finish (is_zero count) ≡ q
unfolding after_merge
after_merge-finish count e = ground (arith, e)

module _ {build : Build} {tid : ShortThreadId} (h : IsShortThreadId tid) (c : Rest) {m : Cells}
    (fast : LocalThreadStateFast) (consistent : IsConsistent fast) where
  -- An access of the thread that acts for the owner leaves a state that calls as wholes reach, where it
  -- started in one.
  pub OwnMove-whole :
      {p q : Pc} {m' : Cells}
      → OwnerState build tid fast.short_id c m p
      → OwnMove build tid fast m p m' q
      → OwnerState build tid fast.short_id c m' q
  OwnMove-whole r (clone_biased e alive call) =
      clone_step h c m fast consistent alive call (at_owner h c m fast consistent e r)
  OwnMove-whole r (upgrade_biased e call) =
      upgrade_step h c m fast consistent call (at_owner h c m fast consistent e r)
  OwnMove-whole r (drop_biased e alive many call) =
      drop_step h c m fast consistent alive many call (at_owner h c m fast consistent e r)
  OwnMove-whole r (drop_last e alive word own) =
      let (r', _) = at_owner h c m fast consistent e r in
      (Reach-same h r' refl (omega (arith, alive)) refl refl refl, (word, own))
  OwnMove-whole r (flag e _ _) =
      flag_step h c m fast consistent (at_owner h c m fast consistent e r)
  OwnMove-whole r (disown {should_drop} e) =
      disown_step h c m fast consistent should_drop (at_owner h c m fast consistent e r)
  OwnMove-whole r (pop e some_queued own) =
      let (r', _) = at_owner h c m fast consistent e r in
      (Reach-same h r' refl refl refl (omega (arith, some_queued)) refl, ground (arith, own))
  OwnMove-whole r (merge_load e) = at_owner h c m fast consistent e r
  OwnMove-whole r (merge_exchange e call) =
      merge_step h c m fast consistent m.header.shared_word call
        (at_owner h c m fast consistent e r)
  OwnMove-whole r (merge_retry e _) = at_owner h c m fast consistent e r
  OwnMove-whole r (unbias {count} e call) =
      at_owner h c (disowned build m) fast consistent (after_merge-finish count call)
        (disown_step h c m fast consistent (is_zero count) (at_owner h c m fast consistent e r))
