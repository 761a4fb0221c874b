-- ===== src/Protocol/Accesses/Kept.antt =====
-- What an access to the shared word leaves alone: the biased word, and what threads know of it.
use mathlib.Core.Path.{subst}
use biasedrc_rs.Common.{ℕ, ◌<◌, ◌≡◌, ◌⊎◌, inl, inr, refl, sym, ap, false, Option, none, arith}
use biasedrc_rs.Exec.{done}
use biasedrc_rs.Ids.{ShortThreadId, IsShortThreadId}
use biasedrc_rs.Threads.Local.{LocalThreadStateFast, IsConsistent}
use biasedrc_rs.Words.Biased
use biasedrc_rs.Words.Biased.{BiasedWord}
use biasedrc_rs.Words.Shared.{SharedWord}
use biasedrc_rs.Header.{
  Build, RawBrcHeader, load_biased, increment_strong_shared, attempt_biased_increment,
  decrement_biased,
}
use biasedrc_rs.Protocol.Calls.{Reach}
use biasedrc_rs.Protocol.Invariant.{Reach-Inv}
use biasedrc_rs.Protocol.Accesses.{
  Pc, idle, adding, upgrading, upgrade_from, subtracting, subtract_from, announcing, pushing,
  flagging, disowning, merging, merge_from, unbiasing, destroying, Cells, Move, clone, add, upgrade,
  upgrade_load, upgrade_exchange, upgrade_retry, upgrade_dead, drop, subtract_load,
  subtract_exchange, subtract_retry, read_owner, push, destroy, after_exchange,
}
use biasedrc_rs.Protocol.Accesses.Whole.{Rest, seen_with, is_late}
use biasedrc_rs.Protocol.Accesses.Missed.{
  is_own, takes, missed_increment-takes, missed_decrement-is_own,
}
use biasedrc_rs.Protocol.Accesses.Anyone.{HasMissed, Move-whole}
use biasedrc_rs.Protocol.Accesses.Owner.{OwnerAt, OwnerState}

exchanged :
    (build : Build) (old new : SharedWord) {q : Pc}
    → after_exchange build old new ≡ done q
    → (q ≡ announcing) ⊎ ((q ≡ idle) ⊎ (q ≡ destroying))
unfolding after_exchange
exchanged build old new e = ground (arith, e)

added :
    (build : Build) (h : RawBrcHeader) {h' : RawBrcHeader}
    → increment_strong_shared build h ≡ done h'
    → h'.biased_word ≡ h.biased_word
unfolding increment_strong_shared
added build h e = ground (arith, e)

module _ {build : Build} {fast : LocalThreadStateFast} {m : Cells} where
  pub Move-biased_word :
      {p q : Pc} {m' : Cells}
      → Move build fast m p m' q
      → m'.header.biased_word ≡ m.header.biased_word
  Move-biased_word (clone _ _ _) = refl
  Move-biased_word (add _ _ call) = added build m.header call
  Move-biased_word (upgrade _ _) = refl
  Move-biased_word (upgrade_load _) = refl
  Move-biased_word (upgrade_exchange _ _ _) = refl
  Move-biased_word (upgrade_retry _ _) = refl
  Move-biased_word (upgrade_dead _ _) = refl
  Move-biased_word (drop _ _ _) = refl
  Move-biased_word (subtract_load _) = refl
  Move-biased_word (subtract_exchange _ _ _) = refl
  Move-biased_word (subtract_retry _ _) = refl
  Move-biased_word (read_owner _ _) = refl
  Move-biased_word (push _) = refl
  Move-biased_word (destroy _) = refl

  pub Move-is_late :
      {p q : Pc} {m' : Cells} → Move build fast m p m' q → (is_late p ≡ false) × (is_late q ≡ false)
  Move-is_late (clone e _ _) = (ap is_late e, refl)
  Move-is_late (add e _ _) = (ap is_late e, refl)
  Move-is_late (upgrade e _) = (ap is_late e, refl)
  Move-is_late (upgrade_load e) = (ap is_late e, refl)
  Move-is_late (upgrade_exchange e _ _) = (ap is_late e, refl)
  Move-is_late (upgrade_retry e _) = (ap is_late e, refl)
  Move-is_late (upgrade_dead e _) = (ap is_late e, refl)
  Move-is_late (drop e _ _) = (ap is_late e, refl)
  Move-is_late (subtract_load e) = (ap is_late e, refl)
  Move-is_late (subtract_exchange e _ after) = (
    ap is_late e,
    elim (exchanged build _ _ after) [
      | inl queued ↦ ap is_late queued
      | inr (inl kept) ↦ ap is_late kept
      | inr (inr last) ↦ ap is_late last
    ],
  )
  Move-is_late (subtract_retry e _) = (ap is_late e, refl)
  Move-is_late (read_owner e _) = (ap is_late e, refl)
  Move-is_late (push e) = (ap is_late e, refl)
  Move-is_late (destroy e) = (ap is_late e, refl)

-- An access to the shared word leaves what the owner knows of the biased word true.
module _ (build : Build) (tid : ShortThreadId) (fast : LocalThreadStateFast) (m : Cells)
    (on_clone : attempt_biased_increment build fast m.header ≡ done none
      → takes fast.short_id (load_biased build m.header) ≡ false)
    (on_drop : 0 < m.handles
      → decrement_biased build fast m.header ≡ done none
      → is_own fast.short_id (load_biased build m.header) ≡ false) where
  at_word :
      {p q : Pc}
      → p ≡ q
      → OwnerAt tid fast.short_id p (load_biased build m.header)
      → OwnerAt tid fast.short_id q (load_biased build m.header)
  at_word e i = subst (λ p. OwnerAt tid fast.short_id p (load_biased build m.header)) e i

  Move-OwnerAt :
      {p q : Pc} {m' : Cells}
      → Move build fast m p m' q
      → OwnerAt tid fast.short_id p (load_biased build m.header)
      → OwnerAt tid fast.short_id q (load_biased build m.header)
  Move-OwnerAt (clone _ _ missed) i = on_clone missed
  Move-OwnerAt (add _ _ _) i = tt
  Move-OwnerAt (upgrade _ missed) i = on_clone missed
  Move-OwnerAt (upgrade_load e) i = at_word e i
  Move-OwnerAt (upgrade_exchange _ _ _) i = tt
  Move-OwnerAt (upgrade_retry e _) i = at_word e i
  Move-OwnerAt (upgrade_dead _ _) i = tt
  Move-OwnerAt (drop _ alive missed) i = on_drop alive missed
  Move-OwnerAt (subtract_load e) i = at_word e i
  Move-OwnerAt (subtract_exchange _ _ after) i = elim (exchanged build _ _ after) [
    | inl queued ↦ at_word (sym queued) tt
    | inr (inl kept) ↦ at_word (sym kept) tt
    | inr (inr last) ↦ at_word (sym last) tt
  ]
  Move-OwnerAt (subtract_retry e _) i = at_word e i
  Move-OwnerAt (read_owner _ _) i = tt
  Move-OwnerAt (push _) i = tt
  Move-OwnerAt (destroy _) i = tt

-- What is known at `flagging` and in a merge is not about the shared word.
OwnerAt-HasMissed :
    (tid : ShortThreadId) (this : Option ℕ) (w : BiasedWord) (p : Pc)
    → OwnerAt tid this p w
    → HasMissed this p w
OwnerAt-HasMissed tid this w adding i = i
OwnerAt-HasMissed tid this w upgrading i = i
OwnerAt-HasMissed tid this w (upgrade_from _) i = i
OwnerAt-HasMissed tid this w subtracting i = i
OwnerAt-HasMissed tid this w (subtract_from _) i = i
OwnerAt-HasMissed tid this w idle i = tt
OwnerAt-HasMissed tid this w announcing i = tt
OwnerAt-HasMissed tid this w pushing i = tt
OwnerAt-HasMissed tid this w flagging i = tt
OwnerAt-HasMissed tid this w (disowning _) i = tt
OwnerAt-HasMissed tid this w (merging _) i = tt
OwnerAt-HasMissed tid this w (merge_from _ _) i = tt
OwnerAt-HasMissed tid this w (unbiasing _) i = tt
OwnerAt-HasMissed tid this w destroying i = tt

-- A thread that is not the owner misses everywhere.
pub foreign-HasMissed :
    (this : Option ℕ) (w : BiasedWord) → is_own this w ≡ false → (p : Pc) → HasMissed this p w
foreign-HasMissed this w e adding = ground (arith, e)
foreign-HasMissed this w e upgrading = ground (arith, e)
foreign-HasMissed this w e (upgrade_from _) = ground (arith, e)
foreign-HasMissed this w e subtracting = e
foreign-HasMissed this w e (subtract_from _) = e
foreign-HasMissed this w e idle = tt
foreign-HasMissed this w e announcing = tt
foreign-HasMissed this w e pushing = tt
foreign-HasMissed this w e flagging = tt
foreign-HasMissed this w e (disowning _) = tt
foreign-HasMissed this w e (merging _) = tt
foreign-HasMissed this w e (merge_from _ _) = tt
foreign-HasMissed this w e (unbiasing _) = tt
foreign-HasMissed this w e destroying = tt

module _ {build : Build} {tid : ShortThreadId} (h : IsShortThreadId tid) (c : Rest) {m : Cells}
    (fast : LocalThreadStateFast) (consistent : IsConsistent fast) where
  -- The thread that acts for the owner may act on the shared word as any other.
  pub own_move :
      {p q : Pc} {m' : Cells}
      → OwnerState build tid fast.short_id c m p
      → Move build fast m p m' q
      → OwnerState build tid fast.short_id c m' q
  own_move {p} {q} {m'} (r, at_) move =
      let (before, after) = Move-is_late move in
      let prompt = record c { late = false } in
      let r' : Reach build tid false (seen_with build prompt m p) =
        subst (λ b. Reach build tid false (seen_with build (record c { late = b }) m p)) before r in
      let inv = Reach-Inv h r' in
      let missed = OwnerAt-HasMissed tid fast.short_id (load_biased build m.header) p at_ in
      let moved = Move-whole h prompt m fast consistent r' missed move in
      let known =
        Move-OwnerAt build tid fast m (missed_increment-takes inv fast consistent)
          (λ alive. missed_decrement-is_own inv fast consistent (omega (arith, alive))) move at_ in
      (
        subst (λ b. Reach build tid false (seen_with build (record c { late = b }) m' q))
            (sym after) moved,
        subst (λ w. OwnerAt tid fast.short_id q (Biased.from_raw build.int w))
            (sym (Move-biased_word move)) known,
      )
