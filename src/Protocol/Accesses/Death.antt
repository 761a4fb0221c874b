-- ===== src/Protocol/Accesses/Death.antt =====
-- What threads find, and what they may still touch, at the end of an object.
use biasedrc_rs.Common.{
  ◌+◌, ◌<◌, ◌≡◌, sym, ap, ◌∙◌, Bool, true, false, ◌||◌, none, some, List, [], ◌∷◌, ◌++◌, arith,
}
use biasedrc_rs.Exec.{done}
use biasedrc_rs.Ids.{ShortThreadId, IsShortThreadId}
use biasedrc_rs.Words.Biased
use biasedrc_rs.Words.Biased.{unowned, BiasedWord}
use biasedrc_rs.Header.{Build, RawBrcHeader, load_biased, queue_owner}
use biasedrc_rs.Protocol.Invariant.{Inv, Reach-Inv}
use biasedrc_rs.Protocol.Safety.{destroyed_last}
use biasedrc_rs.Protocol.Accesses.{
  Pc, idle, upgrading, upgrade_from, announcing, Thread, Machine, Interleaving,
}
use biasedrc_rs.Protocol.Accesses.Whole.{
  whole, settle, is_late, total, total-append, held, announces, merges, due,
}
use biasedrc_rs.Protocol.Accesses.Missed.{Inv-biased}
use biasedrc_rs.Protocol.Accesses.Atomicity.{
  IsOther, All, IsBystander, launched, IsTracked, Interleaving-IsTracked,
}

-- A thread that stands at a place.
pub data Stands (p : Pc) (s : Machine) : Type 0 where
  owner_stands : s.owner.pc ≡ p → Stands p s
  other_stands :
      (before after : List Thread) (t : Thread)
      → s.others ≡ before ++ t ∷ after
      → t.pc ≡ p
      → Stands p s

-- The places of a thread that has no call on a strong reference under way.
abbrev pub is_over : Pc → Bool
is_over idle = true
is_over upgrading = true
is_over (upgrade_from _) = true
is_over _ = false

Stands-announcing :
    (build : Build) (s : Machine) → Stands announcing s → 0 < (whole build s).announced
Stands-announcing build s (owner_stands e) = ground (arith, e)
Stands-announcing build s (other_stands before after t e stands) =
    let n : total announces s.others ≡ total announces before + total announces (t ∷ after) =
      ap (total announces) e ∙ total-append announces before (t ∷ after) in
    let one : announces t.pc ≡ 1 = ap announces stands in omega (arith, n, one)

-- A word that still has an owner has not been given up.
prompt_owner :
    (build : Build) (tid : ShortThreadId) (late : Bool) (header : RawBrcHeader)
    → (load_biased build (settle build late header)).owner_id ≡ some tid
    → (load_biased build header).owner_id ≡ some tid
prompt_owner build tid true header e =
    let given_up =
      Biased.from_raw-to_raw_biased build.int unowned
        (record { owner = tt; count = omega arith }) in
    let apart : none ≡ some tid = sym (ap (λ (w : BiasedWord). w.owner_id) given_up) ∙ e in
    absurd (ground (arith, apart))
prompt_owner build tid false header e = e

over :
    (p : Pc)
    → held p ≡ 0
    → announces p ≡ 0
    → merges p ≡ 0
    → due p ≡ 0
    → (is_over p || is_late p) ≡ true
over p a b c d = ground (arith, a, b, c, d)

All-over :
    (tid : ShortThreadId) (ts : List Thread)
    → All (IsOther tid) ts
    → total held ts ≡ 0
    → total announces ts ≡ 0
    → total merges ts ≡ 0
    → total due ts ≡ 0
    → All (λ t. is_over t.pc ≡ true) ts
All-over tid [] others a b c d = tt
All-over tid (t ∷ ts) ((_, _, prompt), others) a b c d = (
  ground (
    arith,
    prompt,
    over t.pc (omega (arith, a)) (omega (arith, b)) (omega (arith, c)) (omega (arith, d)),
  ),
  All-over tid ts others (omega (arith, a)) (omega (arith, b)) (omega (arith, c))
      (omega (arith, d)),
)

module _ {build : Build} {tid : ShortThreadId} (h : IsShortThreadId tid) {others : List Thread}
    (bystanding : All (IsBystander tid) others) {s : Machine}
    (run : Interleaving build tid (launched build tid others) s) where
  abbrev tracked : IsTracked build tid s
  tracked = Interleaving-IsTracked h bystanding run

  abbrev inv : Inv build tid (whole build s)
  inv = Reach-Inv h tracked.reach

  -- Whatever the order in which threads access the memory, in a run without hasty clones, a thread
  -- that is about to queue the object finds the id of the owner in the biased word.
  pub owner_found : Stands announcing s → queue_owner build s.cells.header ≡ done tid
  unfolding queue_owner
  owner_found stands =
      let i = inv in
      let some_announced = Stands-announcing build s stands in
      let unmerged : i.view.merged ≡ false = ground (arith, i.waiting, some_announced) in
      let owned : (load_biased build (settle build (is_late s.owner.pc) s.cells.header)).owner_id
          ≡ some tid =
        ap (λ (w : BiasedWord). w.owner_id) (Inv-biased i) ∙ i.shared.owned unmerged in
      ground (arith, prompt_owner build tid (is_late s.owner.pc) s.cells.header owned)

  -- Whatever the order in which threads access the memory, in a run without hasty clones, once the
  -- destructor has been called, it has been called once, no reference is left and the queue is empty,
  -- and every thread is out of the calls on strong references and of the merge, unless the thread that
  -- acts for the owner has still to give up the ownership.
  pub destroyed_last_access :
      0 < s.cells.destroyed
      → (s.cells.destroyed ≡ 1)
        × (s.cells.handles ≡ 0)
        × (s.cells.enqueued ≡ 0)
        × ((is_over s.owner.pc || is_late s.owner.pc) ≡ true)
        × All (λ t. is_over t.pc ≡ true) s.others
  destroyed_last_access d =
      let (once, unheld, unannounced, unqueued) =
        destroyed_last h tracked.reach (omega (arith, d)) in
      (
        omega (arith, once, d),
        omega (arith, unheld),
        omega (arith, unqueued),
        over s.owner.pc (omega (arith, unheld)) (omega (arith, unannounced))
            (omega (arith, unqueued)) (omega (arith, once, d)),
        All-over tid s.others tracked.others (omega (arith, unheld)) (omega (arith, unannounced))
            (omega (arith, unqueued)) (omega (arith, once, d)),
      )
