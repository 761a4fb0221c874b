-- ===== src/Protocol/Accesses/Late.antt =====
-- What a late store leads to: the owner gives up the ownership of an object that is destroyed.
use biasedrc_rs.Common.{
  ℕ, ◌<◌, ◌≡◌, refl, ap, ◌∙◌, Bool, true, false, none, some, [], ◌∷◌, ℤ, pos, arith,
}
use biasedrc_rs.Exec.{done}
use biasedrc_rs.Ids.{ShortThreadId, IsShortThreadId}
use biasedrc_rs.Threads.Local.{initial_fast}
use biasedrc_rs.Words.Shared.{SharedWord}
use biasedrc_rs.Header.{
  Build, RawBrcHeader, load_shared, init_header, merge_shared, increment_strong_shared,
  decrement_biased, decrement_word,
}
use biasedrc_rs.View.{
  View, encode, Fits, shared_of, load_shared-encode, load_biased-encode, to_raw-merge,
}
use biasedrc_rs.View.Increment.{attempt_foreign, increment_shared}
use biasedrc_rs.View.Decrement.{biased_foreign}
use biasedrc_rs.Protocol.Calls.{waits}
use biasedrc_rs.Protocol.Accesses.{
  Pc, idle, adding, disowning, destroying, subtracting, subtract_from, Thread, Machine, clone, add,
  drop, subtract_load, subtract_exchange, destroy, drop_last, flag, after_exchange, as_owner,
  by_other, Interleaving, start, and_then,
}
use biasedrc_rs.Protocol.Accesses.Atomicity.{launched}

abbrev pub bystander : Thread
bystander = record { fast = initial_fast; pc = idle }

module _ (build : Build) (tid : ShortThreadId) (h : IsShortThreadId tid) where
  open build use {int}

  abbrev one_each : ℤ → Bool → View
  one_each count merged = record {
    owner = some tid;
    biased = 1;
    count = count;
    merged = merged;
    queued = false;
  }

  one_each-Fits : (n : ℕ) (merged : Bool) → n < 2 → Fits (one_each (pos n) merged)
  one_each-Fits n merged small = record { count = omega arith; owner = h; biased = omega arith }

  unmerged-Fits : (n : ℕ) → n < 2 → Fits (one_each (pos n) false)
  unmerged-Fits n small = one_each-Fits n false small

  -- After the owner's `fetch_or`.
  abbrev flagged_header : RawBrcHeader
  flagged_header = merge_shared build (encode int (one_each (pos 1) false))

  flagged_header_lem : flagged_header ≡ encode int (one_each (pos 1) true)
  flagged_header_lem =
      ap
        (λ w. record {
          shared_word = w;
          biased_word = (encode int (one_each (pos 1) true)).biased_word;
        })
        (to_raw-merge int (shared_of (one_each (pos 1) false))
          (unmerged-Fits 1 (omega arith)).count)

  flagged_word : load_shared build flagged_header ≡ shared_of (one_each (pos 1) true)
  flagged_word =
      ap (load_shared build) flagged_header_lem
      ∙ load_shared-encode build (one_each-Fits 1 true (omega arith))

  abbrev last_word : SharedWord
  last_word = record { shared_count = pos 0; merged = true; queued = false }

  last_subtraction : decrement_word build (load_shared build flagged_header) ≡ done (some last_word)
  unfolding decrement_word
  last_subtraction =
      ground
        (arith, flagged_word, int.i62_checked_sub_lem (pos 1) (pos 1) (omega arith) (omega arith))

  last_exchange :
      after_exchange build (load_shared build flagged_header) last_word ≡ done destroying
  unfolding after_exchange
  last_exchange = ground (arith, flagged_word)

  missed_drop : decrement_biased build initial_fast flagged_header ≡ done none
  missed_drop =
      ap (decrement_biased build initial_fast) flagged_header_lem
      ∙ biased_foreign build initial_fast tt (one_each-Fits 1 true (omega arith)) refl

  word_of_one :
      load_shared build (encode int (one_each (pos 1) false)) ≡ shared_of (one_each (pos 1) false)
  word_of_one = load_shared-encode build (unmerged-Fits 1 (omega arith))

  first_clone :
      increment_strong_shared build (encode int (one_each (pos 0) false))
      ≡ done (encode int (one_each (pos 1) false))
  first_clone =
      increment_shared build initial_fast tt (unmerged-Fits 0 (omega arith))
        (record { no_carry = λ e. ground (arith, e); room = refl })

  calm : waits build (encode int (one_each (pos 0) false)) ≡ false
  calm = ground (arith, load_shared-encode build (unmerged-Fits 0 (omega arith)))

  abbrev standing : Pc → Thread
  standing p = record bystander { pc = p }

  -- A run without hasty clones reaches a state in which the destructor has been called and the owner
  -- is still to store that it gives up the ownership, whatever the owner's id. Another thread clones
  -- the owner's reference; the owner drops its own, and sets the merged flag; the other thread drops
  -- the last one, and destroys the object, before the owner's store.
  pub stored_after_destroyed :
      (s : Machine) × Interleaving build tid (launched build tid (bystander ∷ [])) s
      × (s.cells.destroyed ≡ 1)
      × (s.owner.pc ≡ disowning false)
  unfolding init_header
  stored_after_destroyed =
      let missed = attempt_foreign build initial_fast tt (unmerged-Fits 0 (omega arith)) refl in
      let cloning =
        and_then start (by_other [] [] bystander refl (clone refl (omega arith) missed)) in
      let cloned =
        and_then cloning (by_other [] [] (standing adding) refl (add refl calm first_clone)) in
      let last = load_biased-encode build (unmerged-Fits 1 (omega arith)) in
      let dropping = and_then cloned (as_owner (drop_last refl (omega arith) last refl)) in
      let flagged =
        and_then dropping
          (as_owner (flag refl (ground (arith, word_of_one)) (ground (arith, word_of_one)))) in
      let releasing =
        and_then flagged (by_other [] [] bystander refl (drop refl (omega arith) missed_drop)) in
      let loaded =
        and_then releasing (by_other [] [] (standing subtracting) refl (subtract_load refl)) in
      let exchanged = and_then loaded (
        by_other [] [] (standing (subtract_from _)) refl
          (subtract_exchange refl last_subtraction last_exchange)) in
      let over = and_then exchanged (by_other [] [] (standing destroying) refl (destroy refl)) in
      (_, over, refl, ap disowning (ground (arith, word_of_one)))
