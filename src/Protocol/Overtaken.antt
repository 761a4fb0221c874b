-- ===== src/Protocol/Overtaken.antt =====
-- What a hasty upgrade leads to: the owner destroys an object that is still on its way to the queue.
use biasedrc_rs.Common.{ℕ, ◌≡◌, refl, ap, ◌∙◌, ◌<◌, true, some, [], pos, arith}
use biasedrc_rs.Exec.{done}
use biasedrc_rs.Ids.{ShortThreadId, IsShortThreadId}
use biasedrc_rs.Threads.Local.{initial_fast}
use biasedrc_rs.Header.{Build, init_header, increment_strong_unless_zero, decrement_strong}
use biasedrc_rs.View.{View, encode, Fits, Effect, decremented_owned}
use biasedrc_rs.View.Invariant.{IsView-Fits}
use biasedrc_rs.View.Upgrade.{upgraded, increment_strong_unless_zero-upgraded}
use biasedrc_rs.View.Decrement.{encode_effect, decrement_strong-decremented, decremented_own}
use biasedrc_rs.Protocol.Calls.{System, clone, upgrade, drop, Reach, here, next}
use biasedrc_rs.Protocol.Hasty.{
  owner_of, with_counts, below_zero, below_zero-IsView, own_clone, foreign_drop,
}

module _ (build : Build) (tid : ShortThreadId) (h : IsShortThreadId tid) where
  open build use {int}

  -- The counters agree with the references again, but the request for a merge stays.
  abbrev back_at_zero : ℕ → View
  back_at_zero n = with_counts build tid h n (pos 0) true

  back_at_zero-Fits : (n : ℕ) → n < 3 → Fits (back_at_zero n)
  back_at_zero-Fits n small = record { count = omega arith; owner = h; biased = omega arith }

  hasty_upgrade :
      increment_strong_unless_zero build initial_fast [] (encode int (below_zero build tid h))
      ≡ done (some (encode int (back_at_zero 2)))
  unfolding upgraded
  hasty_upgrade =
      increment_strong_unless_zero-upgraded build initial_fast tt
        (IsView-Fits (below_zero build tid h) (below_zero-IsView build tid h)) (λ e. ground arith)
        (λ e. ground arith) (λ _. omega arith)

  own_drop :
      (n : ℕ)
      → 0 < n
      → n < 3
      → decrement_strong build (owner_of tid) [] (encode int (back_at_zero n))
        ≡ done (encode_effect int (decremented_owned (back_at_zero n)))
  own_drop n positive small =
      decrement_strong-decremented build (owner_of tid) tt (back_at_zero-Fits n small)
        (λ _. record { positive = positive; unmerged = λ _. refl; enough = λ _. refl })
        (λ e. ground arith)
      ∙ ap (λ (e : Effect). done (encode_effect int e))
          (decremented_own (some tid) (back_at_zero n) (ground arith))

  -- A run with a hasty upgrade reaches a state in which the destructor has been called, while a thread
  -- is still on the way to queue the object, whatever the owner's id. The owner makes a second
  -- reference, which another thread drops; an upgrade brings the shared counter back to zero before
  -- that thread has queued the object; the owner then drops both references that are left.
  pub destroyed_while_announced :
      (s : System) × Reach build tid true s × (s.destroyed ≡ 1) × (s.announced ≡ 1)
  unfolding init_header
  destroyed_while_announced =
      let cloned =
        next here (clone (owner_of tid) tt (omega arith) (ground arith) (own_clone build tid h)) in
      let dropped = next cloned (drop initial_fast tt (omega arith) (foreign_drop build tid h)) in
      let upgraded_ = next dropped (upgrade initial_fast tt (ground arith) hasty_upgrade) in
      let once =
        next upgraded_
          (drop (owner_of tid) tt (omega arith) (own_drop 2 (omega arith) (omega arith))) in
      let twice =
        next once (drop (owner_of tid) tt (omega arith) (own_drop 1 (omega arith) (omega arith))) in
      (_, twice, refl, refl)
