-- ===== src/Protocol/Hasty.antt =====
-- What a hasty clone leads to: a destructor that runs while references are alive.
use biasedrc_rs.Common.{
  ℕ, ◌<◌, ◌≡◌, refl, ap, ◌∙◌, Bool, true, false, none, some, [], ℤ, pos, negsuc, arith,
}
use biasedrc_rs.Exec.{done}
use biasedrc_rs.Ids.{ShortThreadId, IsShortThreadId}
use biasedrc_rs.Threads.Local.{LocalThreadStateFast, active, dummy, initial_fast}
use biasedrc_rs.Header.{Build, init_header, increment_strong, decrement_strong}
use biasedrc_rs.View.{View, encode, Fits, IsView, decremented_shared}
use biasedrc_rs.View.Increment.{increment_strong-incremented, incremented_owned}
use biasedrc_rs.View.Decrement.{encode_effect, decrement_strong-decremented, decremented_foreign}
use biasedrc_rs.View.Invariant.{IsView-Fits}
use biasedrc_rs.View.Carry.{increment_strong-carried, second_clone, last_drop}
use biasedrc_rs.Protocol.Calls.{System, clone, drop, Reach, here, next}

abbrev pub owner_of : ShortThreadId → LocalThreadStateFast
owner_of tid = record { status = active; short_id = some tid; shared_state_flag = dummy }

module _ (build : Build) (tid : ShortThreadId) (h : IsShortThreadId tid) where
  open build use {int}

  abbrev pub with_counts : ℕ → ℤ → Bool → View
  with_counts n c q = record { owner = some tid; biased = n; count = c; merged = false; queued = q }

  abbrev pub below_zero : View
  below_zero = with_counts 2 (negsuc 0) true

  with_counts-Fits : (n : ℕ) → n < 3 → Fits (with_counts n (pos 0) false)
  with_counts-Fits n small = record { count = omega arith; owner = h; biased = omega arith }

  pub below_zero-IsView : IsView below_zero
  below_zero-IsView = ground arith

  pub own_clone :
      increment_strong build (owner_of tid) (encode int (with_counts 1 (pos 0) false))
      ≡ done (encode int (with_counts 2 (pos 0) false))
  own_clone =
      increment_strong-incremented build (owner_of tid) tt (with_counts-Fits 1 (omega arith))
        (λ _. omega arith) (λ e. ground arith)
      ∙ ap (λ v. done (encode int v))
          (incremented_owned (some tid) (with_counts 1 (pos 0) false) (ground arith))

  pub foreign_drop :
      decrement_strong build initial_fast [] (encode int (with_counts 2 (pos 0) false))
      ≡ done (encode_effect int (decremented_shared (with_counts 2 (pos 0) false)))
  foreign_drop =
      decrement_strong-decremented build initial_fast tt (with_counts-Fits 2 (omega arith))
        (λ e. ground arith)
        (λ _. record {
          room = omega arith;
          enough = λ e. ground arith;
          announced = λ _ _. ground arith;
        })
      ∙ ap (λ e. done (encode_effect int e))
          (decremented_foreign none (with_counts 2 (pos 0) false) refl)

  -- A run with hasty clones reaches a state in which the destructor has been called and two
  -- references are alive, whatever the owner's id. The owner makes a second reference, which another
  -- thread drops, and that thread makes two more while the object waits and drops one of these.
  pub destroyed_while_referenced :
      (s : System) × Reach build tid true s × (s.destroyed ≡ 1) × (s.handles ≡ 2)
  unfolding init_header
  destroyed_while_referenced =
      let cloned = next here (clone (owner_of tid) tt (omega arith) (ground arith) own_clone) in
      let dropped = next cloned (drop initial_fast tt (omega arith) foreign_drop) in
      let hasty = next dropped (
        clone initial_fast tt (omega arith) (ground arith) (
          increment_strong-carried build initial_fast tt (IsView-Fits below_zero below_zero-IsView)
            refl refl)) in
      let twice = next hasty (
        clone initial_fast tt (omega arith) (ground arith)
          (second_clone build initial_fast tt below_zero below_zero-IsView refl)) in
      let over = next twice (
        drop initial_fast tt (omega arith)
          (last_drop build initial_fast tt below_zero below_zero-IsView refl)) in
      (_, over, refl, refl)
