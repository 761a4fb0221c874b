-- ===== src/Examples/Runs.antt =====
-- The theorems on runs at concrete runs.
use biasedrc_rs.Common.{◌+◌, ◌≡◌, ◌⊎◌, refl, ap, ◌∙◌, true, false, none, some, [], arith}
use biasedrc_rs.Exec.{done}
use biasedrc_rs.Threads.Local.{initial_fast}
use biasedrc_rs.Words.ArbitraryInt.{plain_int}
use biasedrc_rs.Header.{init_header, decrement_strong}
use biasedrc_rs.View.{decremented_shared, released, encode}
use biasedrc_rs.View.Decrement.{
  encode_effect, decrement_strong-decremented, decremented_foreign, decremented_own,
}
use biasedrc_rs.Protocol.{System, drop, push, Run, Reach, allocated, here, next, after_drop}
use biasedrc_rs.Protocol.Safety
use biasedrc_rs.Protocol.Hasty
use biasedrc_rs.Examples.{build, owner, owner_id, one, one-Fits}

destroyed_while_referenced_example :
    (s : System) × Reach build 1 true s × (s.destroyed ≡ 1) × (s.handles ≡ 2)
destroyed_while_referenced_example = Hasty.destroyed_while_referenced build 1 owner_id

pub foreign_drop :
    decrement_strong build initial_fast [] (encode plain_int one)
    ≡ done (encode_effect plain_int (decremented_shared one))
foreign_drop =
    decrement_strong-decremented build initial_fast tt one-Fits (λ e. ground arith)
      (λ _. record {
        room = omega arith;
        enough = λ e. ground arith;
        announced = λ _ _. ground arith;
      })
    ∙ ap (λ e. done (encode_effect plain_int e)) (decremented_foreign none one refl)

pub own_drop :
    decrement_strong build owner [] (encode plain_int one)
    ≡ done (encode_effect plain_int (released one))
own_drop =
    decrement_strong-decremented build owner tt one-Fits
      (λ _. record { positive = omega arith; unmerged = λ _. refl; enough = λ _. refl })
      (λ e. ground arith)
    ∙ ap (λ e. done (encode_effect plain_int e)) (decremented_own (some 1) one refl)

-- The owner has dropped its only reference.
abbrev pub gone : System
gone = after_drop (allocated build 1) (encode_effect plain_int (released one))

Reach-gone : Reach build 1 false gone
unfolding init_header
Reach-gone = next here (drop owner tt (omega arith) own_drop)

-- Another thread has dropped the only reference.
abbrev pub dropped_elsewhere : System
dropped_elsewhere =
    after_drop (allocated build 1) (encode_effect plain_int (decremented_shared one))

Reach-elsewhere : Reach build 1 false dropped_elsewhere
unfolding init_header
Reach-elsewhere = next here (drop initial_fast tt (omega arith) foreign_drop)

abbrev queued : System
queued = record dropped_elsewhere { announced = 0; enqueued = 1 }

Reach-queued : Reach build 1 false queued
Reach-queued = next Reach-elsewhere (push (omega arith))

destroyed_last_example :
    (gone.destroyed ≡ 1) × (gone.handles ≡ 0) × (gone.announced ≡ 0) × (gone.enqueued ≡ 0)
destroyed_last_example = Safety.destroyed_last owner_id Reach-gone (omega arith)

destroyed_in_the_end_example :
    (t : System) × Run build 1 false dropped_elsewhere t × (t.destroyed ≡ 1)
destroyed_in_the_end_example = Safety.destroyed_in_the_end owner_id Reach-elsewhere refl

destroyed_or_waits_example :
    (dropped_elsewhere.destroyed ≡ 1)
    ⊎ ((dropped_elsewhere.destroyed ≡ 0)
        × (dropped_elsewhere.announced + dropped_elsewhere.enqueued ≡ 1))
destroyed_or_waits_example = Safety.destroyed_or_waits owner_id Reach-elsewhere refl
