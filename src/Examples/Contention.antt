-- ===== src/Examples/Contention.antt =====
-- The theorem on contended uniqueness tests at a concrete run.
use biasedrc_rs.Common.{◌≡◌, refl, true, false, none, [], ◌∙◌, ap, arith}
use biasedrc_rs.Exec.{done}
use biasedrc_rs.Threads.Local.{initial_fast}
use biasedrc_rs.Words.ArbitraryInt.{plain_int}
use biasedrc_rs.Header.{init_header, increment_strong, decrement_strong}
use biasedrc_rs.View.{View, incremented, decremented_shared, encode, decode-encode, IsView}
use biasedrc_rs.View.Counts.{is_unique_lem, is_definitely_not_unique_lem}
use biasedrc_rs.View.Increment.{increment_strong-incremented}
use biasedrc_rs.View.Invariant.{IsView-Fits}
use biasedrc_rs.View.Decrement.{encode_effect, decrement_strong-decremented, decremented_foreign}
use biasedrc_rs.Brc.{drop_weak}
use biasedrc_rs.Protocol.{System, Reach, allocated, here, next, after_drop, clone, drop}
use biasedrc_rs.Protocol.Locked.{
  Contended, Contention, start, step, strong, drop_of_weak, ask, lock, check, unlock, answered,
  uncontended, try_lock, answered_alone,
}
use biasedrc_rs.Examples.{build, owner, owner_id, one, one-Fits}

-- The owner has cloned its reference.
abbrev two : View
two = record one { biased = 2 }

two-IsView : IsView two
two-IsView = ground arith

own_clone : increment_strong build owner (encode plain_int one) ≡ done (encode plain_int two)
unfolding incremented
own_clone =
    increment_strong-incremented build owner tt one-Fits (λ _. omega arith) (λ e. ground arith)

abbrev cloned : System
cloned = record (allocated build 1) { header = encode plain_int two; handles = 2 }

Reach-cloned : Reach build 1 false cloned
unfolding init_header
Reach-cloned =
    next here
      (clone owner tt (omega arith) (ground (arith, decode-encode build one-Fits)) own_clone)

-- Another thread drops the clone, while the owner asks.
abbrev shared_one : View
shared_one = (decremented_shared two).view

abbrev left : System
left = after_drop cloned (encode_effect plain_int (decremented_shared two))

other_drop :
    decrement_strong build initial_fast [] (encode plain_int two)
    ≡ done (encode_effect plain_int (decremented_shared two))
other_drop =
    decrement_strong-decremented build initial_fast tt (IsView-Fits two two-IsView)
      (λ e. ground arith)
      (λ _. record {
        room = omega arith;
        enough = λ e. ground arith;
        announced = λ _ _. ground arith;
      })
    ∙ ap (λ e. done (encode_effect plain_int e)) (decremented_foreign none two refl)

abbrev asked_once : Contended
asked_once = record { system = left; weaks = 0; weak_count = 1; phase = answered true }

contention : Contention build 1 owner (uncontended cloned 1) asked_once
unfolding drop_weak try_lock
contention =
    let asking =
      step start (ask refl (is_definitely_not_unique_lem build owner tt two two-IsView)) in
    let weak_dropped = step asking (drop_of_weak (omega arith)) in
    let locking = step weak_dropped (lock refl refl) in
    let dropped =
      step locking (strong (drop initial_fast tt (omega arith) other_drop) (omega arith)) in
    let checking =
      step dropped (check refl (is_unique_lem build owner tt shared_one (ground arith))) in
    step checking (unlock refl)

answered_alone_example : (left.handles ≡ 1) × (asked_once.weaks ≡ 0) × (asked_once.weak_count ≡ 1)
answered_alone_example =
    answered_alone owner_id owner tt Reach-cloned (omega arith) (omega arith) contention refl
