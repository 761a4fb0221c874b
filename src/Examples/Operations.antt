-- ===== src/Examples/Operations.antt =====
-- The theorems on the operations of a header at concrete headers.
use biasedrc_rs.Common.{
  ◌≡◌, ◌≢◌, ◌↔◌, refl, true, false, not, ◌&&◌, if◌then◌else◌, none, [], pos, is_zero, arith,
}
use biasedrc_rs.Exec.{done, ◌>>=◌}
use biasedrc_rs.Threads.Local.{initial_fast}
use biasedrc_rs.Words.ArbitraryInt.{plain_int}
use biasedrc_rs.Header.{Decremented, increment_strong, decrement_strong, explicit_merge}
use biasedrc_rs.View.{View, Effect, refs, encode, IsView}
use biasedrc_rs.View.Decrement.{encode_effect}
use biasedrc_rs.View.Carry.{clone_twice_drop_once}
use biasedrc_rs.Counting.{increment_strong-counts, decrement_strong-counts, explicit_merge-counts}
use biasedrc_rs.Examples.{build, owner, one, one-IsView, waiting, waiting-IsView}

increment_strong-counts_example :
    (u : View) × (increment_strong build owner (encode plain_int one) ≡ done (encode plain_int u))
    × IsView u
    × (refs u ≡ pos 2)
increment_strong-counts_example =
    increment_strong-counts build owner tt one one-IsView (λ e. ground arith)

decrement_strong-counts_example :
    (e : Effect) × (decrement_strong build owner [] (encode plain_int one)
      ≡ done (encode_effect plain_int e))
    × IsView e.view
    × (refs e.view ≡ pos 0)
    × ((e.should_drop ≡ true) ↔ ((refs e.view ≡ pos 0) × (e.view.merged ≡ true)))
    × (e.queue_to ≡ (if not one.queued && e.view.queued then one.owner else none))
    × ((one.queued && not e.view.queued) ≡ false)
    × (one.merged ≡ false → one.owner ≢ none)
    × ((is_zero (refs e.view) && not e.view.merged && not e.view.queued) ≡ false)
decrement_strong-counts_example = decrement_strong-counts build owner tt one one-IsView refl

explicit_merge-counts_example :
    (u : View) × (explicit_merge build 1 [] (encode plain_int waiting)
      ≡ done (record { header = encode plain_int u; dealloc = false }))
    × IsView u
    × (u.merged ≡ true)
    × (refs u ≡ pos 1)
explicit_merge-counts_example =
    explicit_merge-counts build waiting waiting-IsView 1 refl (omega arith)

clone_twice_drop_once_example :
    (r : Decremented) × ((do
      once ← increment_strong build initial_fast (encode plain_int waiting)
      twice ← increment_strong build initial_fast once
      decrement_strong build initial_fast [] twice)
      ≡ done r)
    × (r.result.should_drop ≡ true)
clone_twice_drop_once_example =
    clone_twice_drop_once build initial_fast tt waiting waiting-IsView refl refl refl
