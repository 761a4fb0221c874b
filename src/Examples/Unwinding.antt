-- ===== src/Examples/Unwinding.antt =====
-- The theorems on collections with a panicking destructor, for a queue that is a list.
use biasedrc_rs.Common.{
  ℕ, ◌≡◌, refl, ap, ◌∙◌, Bool, true, false, ◌==◌, negsuc, some, [], ◌∷◌, arith,
}
use biasedrc_rs.Exec.{done, ◌>>=◌}
use biasedrc_rs.Words.ArbitraryInt.{plain_int}
use biasedrc_rs.Header.{Merged, explicit_merge}
use biasedrc_rs.View.{View, encode, Fits, merged_view}
use biasedrc_rs.View.Merge.{encode_merged, explicit_merge-merged_view}
use biasedrc_rs.Threads.Local.{active, flag_of}
use biasedrc_rs.Threads.SegQueue.{SegQueue, list_queue}
use biasedrc_rs.Threads.Memory.{QueuedObject, Memory, merge_object, merge_all, after_merge_at}
use biasedrc_rs.Threads.Shared.{SharedThreadInfo, shared_init, queued_objects, live, is_live}
use biasedrc_rs.Threads.Boxcar.{list_vec}
use biasedrc_rs.Threads.Registry.{Entry}
use biasedrc_rs.Threads.Collect.{Scene, registered}
use biasedrc_rs.Threads.Unwinding.{force, collect_by, plain_nounwind, may_panic, never_panic}
use biasedrc_rs.Threads.Resumption.{force-resumed, collect_by-nounwind}
use biasedrc_rs.Examples.{build}

abbrev queue : SegQueue QueuedObject
queue = list_queue QueuedObject

-- Every header has one reference of thread 1, which was dropped elsewhere.
abbrev ended : View
ended = record { owner = some 1; biased = 1; count = negsuc 0; merged = false; queued = true }

ended-Fits : Fits ended
ended-Fits = record { count = omega arith; owner = ground arith; biased = omega arith }

abbrev memory : Memory
memory = record { header_at = λ ptr. encode plain_int ended; deallocated = [] }

abbrev gone : Merged
gone = encode_merged plain_int (merged_view ended)

last_merge : explicit_merge build 1 [] (encode plain_int ended) ≡ done gone
last_merge = explicit_merge-merged_view build ended-Fits 1 refl refl (omega arith) refl

merges :
    (object : ℕ) (m : Memory)
    → m.header_at object ≡ encode plain_int ended
    → merge_all build 1 (object ∷ []) m ≡ done (after_merge_at object m gone)
unfolding merge_all merge_object
merges object m e =
    ap
      (λ h.
        explicit_merge build 1 [] h
        >>= (λ r. done (after_merge_at object m r))
        >>= merge_all build 1 [])
      e
    ∙ ap (λ r. r >>= (λ r'. done (after_merge_at object m r')) >>= merge_all build 1 []) last_merge

-- The destructor of object 8 panics.
abbrev eight_panics : QueuedObject → Bool
eight_panics object = object == 8

abbrev three_queued : SharedThreadInfo queue
three_queued = record (shared_init queue 1) { state_flag = queued_objects; inner = 7 ∷ 8 ∷ 9 ∷ [] }

abbrev after_two : Memory
after_two = after_merge_at 8 (after_merge_at 7 memory gone) gone

force-resumed_example :
    (s' s'' : SharedThreadInfo queue) × (force queue build eight_panics 4 [] three_queued memory
      ≡ done (some (true, (s', after_two))))
    × (s'.inner ≡ 9 ∷ [])
    × (s'.state_flag ≡ queued_objects)
    × (s'.strong ≡ 1)
    × (force queue build eight_panics 4 [] s' after_two
        ≡ done (some (false, (s'', after_merge_at 9 after_two gone))))
    × (s''.inner ≡ [])
    × (s''.state_flag ≡ live)
    × (merge_all build 1 (7 ∷ 8 ∷ 9 ∷ []) memory ≡ done (after_merge_at 9 after_two gone))
unfolding is_live merged_view
force-resumed_example =
    force-resumed queue build eight_panics 4 (7 ∷ []) 8 (9 ∷ []) [] three_queued memory 0
      (refl, refl) refl (omega arith) (omega arith) (refl, tt) refl (refl, tt)
      (merges 7 memory refl) last_merge (merges 9 after_two refl)

abbrev scene : Scene queue (list_vec Entry) build 4
scene = (
  registered queue (list_vec Entry) build 4 (record { threads = []; exhausted = false })
      (record { status = active; short_id = some 1; shared_state_flag = flag_of 0 })
      (record { shared_info = 0; short_id = 1 }),
  three_queued,
  memory,
)

collect_by-nounwind_example :
    collect_by queue build eight_panics 4 (list_vec Entry) plain_nounwind never_panic false [] scene
    ≡ plain_nounwind.abort_unwind (
        collect_by queue build eight_panics 4
          (list_vec Entry)
          plain_nounwind
          may_panic
          false
          []
          scene)
collect_by-nounwind_example =
    collect_by-nounwind queue build eight_panics 4 (list_vec Entry) plain_nounwind false [] scene
