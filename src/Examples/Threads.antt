-- ===== src/Examples/Threads.antt =====
-- The theorems on threads and their queues, for queues and vectors that are lists.
use biasedrc_rs.Common.{◌≡◌, refl, ap, false, pos, some, [], ◌∷◌, arith}
use biasedrc_rs.Exec.{done, ◌>>=◌}
use biasedrc_rs.Words.ArbitraryInt.{plain_int}
use biasedrc_rs.View.{View, IsView, refs, encode, merged_view}
use biasedrc_rs.View.Merge.{encode_merged, explicit_merge-merged_view}
use biasedrc_rs.Examples.{build, waiting, waiting-Fits}
use biasedrc_rs.Threads.Local.{initial_fast, active, flag_of, LocalThreadStateFast}
use biasedrc_rs.Threads.SegQueue.{SegQueue, list_queue}
use biasedrc_rs.Threads.Memory.{QueuedObject, Memory, merge_object, merge_all, after_merge_at}
use biasedrc_rs.Threads.Queue.{IsProcessed, do_process-IsProcessed}
use biasedrc_rs.Threads.Shared.{
  SharedThreadInfo, shared_init, queued_objects, live, dead, is_live, drop_arc, push_object,
  collect_force, drop_local, queue_object,
}
use biasedrc_rs.Threads.Drain.{IsDrained, collect_force-IsDrained}
use biasedrc_rs.Threads.Death.{then_call, drop_local-late_push, drop_local-queue_object}
use biasedrc_rs.Threads.Boxcar.{list_vec}
use biasedrc_rs.Threads.Registry.{Entry, Registry, Registered, LocalThreadState, init_thread}
use biasedrc_rs.Threads.Lifecycle.{IsRegistered, init_thread-IsRegistered}
use biasedrc_rs.Threads.Current.{Current, untouched, init}
use biasedrc_rs.Threads.Birth.{IsCurrent, init-IsCurrent}
use biasedrc_rs.Threads.Collect.{registered, collect_implicit, collect_implicit-drained}

abbrev queue : SegQueue QueuedObject
queue = list_queue QueuedObject

-- Every header has two references of thread 1, of which one was dropped elsewhere.
abbrev memory : Memory
memory = record { header_at = λ ptr. encode plain_int waiting; deallocated = [] }

-- The memory after the merge of object 7.
abbrev merged : Memory
merged = after_merge_at 7 memory (encode_merged plain_int (merged_view waiting))

merges : merge_all build 1 (7 ∷ []) memory ≡ done merged
unfolding merge_all merge_object
merges =
    ap (λ r. r >>= (λ r'. done (after_merge_at 7 memory r')) >>= merge_all build 1 [])
      (explicit_merge-merged_view build waiting-Fits 1 refl refl (omega arith) refl)

abbrev idle : SharedThreadInfo queue
idle = shared_init queue 1

do_process-IsProcessed_example :
    IsProcessed queue build 1 2 (7 ∷ []) memory (merge_all build 1 (7 ∷ []) memory)
do_process-IsProcessed_example =
    do_process-IsProcessed queue build 1 (7 ∷ []) 2 (7 ∷ []) memory refl (omega arith)

collect_force-IsDrained_example :
    IsDrained queue build 2 1 live 1 merged
      (collect_force queue build 2 [] (record idle { inner = 7 ∷ [] }) memory)
unfolding is_live
collect_force-IsDrained_example =
    collect_force-IsDrained queue build 2 [] (record idle { inner = 7 ∷ [] }) memory 0 refl
      (omega arith) refl merges

drop_local-late_push_example : IsDrained queue build 2 1 dead 0 merged (
    then_call queue build 2
      (drop_local queue build 2 (push_object queue build 2 idle 7) memory)
      (drop_arc queue build 2))
unfolding is_live
drop_local-late_push_example =
    drop_local-late_push queue build 2 idle 7 memory refl refl (omega arith) merges

drop_local-queue_object_example : IsDrained queue build 2 1 dead 0 merged (
    then_call queue build 2
      (drop_local queue build 2 idle memory)
      (λ s m. queue_object queue build 2 s 7 m))
unfolding is_live
drop_local-queue_object_example =
    drop_local-queue_object queue build 2 idle 7 memory refl refl (omega arith) merges

abbrev empty_registry : Registry (list_vec Entry)
empty_registry = record { threads = []; exhausted = false }

init_thread-IsRegistered_example :
    (r : Registered (list_vec Entry)) × (init_thread (list_vec Entry) empty_registry initial_fast
      ≡ done r)
    × IsRegistered (list_vec Entry) empty_registry r
init_thread-IsRegistered_example =
    init_thread-IsRegistered (list_vec Entry) empty_registry (record { entries = tt; flag = refl })

abbrev fresh_current : Current (list_vec Entry)
fresh_current = record { registry = empty_registry; fast = initial_fast; lazy = untouched }

init-IsCurrent_example :
    (c : Current (list_vec Entry)) × (v : View) × (init (list_vec Entry) plain_int fresh_current
      ≡ done (c, encode plain_int v))
    × IsCurrent (list_vec Entry) c
    × IsView v
    × (refs v ≡ pos 1)
    × (v.owner ≡ c.fast.short_id)
init-IsCurrent_example =
    init-IsCurrent (list_vec Entry) plain_int fresh_current
      (record { registry = record { entries = tt; flag = refl }; agrees = refl })

abbrev owner_fast : LocalThreadStateFast
owner_fast = record { status = active; short_id = some 1; shared_state_flag = flag_of 0 }

abbrev owner_state : LocalThreadState
owner_state = record { shared_info = 0; short_id = 1 }

abbrev owner_current : Current (list_vec Entry)
owner_current = registered queue (list_vec Entry) build 2 empty_registry owner_fast owner_state

abbrev busy : SharedThreadInfo queue
busy = record idle { state_flag = queued_objects; inner = 7 ∷ [] }

collect_implicit-drained_example :
    (s : SharedThreadInfo queue) × (collect_implicit queue
        (list_vec Entry)
        build
        2
        false
        false
        []
        (owner_current, busy, memory)
      ≡ done (some (owner_current, s, merged)))
    × (s.inner ≡ [])
    × (s.state_flag ≡ live)
collect_implicit-drained_example =
    collect_implicit-drained queue (list_vec Entry) build 2 [] empty_registry owner_fast owner_state
      busy memory 0 0 refl refl refl (omega arith) merges
