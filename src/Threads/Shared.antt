-- ===== src/Threads/Shared.antt =====
-- src/runtime/threads.rs: `SharedThreadInfo`, the queue that other threads fill, and the part of
-- `LocalThreadState` that empties it.
use biasedrc_rs.Common.{
  ℕ, ◌+◌, ◌-◌, Bool, true, false, not, Option, none, some, List, [], ◌∷◌, ◌==◌, if◌then◌else◌,
}
use biasedrc_rs.Exec.{Exec, done, fault, Fault, ◌>>=◌, ◌>>◌, assert}
use biasedrc_rs.Ids.{ShortThreadId}
use biasedrc_rs.Header.{Build}
use biasedrc_rs.Threads.SegQueue.{SegQueue}
use biasedrc_rs.Threads.Memory.{QueuedObject, Memory, merge_object}
use biasedrc_rs.Threads.Queue.{do_process}

pub data ThreadStateFlag : Type 0 where
  live queued_objects dying dead : ThreadStateFlag

unfoldable pub is_live : ThreadStateFlag → Bool
is_live live = true
is_live queued_objects = true
is_live dying = false
is_live dead = false

unfoldable pub is_dead_or_dying : ThreadStateFlag → Bool
unfolding is_live
is_dead_or_dying flag = not (is_live flag)

-- `compare_exchange(Live, QueuedObjects)`
abbrev pub mark_queued : ThreadStateFlag → ThreadStateFlag
mark_queued live = queued_objects
mark_queued flag = flag

-- `compare_exchange(QueuedObjects, Live)`
abbrev pub mark_live : ThreadStateFlag → ThreadStateFlag
mark_live queued_objects = live
mark_live flag = flag

module _ (queue : SegQueue QueuedObject) where
  open queue use {Q, push, is_empty}

  -- `queued_objects` is the queue `inner` while `strong`, the number of its `Arc`s, is not zero.
  pub record SharedThreadInfo : Type 0 where
    pub short_id : ShortThreadId
    pub state_flag : ThreadStateFlag
    pub strong : ℕ
    pub inner : Q

  -- As `init_thread` makes it, with the primary `Arc`.
  abbrev pub shared_init : ShortThreadId → SharedThreadInfo
  shared_init short_id = record {
    short_id = short_id;
    state_flag = live;
    strong = 1;
    inner = queue.new;
  }

  -- A state of the thread's queue and of the memory; `none` for a loop that has not ended yet.
  abbrev pub Outcome : Type 0
  Outcome = Exec (Option (SharedThreadInfo × Memory))

  abbrev pub push_all : Q → List QueuedObject → Q
  push_all q [] = q
  push_all q (object ∷ objects) = push_all (push q object) objects

  module _ (build : Build) (fuel : ℕ) where
    abbrev pub processed :
        SharedThreadInfo → Option (Q × Memory) → Option (SharedThreadInfo × Memory)
    processed s none = none
    processed s (some (q, m)) = some (record s { inner = q }, m)

    -- The drop of an `Arc` of the queue. The last one runs `Drop for ObjectQueue`.
    unfoldable pub drop_arc : SharedThreadInfo → Memory → Outcome
    drop_arc s m =
        let last = do_process queue build s.short_id fuel s.inner m in
        if s.strong == 1
        then (last >>= λ r. done (processed (record s { strong = 0 }) r))
        else done (some (record s { strong = s.strong - 1 }, m))

    -- `queue_object` up to the end of the branch `Some(queue)`, before it drops its `Arc`.
    unfoldable pub push_object : SharedThreadInfo → QueuedObject → SharedThreadInfo
    push_object s object = record s {
      state_flag = mark_queued s.state_flag;
      strong = s.strong + 1;
      inner = push s.inner object;
    }

    -- The branch `None`.
    unfoldable pub merge_directly : SharedThreadInfo → QueuedObject → Memory → Outcome
    unfolding is_dead_or_dying
    merge_directly s object m = do
      assert (is_dead_or_dying s.state_flag)
      m' ← merge_object build s.short_id object m
      done (some (s, m'))

    unfoldable pub queue_object : SharedThreadInfo → QueuedObject → Memory → Outcome
    unfolding drop_arc push_object merge_directly
    queue_object s object m =
        if s.strong == 0 then merge_directly s object m else drop_arc (push_object s object) m

    -- The loop of `collect_force`. Each element of `arrivals` is the first and the other objects that
    -- other threads push between `do_process` and the test `is_empty`, which makes it go on. Each of these
    -- pushes is whole: its exchange of the flag comes before the collector's. A push whose exchange comes
    -- after that, and before `is_empty`, is none of these runs, and can leave the flag at `queued_objects`.
    unfoldable pub collect_loop :
        List (QueuedObject × List QueuedObject) → SharedThreadInfo → Memory → Outcome
    collect_loop [] s m = do_process queue build s.short_id fuel s.inner m >>= elim [
      | none ↦ done none
      | some (q, m') ↦
          if is_empty q
          then done (some (record s { state_flag = mark_live s.state_flag; inner = q }, m'))
          else done none
    ]
    collect_loop ((first, others) ∷ arrivals) s m =
        do_process queue build s.short_id fuel s.inner m >>= elim [
          | none ↦ done none
          | some (q, m') ↦
              let q' = push_all (push q first) others in
              let s' = record s { state_flag = mark_live (mark_queued s.state_flag); inner = q' } in
              let rest = collect_loop arrivals s' m' in
              if is_empty q' then done (some (s', m')) else rest
        ]

    -- The queue is held by one more `Arc` during the loop.
    unfoldable pub collect_force :
        List (QueuedObject × List QueuedObject) → SharedThreadInfo → Memory → Outcome
    unfolding is_live collect_loop drop_arc
    collect_force arrivals s m =
        if is_live s.state_flag
        then if s.strong == 0
          then done (some (s, m))
          else (collect_loop arrivals (record s { strong = s.strong + 1 }) m
              >>= elim [ none ↦ done none | some (s', m') ↦ drop_arc s' m' ])
        else done (some (s, m))

    -- `Drop for LocalThreadState`, on the state that other threads see.
    unfoldable pub drop_local : SharedThreadInfo → Memory → Outcome
    unfolding is_live drop_arc
    drop_local s m = do
      assert (is_live s.state_flag)
      r ← drop_arc (record s { state_flag = dying }) m
      elim r [
        | none ↦ done none
        | some (s', m') ↦ elim s'.state_flag [
          | dying ↦ done (some (record s' { state_flag = dead }, m'))
          | live ↦ fault Fault.assertion_failed
          | queued_objects ↦ fault Fault.assertion_failed
          | dead ↦ fault Fault.assertion_failed
        ]
      ]
