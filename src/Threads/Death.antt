-- ===== src/Threads/Death.antt =====
-- An object that is queued while its owner dies, or after that, is merged all the same.
use biasedrc_rs.Common.{
  ℕ, ◌+◌, ◌<◌, ◌≡◌, refl, ap, ◌∙◌, true, none, some, [], ◌∷◌, ◌++◌, length, length-append, arith,
}
use biasedrc_rs.Exec.{Exec, done, fault, ◌>>=◌}
use biasedrc_rs.Header.{Build}
use biasedrc_rs.Threads.SegQueue.{SegQueue}
use biasedrc_rs.Threads.Memory.{QueuedObject, Memory, merge_object, merge_all, merge_all_split}
use biasedrc_rs.Threads.Shared.{
  ThreadStateFlag, live, queued_objects, dying, dead, is_live, is_dead_or_dying, mark_queued,
  SharedThreadInfo, Outcome, drop_arc, push_object, queue_object, drop_local,
}
use biasedrc_rs.Threads.Drain.{
  IsDrained, drop_arc_kept, drop_arc_last, drop_local_step, drop_local-IsDrained,
}

module _ (queue : SegQueue QueuedObject) (build : Build) (fuel : ℕ) where
  open queue use {contents, push_lem}

  -- One call after another.
  abbrev pub then_call :
      Outcome queue → (SharedThreadInfo queue → Memory → Outcome queue) → Outcome queue
  then_call first next = first >>= elim [ none ↦ done none | some (s, m) ↦ next s m ]

  marked_live : (flag : ThreadStateFlag) → is_live flag ≡ true → is_live (mark_queued flag) ≡ true
  unfolding is_live
  marked_live live h = refl
  marked_live queued_objects h = refl
  marked_live dying h = h
  marked_live dead h = h

  drop_while_held :
      (s : SharedThreadInfo queue) (object : QueuedObject) (m : Memory)
      → s.strong ≡ 1
      → is_live s.state_flag ≡ true
      → drop_local queue build fuel (push_object queue build fuel s object) m
        ≡ done (
            some
              (record (push_object queue build fuel s object) { state_flag = dead; strong = 1 }, m))
  unfolding push_object
  drop_while_held s object m one alive =
      let s' = push_object queue build fuel s object in
      drop_local_step queue build fuel s' (record s' { state_flag = dying; strong = 1 }) m m
        (marked_live s.state_flag alive)
        (drop_arc_kept queue build fuel (record s' { state_flag = dying }) m 0 (omega (arith, one)))
        refl

  -- When a live thread that alone holds its queue dies between the push of an object by another thread
  -- and the end of that call, the end of the call merges the queued objects and then this one, where
  -- these merges return, and leaves the queue empty and gone, and the flag at `dead`.
  pub drop_local-late_push :
      (s : SharedThreadInfo queue) (object : QueuedObject) (m : Memory) {last : Memory}
      → s.strong ≡ 1
      → is_live s.state_flag ≡ true
      → length (contents s.inner) + 1 < fuel
      → merge_all build s.short_id (contents s.inner ++ (object ∷ [])) m ≡ done last
      → IsDrained queue build fuel s.short_id dead 0 last (
          then_call
            (drop_local queue build fuel (push_object queue build fuel s object) m)
            (drop_arc queue build fuel))
  unfolding push_object
  drop_local-late_push s object m {last} one alive enough call =
      let s' : SharedThreadInfo queue = record (push_object queue build fuel s object) {
        state_flag = dead;
        strong = 1;
      } in
      let same = push_lem s.inner object in
      let (s'', run, empty, flag, strong, id) =
        drop_arc_last queue build fuel s' m refl
          (omega (
            arith,
            ap (length {A = ℕ}) same,
            length-append (contents s.inner) (object ∷ []),
            enough,
          ))
          (ap (λ ys. merge_all build s.short_id ys m) same ∙ call) in
      (
        s'',
        ap (λ r. then_call r (drop_arc queue build fuel)) (drop_while_held s object m one alive)
            ∙ run,
        empty,
        flag,
        strong,
        id,
      )

  merged_alone :
      (s : SharedThreadInfo queue) (object : QueuedObject) (m : Memory) {last : Memory}
      → merge_all build s.short_id (object ∷ []) m ≡ done last
      → merge_object build s.short_id object m ≡ done last
  unfolding merge_all
  merged_alone s object m {last} = by_cases (merge_object build s.short_id object m)
    where
      by_cases :
          (r : Exec Memory) → (r >>= merge_all build s.short_id []) ≡ done last → r ≡ done last
      by_cases (done m') h = h
      by_cases (fault f) h = h

  queue_when_dead :
      (s : SharedThreadInfo queue) (object : QueuedObject) (m : Memory) {last : Memory}
      → s.strong ≡ 0
      → s.state_flag ≡ dead
      → merge_all build s.short_id (object ∷ []) m ≡ done last
      → queue_object queue build fuel s object m ≡ done (some (s, last))
  unfolding queue_object is_dead_or_dying
  queue_when_dead s object m gone flag call =
      rw (gone, flag, queue_object, merged_alone s object m call) refl

  -- When a live thread that alone holds its queue dies before another thread queues an object, that
  -- thread merges the object itself, after those that were queued: where these merges return, the queue
  -- is empty and gone at the end, and the flag is at `dead`.
  pub drop_local-queue_object :
      (s : SharedThreadInfo queue) (object : QueuedObject) (m : Memory) {last : Memory}
      → s.strong ≡ 1
      → is_live s.state_flag ≡ true
      → length (contents s.inner) < fuel
      → merge_all build s.short_id (contents s.inner ++ (object ∷ [])) m ≡ done last
      → IsDrained queue build fuel s.short_id dead 0 last (
          then_call
            (drop_local queue build fuel s m)
            (λ s' m'. queue_object queue build fuel s' object m'))
  drop_local-queue_object s object m {last} one alive enough call =
      let (mid, before, after) =
        merge_all_split build s.short_id (contents s.inner) (object ∷ []) m call in
      let (s', run, empty, flag, strong, id) =
        drop_local-IsDrained queue build fuel s m one enough alive before in
      (
        s',
        ap (λ r. then_call r (λ s' m'. queue_object queue build fuel s' object m')) run
            ∙ queue_when_dead s' object mid strong flag
                (ap (λ t. merge_all build t (object ∷ []) mid) id ∙ after),
        empty,
        flag,
        strong,
        id,
      )
