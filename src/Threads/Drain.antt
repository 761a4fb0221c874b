-- ===== src/Threads/Drain.antt =====
-- No queued object is lost: the queue of a thread is emptied by its collections, and by its death.
use mathlib.Core.List.{append_assoc, append-nil}
use biasedrc_rs.Common.{
  ℕ, suc, ◌+◌, ◌<◌, ◌≡◌, refl, ap, sym, ◌∙◌, true, false, some, List, [], ◌∷◌, ◌++◌, length,
  length-append, ◌==◌, arith,
}
use biasedrc_rs.Exec.{done}
use biasedrc_rs.Ids.{ShortThreadId}
use biasedrc_rs.Header.{Build}
use biasedrc_rs.Threads.SegQueue.{SegQueue, is_nil}
use biasedrc_rs.Threads.Memory.{QueuedObject, Memory, merge_all, merge_all_split}
use biasedrc_rs.Threads.Queue.{do_process, do_process_returns}
use biasedrc_rs.Threads.Shared.{
  ThreadStateFlag, live, queued_objects, dying, dead, is_live, mark_queued, mark_live,
  SharedThreadInfo, Outcome, push_all, drop_arc, collect_loop, collect_force, drop_local,
}

-- The objects that arrive during a collection, in order.
abbrev pub arrived : List (QueuedObject × List QueuedObject) → List QueuedObject
arrived [] = []
arrived ((first, others) ∷ arrivals) = first ∷ (others ++ arrived arrivals)

module _ (queue : SegQueue QueuedObject) (build : Build) (fuel : ℕ) where
  open queue use {Q, push, contents, is_empty, push_lem, is_empty_lem}

  contents-push_all :
      (q : Q) (xs : List QueuedObject) → contents (push_all queue q xs) ≡ contents q ++ xs
  contents-push_all q [] = sym (append-nil (contents q))
  contents-push_all q (x ∷ xs) =
      contents-push_all (push q x) xs
      ∙ ap (λ ys. ys ++ xs) (push_lem q x)
      ∙ append_assoc (contents q) (x ∷ []) xs

  contents-arrived :
      (q : Q) (first : QueuedObject) (others : List QueuedObject)
      → contents q ≡ []
      → contents (push_all queue (push q first) others) ≡ first ∷ others
  contents-arrived q first others e =
      contents-push_all (push q first) others
      ∙ ap (λ ys. ys ++ others) (push_lem q first ∙ ap (λ ys. ys ++ (first ∷ [])) e)

  is_empty-arrived :
      (q : Q) (first : QueuedObject) (others : List QueuedObject)
      → contents q ≡ []
      → is_empty (push_all queue (push q first) others) ≡ false
  is_empty-arrived q first others e =
      is_empty_lem (push_all queue (push q first) others)
      ∙ ap is_nil (contents-arrived q first others e)

  mark_live-is_live : (flag : ThreadStateFlag) → is_live flag ≡ true → mark_live flag ≡ live
  unfolding is_live
  mark_live-is_live live h = refl
  mark_live-is_live queued_objects h = refl
  mark_live-is_live dying h = absurd (ground (arith, h))
  mark_live-is_live dead h = absurd (ground (arith, h))

  mark_queued-is_live :
      (flag : ThreadStateFlag) → is_live flag ≡ true → mark_live (mark_queued flag) ≡ live
  unfolding is_live
  mark_queued-is_live live h = refl
  mark_queued-is_live queued_objects h = refl
  mark_queued-is_live dying h = absurd (ground (arith, h))
  mark_queued-is_live dead h = absurd (ground (arith, h))

  still_live :
      (flag : ThreadStateFlag) → is_live flag ≡ true → is_live (mark_live (mark_queued flag)) ≡ true
  unfolding is_live
  still_live flag h = ap is_live (mark_queued-is_live flag h)

  loop_last :
      (s : SharedThreadInfo queue) (m m' : Memory) (q : Q)
      → do_process queue build s.short_id fuel s.inner m ≡ done (some (q, m'))
      → contents q ≡ []
      → collect_loop queue build fuel [] s m
        ≡ done (some (record s { state_flag = mark_live s.state_flag; inner = q }, m'))
  unfolding collect_loop
  loop_last s m m' q call empty = rw (call, collect_loop, is_empty_lem q ∙ ap is_nil empty) refl

  loop_next :
      (s : SharedThreadInfo queue) (m m' : Memory) (q : Q) (first : QueuedObject)
      (others : List QueuedObject) (arrivals : List (QueuedObject × List QueuedObject))
      → do_process queue build s.short_id fuel s.inner m ≡ done (some (q, m'))
      → contents q ≡ []
      → collect_loop queue build fuel ((first, others) ∷ arrivals) s m
        ≡ collect_loop queue build fuel arrivals
            (record s {
              state_flag = mark_live (mark_queued s.state_flag);
              inner = push_all queue (push q first) others;
            })
            m'
  unfolding collect_loop
  loop_next s m m' q first others arrivals call empty =
      rw (call, collect_loop, is_empty-arrived q first others empty) refl

  -- A call that returns with the memory `last`, and leaves the queue empty.
  abbrev pub IsDrained : ShortThreadId → ThreadStateFlag → ℕ → Memory → Outcome queue → Type 0
  IsDrained short_id flag strong last outcome =
      (s' : SharedThreadInfo queue) × (outcome ≡ done (some (s', last)))
      × (contents s'.inner ≡ [])
      × (s'.state_flag ≡ flag)
      × (s'.strong ≡ strong)
      × (s'.short_id ≡ short_id)

  collect_loop-IsDrained :
      (arrivals : List (QueuedObject × List QueuedObject)) (s : SharedThreadInfo queue) (m : Memory)
      {last : Memory}
      → length (contents s.inner ++ arrived arrivals) < fuel
      → is_live s.state_flag ≡ true
      → merge_all build s.short_id (contents s.inner ++ arrived arrivals) m ≡ done last
      → IsDrained s.short_id live s.strong last (collect_loop queue build fuel arrivals s m)
  collect_loop-IsDrained [] s m {last} enough alive call =
      let xs = contents s.inner in
      let (q, run, empty) =
        do_process_returns queue build s.short_id xs fuel s.inner m refl
          (rw (← append-nil xs) enough)
          (ap (λ ys. merge_all build s.short_id ys m) (sym (append-nil xs)) ∙ call) in
      (
        record s { state_flag = mark_live s.state_flag; inner = q },
        loop_last s m last q run empty,
        empty,
        mark_live-is_live s.state_flag alive,
        refl,
        refl,
      )
  collect_loop-IsDrained ((first, others) ∷ arrivals) s m {last} enough alive call =
      let xs = contents s.inner in
      let later = first ∷ (others ++ arrived arrivals) in
      let (mid, before, after) = merge_all_split build s.short_id xs later m call in
      let (q, run, empty) =
        do_process_returns queue build s.short_id xs fuel s.inner m refl
          (omega (arith, length-append xs later, enough)) before in
      let s' : SharedThreadInfo queue = record s {
        state_flag = mark_live (mark_queued s.state_flag);
        inner = push_all queue (push q first) others;
      } in
      let same : contents s'.inner ++ arrived arrivals ≡ later =
        ap (λ ys. ys ++ arrived arrivals) (contents-arrived q first others empty) in
      let (s'', rest, rest_empty, flag, strong, id) =
        collect_loop-IsDrained arrivals s' mid
          (omega (arith, ap (length {A = ℕ}) same, length-append xs later, enough))
          (still_live s.state_flag alive)
          (ap (λ ys. merge_all build s.short_id ys mid) same ∙ after) in
      (
        s'',
        loop_next s m mid q first others arrivals run empty ∙ rest,
        rest_empty,
        flag,
        strong,
        id,
      )

  pub drop_arc_kept :
      (s : SharedThreadInfo queue) (m : Memory) (n : ℕ)
      → s.strong ≡ suc (suc n)
      → drop_arc queue build fuel s m ≡ done (some (record s { strong = suc n }, m))
  unfolding drop_arc
  drop_arc_kept s m n e = ground (arith, e)

  collect_step :
      (arrivals : List (QueuedObject × List QueuedObject)) (s s' : SharedThreadInfo queue)
      (m m' : Memory) (n : ℕ)
      → s.strong ≡ suc n
      → is_live s.state_flag ≡ true
      → collect_loop queue build fuel arrivals (record s { strong = s.strong + 1 }) m
        ≡ done (some (s', m'))
      → s'.strong ≡ suc (suc n)
      → collect_force queue build fuel arrivals s m ≡ done (some (record s' { strong = suc n }, m'))
  unfolding collect_force
  collect_step arrivals s s' m m' n held alive run more =
      let present : (s.strong == 0) ≡ false = ground (arith, held) in
      rw (alive, run, present) (drop_arc_kept s' m' n more)

  -- A collection by a live thread, with enough fuel, merges the objects of its queue and those that
  -- arrive meanwhile, from the first to the last, where these merges return: it leaves the queue empty,
  -- the flag at `live`, and the queue's `Arc`s as they were.
  pub collect_force-IsDrained :
      (arrivals : List (QueuedObject × List QueuedObject)) (s : SharedThreadInfo queue) (m : Memory)
      {last : Memory} (n : ℕ)
      → s.strong ≡ suc n
      → length (contents s.inner ++ arrived arrivals) < fuel
      → is_live s.state_flag ≡ true
      → merge_all build s.short_id (contents s.inner ++ arrived arrivals) m ≡ done last
      → IsDrained s.short_id live (suc n) last (collect_force queue build fuel arrivals s m)
  collect_force-IsDrained arrivals s m {last} n held enough alive call =
      let (s', run, empty, flag, strong, id) =
        collect_loop-IsDrained arrivals (record s { strong = s.strong + 1 }) m enough alive call in
      (
        record s' { strong = suc n },
        collect_step arrivals s s' m last n held alive run (omega (arith, strong, held)),
        empty,
        flag,
        refl,
        id,
      )

  pub drop_arc_last :
      (s : SharedThreadInfo queue) (m : Memory) {last : Memory}
      → s.strong ≡ 1
      → length (contents s.inner) < fuel
      → merge_all build s.short_id (contents s.inner) m ≡ done last
      → IsDrained s.short_id s.state_flag 0 last (drop_arc queue build fuel s m)
  unfolding drop_arc
  drop_arc_last s m {last} one enough call =
      let (q, run, empty) =
        do_process_returns queue build s.short_id (contents s.inner) fuel s.inner m refl enough
          call in
      (record s { strong = 0; inner = q }, rw (one, drop_arc, run) refl, empty, refl, refl, refl)

  pub drop_local_step :
      (s s' : SharedThreadInfo queue) (m m' : Memory)
      → is_live s.state_flag ≡ true
      → drop_arc queue build fuel (record s { state_flag = dying }) m ≡ done (some (s', m'))
      → s'.state_flag ≡ dying
      → drop_local queue build fuel s m ≡ done (some (record s' { state_flag = dead }, m'))
  unfolding drop_local
  drop_local_step s s' m m' alive run flag = rw (alive, run, drop_local, flag) refl

  -- The death of a live thread that alone holds its queue, with enough fuel, merges the queued objects,
  -- where these merges return, and leaves the queue empty and gone, and the flag at `dead`.
  pub drop_local-IsDrained :
      (s : SharedThreadInfo queue) (m : Memory) {last : Memory}
      → s.strong ≡ 1
      → length (contents s.inner) < fuel
      → is_live s.state_flag ≡ true
      → merge_all build s.short_id (contents s.inner) m ≡ done last
      → IsDrained s.short_id dead 0 last (drop_local queue build fuel s m)
  drop_local-IsDrained s m {last} one enough alive call =
      let (s', run, empty, flag, strong, id) =
        drop_arc_last (record s { state_flag = dying }) m one enough call in
      (
        record s' { state_flag = dead },
        drop_local_step s s' m last alive run flag,
        empty,
        refl,
        strong,
        id,
      )
