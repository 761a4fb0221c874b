-- ===== src/Threads/Resumption.antt =====
-- A collection that a panicking destructor ends, and the collection after it.
use biasedrc_rs.Common.{
  ℕ, suc, ◌+◌, ◌<◌, ◌≡◌, refl, sym, ap, ◌∙◌, Bool, true, false, ◌&&◌, Option, none, some, List, [],
  ◌∷◌, ◌++◌, length, ◌==◌, if◌then◌else◌, Result, ok, err, append-nil, arith,
}
use biasedrc_rs.Exec.{Exec, done, fault, ◌>>=◌}
use biasedrc_rs.Ids.{ShortThreadId}
use biasedrc_rs.Header.{Build, Merged, explicit_merge}
use biasedrc_rs.Threads.SegQueue.{SegQueue}
use biasedrc_rs.Threads.Memory.{
  QueuedObject, Memory, after_merge_at, merge_object, merge_all, merge_all-append,
}
use biasedrc_rs.Threads.Shared.{
  SharedThreadInfo, is_live, live, collect_force, collect_loop, drop_arc,
}
use biasedrc_rs.Threads.Drain.{collect_force-IsDrained}
use biasedrc_rs.Threads.Boxcar.{Boxcar}
use biasedrc_rs.Threads.Registry.{Entry, LocalThreadState}
use biasedrc_rs.Threads.Local.{LocalThreadAccessError}
use biasedrc_rs.Threads.Current.{Accessed, Current, with_current}
use biasedrc_rs.Threads.Collect.{Scene, shared_of, currently_needs_collect}
use biasedrc_rs.Threads.Unwinding.{
  Unwinding, State, NoUnwind, aborted, maybe_abort_unwind, UnwindPolicy, may_panic, never_panic,
  process, release_arc, force_loop, force, force_if_queued, slow, collect_by,
}
use biasedrc_rs.Threads.Panics.{IsCalm, process_calm, process_unwound}

module _ (queue : SegQueue QueuedObject) (build : Build) (panics : QueuedObject → Bool)
    (fuel : ℕ) where
  open queue use {Q, contents, is_empty}

  -- A state of the shared data in which a live thread has its queue.
  abbrev pub HasQueue : ℕ → SharedThreadInfo queue → Type 0
  HasQueue n s = (s.strong ≡ suc n) × (is_live s.state_flag ≡ true)

  calm_arc :
      (s : SharedThreadInfo queue) (m : Memory) (n : ℕ) (unwound : Bool)
      → s.strong ≡ suc (suc n)
      → release_arc queue build panics fuel unwound s m
        ≡ done (some (unwound, (record s { strong = suc n }, m)))
  unfolding release_arc
  calm_arc s m n unwound e = ground (arith, e)

  force_unwound :
      (arrivals : List (QueuedObject × List QueuedObject)) (s : SharedThreadInfo queue)
      (m m' : Memory) (n : ℕ) (q : Q)
      → HasQueue n s
      → process queue build panics s.short_id fuel s.inner m ≡ done (some (true, (q, m')))
      → force queue build panics fuel arrivals s m
        ≡ done (some (true, (record s { inner = q; strong = suc n }, m')))
  unfolding force force_loop
  force_unwound [] s m m' n q (held, alive) run =
      let present : (s.strong == 0) ≡ false = ground (arith, held) in
      rw (alive, present, run)
        (calm_arc (record s { inner = q; strong = s.strong + 1 }) m' n true (omega (arith, held)))
  force_unwound (x ∷ arrivals) s m m' n q (held, alive) run =
      let present : (s.strong == 0) ≡ false = ground (arith, held) in
      rw (alive, present, run)
        (calm_arc (record s { inner = q; strong = s.strong + 1 }) m' n true (omega (arith, held)))

  -- Where no destructor panics, the collection is that of Threads/Shared.
  force_calm :
      (s s' : SharedThreadInfo queue) (m m' : Memory) (n : ℕ)
      → HasQueue n s
      → IsCalm queue build panics (contents s.inner)
      → collect_force queue build fuel [] s m ≡ done (some (s', m'))
      → force queue build panics fuel [] s m ≡ done (some (false, (s', m')))
  unfolding force force_loop collect_force collect_loop drop_arc release_arc
  force_calm s s' m m' n (held, alive) calm run =
      let quiet =
        process_calm queue build panics s.short_id (contents s.inner) fuel s.inner m refl calm in
      ground (arith, held, alive, quiet, run)

  all_merged :
      (short_id : ShortThreadId) (before : List QueuedObject) (object : QueuedObject)
      (after : List QueuedObject) (m : Memory) {mid last : Memory} {r : Merged}
      → merge_all build short_id before m ≡ done mid
      → explicit_merge build short_id [] (mid.header_at object) ≡ done r
      → merge_all build short_id after (after_merge_at object mid r) ≡ done last
      → merge_all build short_id (before ++ object ∷ after) m ≡ done last
  unfolding merge_all merge_object
  all_merged short_id before object after m first middle rest =
      merge_all-append build short_id before (object ∷ after) m
      ∙ ap (λ x. x >>= merge_all build short_id (object ∷ after)) first
      ∙ ground (arith, middle, rest)

  -- Where the first destructor that panics is that of `object`, a collection by a live thread unwinds:
  -- it has merged the objects up to this one, and leaves those behind it in the queue, and the flag and
  -- the `Arc`s as they were. Where none of those behind panics, the next collection merges them: the
  -- queue is empty then, and the flag at `live`. Together the two do what the merges of all the objects
  -- do, one after the other. The merges must return, and the fuel be enough.
  pub force-resumed :
      (before : List QueuedObject) (object : QueuedObject) (after : List QueuedObject)
      (arrivals : List (QueuedObject × List QueuedObject)) (s : SharedThreadInfo queue) (m : Memory)
      {mid last : Memory} {r : Merged} (n : ℕ)
      → HasQueue n s
      → contents s.inner ≡ before ++ object ∷ after
      → length before < fuel
      → length after < fuel
      → IsCalm queue build panics before
      → (r.dealloc && panics object) ≡ true
      → IsCalm queue build panics after
      → merge_all build s.short_id before m ≡ done mid
      → explicit_merge build s.short_id [] (mid.header_at object) ≡ done r
      → merge_all build s.short_id after (after_merge_at object mid r) ≡ done last
      → (s' s'' : SharedThreadInfo queue) × (force queue build panics fuel arrivals s m
          ≡ done (some (true, (s', after_merge_at object mid r))))
        × (contents s'.inner ≡ after)
        × (s'.state_flag ≡ s.state_flag)
        × (s'.strong ≡ s.strong)
        × (force queue build panics fuel [] s' (after_merge_at object mid r)
            ≡ done (some (false, (s'', last))))
        × (contents s''.inner ≡ [])
        × (s''.state_flag ≡ live)
        × (merge_all build s.short_id (contents s.inner) m ≡ done last)
  force-resumed before object after arrivals s m {mid} {last} {r} n (held, alive) queued enough
        enough' calm panic calm' first middle rest =
      let (q, run, left) =
        process_unwound queue build panics s.short_id before object after fuel s.inner m queued calm
          enough first middle panic in
      let s' : SharedThreadInfo queue = record s { inner = q; strong = suc n } in
      let (s'', again, empty, flag, strong, id) =
        collect_force-IsDrained queue build fuel [] s' (after_merge_at object mid r) n refl
          (rw (append-nil (contents q), left) enough') alive
          (ap (λ xs. merge_all build s.short_id xs (after_merge_at object mid r))
              (append-nil (contents q) ∙ left)
            ∙ rest) in
      (
        s',
        s'',
        force_unwound arrivals s m (after_merge_at object mid r) n q (held, alive) run,
        left,
        refl,
        sym held,
        force_calm s' s'' (after_merge_at object mid r) last n (refl, alive) (rw left calm') again,
        empty,
        flag,
        ap (λ xs. merge_all build s.short_id xs m) queued
            ∙ all_merged s.short_id before object after m first middle rest,
      )

  module _ (vec : Boxcar Entry) (nounwind : NoUnwind) where
    open nounwind use {abort_unwind, abort_unwind_lem}

    slow_nounwind :
        (panicking : Bool) (arrivals : List (QueuedObject × List QueuedObject))
        (scene : Scene queue vec build fuel)
        → slow queue build panics fuel vec nounwind never_panic panicking arrivals scene
          ≡ abort_unwind
              (slow queue build panics fuel vec nounwind may_panic panicking arrivals scene)
    unfolding slow maybe_abort_unwind
    slow_nounwind panicking arrivals (c, s, m) = by_access (with_current vec c)
      where
        Seen : Type 0
        Seen = Scene queue vec build fuel

        ended : Current vec → Option (Bool × State queue build panics) → Unwinding Seen
        ended current none = done none
        ended current (some (unwound, (s', m'))) = done (some (unwound, (current, s', m')))

        by_run :
            (current : Current vec) (x : Unwinding (State queue build panics))
            → (aborted x >>= ended current) ≡ aborted (x >>= ended current)
        by_run current (done none) = refl
        by_run current (done (some (true, (s', m')))) = refl
        by_run current (done (some (false, (s', m')))) = refl
        by_run current (fault f) = refl

        proceed : UnwindPolicy → Accessed vec → Unwinding Seen
        proceed policy a = elim a.state [
          | err e ↦ done (some (false, (a.current, s, m)))
          | ok state ↦
              maybe_abort_unwind nounwind policy (
                force_if_queued queue build panics fuel panicking arrivals
                  (shared_of queue vec build fuel c.lazy (ok state) s) m)
              >>= ended a.current
        ]

        by_state :
            (a : Accessed vec) (state : Result LocalThreadState LocalThreadAccessError)
            → proceed never_panic (record a { state = state })
              ≡ abort_unwind (proceed may_panic (record a { state = state }))
        by_state a (err e) = sym (abort_unwind_lem (done (some (false, (a.current, s, m)))))
        by_state a (ok state) =
            let run =
              force_if_queued queue build panics fuel panicking arrivals
                (shared_of queue vec build fuel c.lazy (ok state) s) m in
            ap (λ x. x >>= ended a.current) (abort_unwind_lem run)
            ∙ by_run a.current run
            ∙ sym (abort_unwind_lem (run >>= ended a.current))

        by_access :
            (x : Exec (Accessed vec))
            → (x >>= proceed never_panic) ≡ abort_unwind (x >>= proceed may_panic)
        by_access (fault f) = sym (abort_unwind_lem (fault f))
        by_access (done a) = by_state a a.state

    -- `collect_nounwind` is `abort_unwind(collect)`: it does what `collect` does, and aborts where that
    -- unwinds.
    pub collect_by-nounwind :
        (panicking : Bool) (arrivals : List (QueuedObject × List QueuedObject))
        (scene : Scene queue vec build fuel)
        → collect_by queue build panics fuel vec nounwind never_panic panicking arrivals scene
          ≡ abort_unwind
              (collect_by queue build panics fuel vec nounwind may_panic panicking arrivals scene)
    unfolding collect_by
    collect_by-nounwind panicking arrivals (c, s, m) =
        by_need (currently_needs_collect c.fast s.state_flag)
      where
        Seen : Type 0
        Seen = Scene queue vec build fuel

        pass : Unwinding Seen
        pass = done (some (false, (c, s, m)))

        run : UnwindPolicy → Unwinding Seen
        run policy = slow queue build panics fuel vec nounwind policy panicking arrivals (c, s, m)

        by_need :
            (b : Bool)
            → (if b then run never_panic else pass)
              ≡ abort_unwind (if b then run may_panic else pass)
        by_need true = slow_nounwind panicking arrivals (c, s, m)
        by_need false = sym (abort_unwind_lem pass)
