-- ===== src/Threads/Unwinding.antt =====
-- src/runtime.rs, src/runtime/threads.rs: collections in which the destructors of objects may panic,
-- and the policies of `collect` and `collect_nounwind`. `panics` says for which objects the destructor
-- panics; the merge of an object ends with its destructor.
use biasedrc_rs.Common.{
  ℕ, zero, suc, ◌+◌, ◌-◌, Bool, true, false, ◌&&◌, ◌||◌, Option, none, some, List, [], ◌∷◌, ◌==◌,
  if◌then◌else◌, ok, err, ◌≡◌, refl,
}
use biasedrc_rs.Exec.{Exec, done, fault, Fault, ◌>>=◌}
use biasedrc_rs.Ids.{ShortThreadId}
use biasedrc_rs.Header.{Build, explicit_merge}
use biasedrc_rs.Threads.SegQueue.{SegQueue}
use biasedrc_rs.Threads.Memory.{QueuedObject, Memory, after_merge_at}
use biasedrc_rs.Threads.Shared.{SharedThreadInfo, is_live, mark_live, mark_queued, push_all}
use biasedrc_rs.Threads.Boxcar.{Boxcar}
use biasedrc_rs.Threads.Registry.{Entry}
use biasedrc_rs.Threads.Current.{with_current}
use biasedrc_rs.Threads.Collect.{Scene, shared_of, is_exactly_live, currently_needs_collect}

-- A call that ends; the flag says that it unwinds. `none` is a loop that has not ended yet.
abbrev pub Unwinding {ℓ} : Type ℓ → Type ℓ
Unwinding A = Exec (Option (Bool × A))

-- What the documentation of the crate `nounwind` says of `abort_unwind`: a call that would unwind aborts.
abbrev pub aborted : {A : Type 0} → Unwinding A → Unwinding A
aborted (done (some (true, a))) = fault Fault.unwind_aborted
aborted (done (some (false, a))) = done (some (false, a))
aborted (done none) = done none
aborted (fault e) = fault e

-- The crate, a parameter.
pub record NoUnwind : Type 1 where
  pub abort_unwind : {A : Type 0} → Unwinding A → Unwinding A
  pub abort_unwind_lem : {A : Type 0} (call : Unwinding A) → abort_unwind call ≡ aborted call

abbrev pub plain_nounwind : NoUnwind
plain_nounwind = record { abort_unwind = aborted; abort_unwind_lem = λ call. refl }

-- `UnwindPolicy`
pub data UnwindPolicy : Type 0 where
  may_panic never_panic : UnwindPolicy

unfoldable pub maybe_abort_unwind :
    {A : Type 0} → NoUnwind → UnwindPolicy → Unwinding A → Unwinding A
maybe_abort_unwind nounwind may_panic call = call
maybe_abort_unwind nounwind never_panic call = nounwind.abort_unwind call

module _ (queue : SegQueue QueuedObject) (build : Build) (panics : QueuedObject → Bool) where
  open queue use {Q, push, pop, is_empty}

  abbrev pub State : Type 0
  State = SharedThreadInfo queue × Memory

  -- `ObjectQueue::do_process`
  unfoldable pub process : ShortThreadId → ℕ → Q → Memory → Unwinding (Q × Memory)
  process short_id zero q m = done none
  process short_id (suc fuel) q m = elim (pop q) [
    | none ↦ done (some (false, (q, m)))
    | some (remaining, object) ↦ explicit_merge build short_id [] (m.header_at object) >>= λ r.
        let m' = after_merge_at object m r in
        let rest = process short_id fuel remaining m' in
        if r.dealloc && panics object then done (some (true, (remaining, m'))) else rest
  ]

  module _ (fuel : ℕ) where
    -- The drop of an `Arc` of the queue, maybe while the thread is unwinding.
    unfoldable pub release_arc : Bool → SharedThreadInfo queue → Memory → Unwinding State
    unfolding process
    release_arc unwinding s m =
        let last = process s.short_id fuel s.inner m in
        if s.strong == 1
        then (last >>= elim [
          | none ↦ done none
          | some (unwound, (q, m')) ↦
              if unwinding && unwound
              then fault Fault.unwind_aborted
              else done (some (unwinding || unwound, (record s { strong = 0; inner = q }, m')))
        ])
        else done (some (unwinding, (record s { strong = s.strong - 1 }, m)))

    -- The loop of `collect_force`, which a panic leaves.
    unfoldable pub force_loop :
        List (QueuedObject × List QueuedObject) → SharedThreadInfo queue → Memory → Unwinding State
    unfolding process
    force_loop [] s m = process s.short_id fuel s.inner m >>= elim [
      | none ↦ done none
      | some (true, (q, m')) ↦ done (some (true, (record s { inner = q }, m')))
      | some (false, (q, m')) ↦
          if is_empty q
          then done
              (some (false, (record s { state_flag = mark_live s.state_flag; inner = q }, m')))
          else done none
    ]
    force_loop ((first, others) ∷ arrivals) s m = process s.short_id fuel s.inner m >>= elim [
      | none ↦ done none
      | some (true, (q, m')) ↦ done (some (true, (record s { inner = q }, m')))
      | some (false, (q, m')) ↦
          let q' = push_all queue (push q first) others in
          let s' = record s { state_flag = mark_live (mark_queued s.state_flag); inner = q' } in
          let rest = force_loop arrivals s' m' in
          if is_empty q' then done (some (false, (s', m'))) else rest
    ]

    -- `LocalThreadState::collect_force`
    unfoldable pub force :
        List (QueuedObject × List QueuedObject) → SharedThreadInfo queue → Memory → Unwinding State
    unfolding is_live force_loop release_arc
    force arrivals s m =
        if is_live s.state_flag
        then if s.strong == 0
          then done (some (false, (s, m)))
          else (force_loop arrivals (record s { strong = s.strong + 1 }) m
              >>= elim [ none ↦ done none | some (unwound, (s', m')) ↦ release_arc unwound s' m' ])
        else done (some (false, (s, m)))

    -- The closure of `collect_slow`.
    unfoldable pub force_if_queued :
        Bool
        → List (QueuedObject × List QueuedObject)
        → SharedThreadInfo queue
        → Memory
        → Unwinding State
    unfolding force
    force_if_queued panicking arrivals s m =
        if panicking
        then done (some (false, (s, m)))
        else if is_exactly_live s.state_flag
        then done (some (false, (s, m)))
        else force arrivals s m

    module _ (vec : Boxcar Entry) (nounwind : NoUnwind) where
      unfoldable pub slow :
          UnwindPolicy
          → Bool
          → List (QueuedObject × List QueuedObject)
          → Scene queue vec build fuel
          → Unwinding (Scene queue vec build fuel)
      unfolding maybe_abort_unwind force_if_queued
      slow policy panicking arrivals (c, s, m) = with_current vec c >>= λ a. elim a.state [
        | err e ↦ done (some (false, (a.current, s, m)))
        | ok state ↦
            let s' = shared_of queue vec build fuel c.lazy (ok state) s in
            maybe_abort_unwind nounwind policy (force_if_queued panicking arrivals s' m) >>= elim [
              | none ↦ done none
              | some (unwound, (s'', m')) ↦ done (some (unwound, (a.current, s'', m')))
            ]
      ]

      -- `collect` is the one that may panic, `collect_nounwind` the one that may not.
      unfoldable pub collect_by :
          UnwindPolicy
          → Bool
          → List (QueuedObject × List QueuedObject)
          → Scene queue vec build fuel
          → Unwinding (Scene queue vec build fuel)
      unfolding slow currently_needs_collect
      collect_by policy panicking arrivals (c, s, m) =
          let run = slow policy panicking arrivals (c, s, m) in
          if currently_needs_collect c.fast s.state_flag
          then run
          else done (some (false, (c, s, m)))
