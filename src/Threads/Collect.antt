-- ===== src/Threads/Collect.antt =====
-- src/runtime.rs: `collect` and its variants; src/runtime/threads.rs: `currently_needs_collect` and
-- `collect_slow`, where no destructor panics; Threads/Unwinding has those that do.
use biasedrc_rs.Common.{
  ℕ, suc, ◌<◌, ◌≡◌, ap, ◌∙◌, arith, ◌||◌, Bool, true, false, not, Option, none, some, List, [],
  ◌++◌, length, if◌then◌else◌, Result, ok, err,
}
use biasedrc_rs.Exec.{Exec, done, ◌>>=◌}
use biasedrc_rs.Header.{Build}
use biasedrc_rs.Threads.Local.{
  FlagRef, dummy, flag_of, LocalThreadStateFast, LocalThreadAccessError,
}
use biasedrc_rs.Threads.SegQueue.{SegQueue}
use biasedrc_rs.Threads.Memory.{QueuedObject, Memory, merge_all}
use biasedrc_rs.Threads.Shared.{
  ThreadStateFlag, live, queued_objects, dying, dead, is_live, SharedThreadInfo, shared_init,
  Outcome, collect_force,
}
use biasedrc_rs.Threads.Drain.{arrived, collect_force-IsDrained}
use biasedrc_rs.Threads.Boxcar.{Boxcar}
use biasedrc_rs.Threads.Registry.{Entry, Registry, LocalThreadState}
use biasedrc_rs.Threads.Current.{Lazy, untouched, present, Current, with_current}

abbrev pub is_exactly_live : ThreadStateFlag → Bool
is_exactly_live live = true
is_exactly_live queued_objects = false
is_exactly_live dying = false
is_exactly_live dead = false

-- What a load of the referenced flag returns, where `own` is the flag of the thread itself;
-- `DUMMY_STATE_FLAG` is always `dying`.
abbrev pub load_flag : ThreadStateFlag → FlagRef → ThreadStateFlag
load_flag own dummy = dying
load_flag own (flag_of i) = own

unfoldable pub currently_needs_collect : LocalThreadStateFast → ThreadStateFlag → Bool
currently_needs_collect fast own = not (is_exactly_live (load_flag own fast.shared_state_flag))

module _ (queue : SegQueue QueuedObject) (vec : Boxcar Entry) (build : Build) (fuel : ℕ) where
  open queue use {contents}

  -- What a thread sees of itself, its shared state, and the memory.
  abbrev pub Scene : Type 0
  Scene = Current vec × SharedThreadInfo queue × Memory

  -- The shared state that `state` refers to: a new one if this access was the registration.
  abbrev pub shared_of :
      Lazy
      → Result LocalThreadState LocalThreadAccessError
      → SharedThreadInfo queue
      → SharedThreadInfo queue
  shared_of untouched (ok state) s = shared_init queue state.short_id
  shared_of _ _ s = s

  abbrev pub with_scene : Current vec → Option (SharedThreadInfo queue × Memory) → Option Scene
  with_scene c none = none
  with_scene c (some (s, m)) = some (c, s, m)

  -- The closure of `collect_slow`.
  unfoldable pub collect_if_queued :
      Bool
      → List (QueuedObject × List QueuedObject)
      → SharedThreadInfo queue
      → Memory
      → Outcome queue
  collect_if_queued panicking arrivals s m =
      if panicking
      then done (some (s, m))
      else if is_exactly_live s.state_flag
      then done (some (s, m))
      else collect_force queue build fuel arrivals s m

  unfoldable pub collect_slow :
      Bool → List (QueuedObject × List QueuedObject) → Scene → Exec (Option Scene)
  unfolding collect_if_queued
  collect_slow panicking arrivals (c, s, m) = with_current vec c >>= λ a. elim a.state [
    | err e ↦ done (some (a.current, s, m))
    | ok state ↦
        let s' = shared_of c.lazy a.state s in
        collect_if_queued panicking arrivals s' m >>= λ r. done (with_scene a.current r)
  ]

  -- `collect` and `collect_nounwind`
  unfoldable pub collect :
      Bool → List (QueuedObject × List QueuedObject) → Scene → Exec (Option Scene)
  unfolding collect_slow currently_needs_collect
  collect panicking arrivals (c, s, m) =
      if currently_needs_collect c.fast s.state_flag
      then collect_slow panicking arrivals (c, s, m)
      else done (some (c, s, m))

  -- `disabled` is the feature `implicit-collect-disable`.
  unfoldable pub collect_implicit :
      Bool → Bool → List (QueuedObject × List QueuedObject) → Scene → Exec (Option Scene)
  unfolding collect
  collect_implicit disabled panicking arrivals scene =
      if disabled then done (some scene) else collect panicking arrivals scene

  pub collect_implicit_idle :
      (disabled panicking : Bool) (arrivals : List (QueuedObject × List QueuedObject)) (s : Scene)
      → disabled || not (currently_needs_collect s.0.fast s.1.state_flag) ≡ true
      → collect_implicit disabled panicking arrivals s ≡ done (some s)
  unfolding collect_implicit collect
  collect_implicit_idle disabled panicking arrivals (current, shared, m) idle = ground (arith, idle)

  -- A registered thread.
  abbrev pub registered : Registry vec → LocalThreadStateFast → LocalThreadState → Current vec
  registered registry fast state = record {
    registry = registry;
    fast = fast;
    lazy = present (ok state);
  }

  queued_collected :
      (arrivals : List (QueuedObject × List QueuedObject)) (s : SharedThreadInfo queue) (m : Memory)
      → s.state_flag ≡ queued_objects
      → collect_if_queued false arrivals s m ≡ collect_force queue build fuel arrivals s m
  unfolding collect_if_queued
  queued_collected arrivals s m flag =
      ap
        (λ f.
          if is_exactly_live f
          then done (some (s, m))
          else collect_force queue build fuel arrivals s m)
        flag

  slow_collected :
      (arrivals : List (QueuedObject × List QueuedObject)) (s s' : SharedThreadInfo queue)
      (m m' : Memory) (state : LocalThreadState) (registry : Registry vec)
      (fast : LocalThreadStateFast)
      → s.state_flag ≡ queued_objects
      → collect_force queue build fuel arrivals s m ≡ done (some (s', m'))
      → collect_slow false arrivals (registered registry fast state, s, m)
        ≡ done (some (registered registry fast state, s', m'))
  unfolding collect_slow with_current
  slow_collected arrivals s s' m m' state registry fast flag run =
      ap (λ (r : Outcome queue). r >>= λ x. done (with_scene (registered registry fast state) x))
        (queued_collected arrivals s m flag ∙ run)

  needs_collect :
      (fast : LocalThreadStateFast) (own : ThreadStateFlag) (i : ℕ)
      → fast.shared_state_flag ≡ flag_of i
      → own ≡ queued_objects
      → currently_needs_collect fast own ≡ true
  unfolding currently_needs_collect
  needs_collect fast own i e flag =
      ap (λ r. not (is_exactly_live (load_flag own r))) e ∙ ap (λ f. not (is_exactly_live f)) flag

  -- An implicit collection, unless it is disabled or the thread is panicking, on a registered thread
  -- whose flag says that objects are queued, with enough fuel, merges these objects and those that
  -- arrive meanwhile, where their merges return: it leaves the queue empty and the flag at `live`.
  pub collect_implicit-drained :
      (arrivals : List (QueuedObject × List QueuedObject)) (registry : Registry vec)
      (fast : LocalThreadStateFast) (state : LocalThreadState) (s : SharedThreadInfo queue)
      (m : Memory) {last : Memory} (n i : ℕ)
      → fast.shared_state_flag ≡ flag_of i
      → s.state_flag ≡ queued_objects
      → s.strong ≡ suc n
      → length (contents s.inner ++ arrived arrivals) < fuel
      → merge_all build s.short_id (contents s.inner ++ arrived arrivals) m ≡ done last
      → (s' : SharedThreadInfo queue) × (collect_implicit false false arrivals
            (registered registry fast state, s, m)
          ≡ done (some (registered registry fast state, s', last)))
        × (contents s'.inner ≡ [])
        × (s'.state_flag ≡ live)
  unfolding collect_implicit collect is_live
  collect_implicit-drained arrivals registry fast state s m {last} n i own flag held enough call =
      let c = registered registry fast state in
      let (s', run, empty, calm, strong, id) =
        collect_force-IsDrained queue build fuel arrivals s m n held enough (ap is_live flag)
          call in
      (
        s',
        ap
              (λ b.
                let idle : Exec (Option Scene) = done (some (c, s, m)) in
                if b then collect_slow false arrivals (c, s, m) else idle)
              (needs_collect fast s.state_flag i own flag)
            ∙ slow_collected arrivals s s' m last state registry fast flag run,
        empty,
        calm,
      )
