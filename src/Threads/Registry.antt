-- ===== src/Threads/Registry.antt =====
-- src/runtime/threads.rs: `THREADS`, `SHORT_THREAD_IDS_EXHAUSTED`, and the registration of a thread.
use biasedrc_rs.Common.{
  ℕ, if◌then◌else◌, Bool, true, false, Option, none, some, option_eq, Result, ok, err,
}
use biasedrc_rs.Exec.{Exec, done, fault, Fault, assert, ◌>>=◌, ◌>>◌}
use biasedrc_rs.Ids.{UniqueThreadId, ShortThreadId, from_index, try_from, index}
use biasedrc_rs.Threads.Local.{
  LocalThreadStatus, active, uninit, dead_or_dying, FlagRef, dummy, flag_of, LocalThreadStateFast,
}
use biasedrc_rs.Threads.Boxcar.{Boxcar}

-- What never changes of a `SharedThreadInfo`; the rest stands behind its index (`Threads.Shared`).
pub record ThreadEntry : Type 0 where
  pub id : UniqueThreadId
  pub short_id : ShortThreadId

pub data ThreadIdOverflowError : Type 0 where
  thread_id_overflow : ThreadIdOverflowError

pub data ThreadStateInitError : Type 0 where
  already_died : ThreadStateInitError
  overflow : ThreadIdOverflowError → ThreadStateInitError

abbrev pub Entry : Type 0
Entry = Result ThreadEntry ThreadIdOverflowError

-- A `LocalThreadState`: the index of its `shared_info`, and its id. Its primary `Arc` is counted in
-- `SharedThreadInfo.strong`.
pub record LocalThreadState : Type 0 where
  pub shared_info : ℕ
  pub short_id : ShortThreadId

abbrev pub is_uninit : LocalThreadStatus → Option ShortThreadId → FlagRef → Bool
is_uninit uninit none dummy = true
is_uninit _ _ _ = false

module _ (vec : Boxcar Entry) where
  open vec use {Vec, count, push, get}

  pub record Registry : Type 0 where
    pub threads : Vec
    pub exhausted : Bool

  -- The registry, the fast state, and the value of `THIS_THREAD_STATE`.
  pub record Registered : Type 0 where
    pub registry : Registry
    pub fast : LocalThreadStateFast
    pub state : Result LocalThreadState ThreadStateInitError

  -- The closure of `push_with`: the new entry, and whether the ids are exhausted from then on.
  unfoldable pub new_entry : UniqueThreadId → Entry
  new_entry id = elim (try_from id) [
    | none ↦ err thread_id_overflow
    | some short_id ↦ ok (record { id = id; short_id = short_id })
  ]

  abbrev pub exhausts : Bool → Entry → Bool
  exhausts before (ok entry) = before
  exhausts before (err e) = true

  -- What follows `THREADS[index]`.
  unfoldable pub activate : Registry → LocalThreadStateFast → ℕ → Entry → Exec Registered
  activate registry fast i (err e) =
      done (record { registry = registry; fast = fast; state = err (overflow e) })
  activate registry fast i (ok shared_info) = do
    assert (is_uninit fast.status fast.short_id fast.shared_state_flag)
    done (record {
      registry = registry;
      fast = record {
        status = active;
        short_id = some shared_info.short_id;
        shared_state_flag = flag_of i;
      };
      state = ok (record { shared_info = i; short_id = shared_info.short_id });
    })

  unfoldable pub register : Registry → LocalThreadStateFast → Exec Registered
  unfolding new_entry activate
  register registry fast = do
    let i = count registry.threads
    id ← from_index i
    let entry = new_entry id
    let registry' : Registry = record {
      threads = push registry.threads entry;
      exhausted = exhausts registry.exhausted entry;
    }
    elim (get registry'.threads i) [
      | none ↦ fault Fault.panicked
      | some found ↦ activate registry' fast i found
    ]

  unfoldable pub init_thread : Registry → LocalThreadStateFast → Exec Registered
  unfolding register
  init_thread registry fast = elim fast.status [
    | dead_or_dying ↦ done (record { registry = registry; fast = fast; state = err already_died })
    | active ↦ fault Fault.panicked
    | uninit ↦
        if registry.exhausted
        then done
            (record { registry = registry; fast = fast; state = err (overflow thread_id_overflow) })
        else register registry fast
  ]

  unfoldable pub get_by_id : Registry → ShortThreadId → Option ThreadEntry
  unfolding index
  get_by_id registry id = elim (get registry.threads (index id)) [
    | none ↦ none
    | some (ok entry) ↦ some entry
    | some (err e) ↦ none
  ]

abbrev is_active : LocalThreadStatus → Bool
is_active active = true
is_active uninit = false
is_active dead_or_dying = false

-- The part of `Drop for LocalThreadState` that only the thread itself sees.
unfoldable pub retire : LocalThreadStateFast → LocalThreadState → Exec LocalThreadStateFast
retire fast state = do
  assert (is_active fast.status)
  assert (option_eq fast.short_id (some state.short_id))
  done (record { status = dead_or_dying; short_id = none; shared_state_flag = dummy })
