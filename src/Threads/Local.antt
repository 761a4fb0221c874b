-- ===== src/Threads/Local.antt =====
-- src/runtime/threads.rs: `THIS_THREAD_STATE_FAST`, what a thread knows of itself without a lock.
use biasedrc_rs.Common.{ℕ, ◌≡◌, refl, Option, none, some, Result, ok, err}
use biasedrc_rs.Exec.{Exec, done, fault, Fault}
use biasedrc_rs.Ids.{ShortThreadId}

pub data LocalThreadStatus : Type 0 where
  dead_or_dying uninit active : LocalThreadStatus

-- A reference to a flag: `DUMMY_STATE_FLAG`, or the flag of the thread registered at an index.
pub data FlagRef : Type 0 where
  dummy : FlagRef
  flag_of : ℕ → FlagRef

pub record LocalThreadStateFast : Type 0 where
  pub status : LocalThreadStatus
  pub short_id : Option ShortThreadId
  pub shared_state_flag : FlagRef

-- The constant that `thread_local!` starts from.
abbrev pub initial_fast : LocalThreadStateFast
initial_fast = record { status = uninit; short_id = none; shared_state_flag = dummy }

pub data LocalThreadAccessError : Type 0 where
  uninitialized is_dead id_overflow : LocalThreadAccessError

abbrev pub short_id_of :
    LocalThreadStatus → Option ShortThreadId → Exec (Result ShortThreadId LocalThreadAccessError)
short_id_of uninit none = done (err uninitialized)
short_id_of dead_or_dying none = done (err is_dead)
short_id_of active (some t) = done (ok t)
short_id_of active none = fault Fault.unreachable_unchecked
short_id_of uninit (some t) = fault Fault.unreachable_unchecked
short_id_of dead_or_dying (some t) = fault Fault.unreachable_unchecked

unfoldable pub existing_short_id :
    LocalThreadStateFast → Exec (Result ShortThreadId LocalThreadAccessError)
existing_short_id fast = short_id_of fast.status fast.short_id

-- A short id is held exactly by an active thread.
abbrev pub IsConsistentStatus : LocalThreadStatus → Option ShortThreadId → Type 0
IsConsistentStatus active (some t) = Unit {0}
IsConsistentStatus uninit none = Unit {0}
IsConsistentStatus dead_or_dying none = Unit {0}
IsConsistentStatus _ _ = ⊥

abbrev pub IsConsistent : LocalThreadStateFast → Type 0
IsConsistent fast = IsConsistentStatus fast.status fast.short_id

abbrev pub access_error : LocalThreadStatus → LocalThreadAccessError
access_error uninit = uninitialized
access_error dead_or_dying = is_dead
access_error active = id_overflow

abbrev pub access :
    LocalThreadStatus → Option ShortThreadId → Result ShortThreadId LocalThreadAccessError
access s (some t) = ok t
access s none = err (access_error s)

-- In a consistent state the call succeeds, and tells the short id or why there is none.
pub existing_short_id_lem :
    (fast : LocalThreadStateFast)
    → IsConsistent fast
    → existing_short_id fast ≡ done (access fast.status fast.short_id)
unfolding existing_short_id
existing_short_id_lem fast h = by_cases fast.status fast.short_id h
  where
    by_cases :
        (s : LocalThreadStatus) (o : Option ShortThreadId)
        → IsConsistentStatus s o
        → short_id_of s o ≡ done (access s o)
    by_cases active (some t) h = refl
    by_cases uninit none h = refl
    by_cases dead_or_dying none h = refl
    by_cases active none h = elim h [ ]
    by_cases uninit (some t) h = elim h [ ]
    by_cases dead_or_dying (some t) h = elim h [ ]
