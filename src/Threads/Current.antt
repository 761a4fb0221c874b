-- ===== src/Threads/Current.antt =====
-- src/runtime/threads.rs: the lazy `THIS_THREAD_STATE`; src/runtime.rs: `RawBrcHeader::init`, which may
-- be the call that registers the thread.
use biasedrc_rs.Common.{Option, none, some, Result, ok, err}
use biasedrc_rs.Exec.{Exec, done, ◌>>=◌}
use biasedrc_rs.Ids.{ShortThreadId}
use biasedrc_rs.Words.ArbitraryInt.{ArbitraryInt}
use biasedrc_rs.Header.{RawBrcHeader, init_header}
use biasedrc_rs.Threads.Local.{
  LocalThreadStateFast, LocalThreadAccessError, uninitialized, is_dead, id_overflow,
  existing_short_id,
}
use biasedrc_rs.Threads.Boxcar.{Boxcar}
use biasedrc_rs.Threads.Registry.{
  Entry, LocalThreadState, ThreadStateInitError, already_died, overflow, Registry, init_thread,
}

-- `THIS_THREAD_STATE` before its first use, with its value, and after its destruction.
pub data Lazy : Type 0 where
  untouched destroyed : Lazy
  present : Result LocalThreadState ThreadStateInitError → Lazy

abbrev pub access_of :
    Result LocalThreadState ThreadStateInitError → Result LocalThreadState LocalThreadAccessError
access_of (ok state) = ok state
access_of (err (overflow e)) = err id_overflow
access_of (err already_died) = err is_dead

module _ (vec : Boxcar Entry) where
  -- What a thread sees of itself, beside the registry.
  pub record Current : Type 0 where
    pub registry : Registry vec
    pub fast : LocalThreadStateFast
    pub lazy : Lazy

  pub record Accessed : Type 0 where
    pub current : Current
    pub state : Result LocalThreadState LocalThreadAccessError

  -- `with_current` up to the call of its closure, which gets `state`.
  unfoldable pub with_current : Current → Exec Accessed
  with_current c = elim c.lazy [
    | destroyed ↦ done (record { current = c; state = err is_dead })
    | present state ↦ done (record { current = c; state = access_of state })
    | untouched ↦ init_thread vec c.registry c.fast >>= λ r. done (record {
      current = record { registry = r.registry; fast = r.fast; lazy = present r.state };
      state = access_of r.state;
    })
  ]

  pub record Initialized : Type 0 where
    pub current : Current
    pub this_id : Option ShortThreadId

  abbrev pub id_of : Result LocalThreadState LocalThreadAccessError → Option ShortThreadId
  id_of (ok state) = some state.short_id
  id_of (err e) = none

  unfoldable pub init_tid : Current → Exec Initialized
  unfolding with_current
  init_tid c =
      with_current c >>= λ a. done (record { current = a.current; this_id = id_of a.state })

  -- The thread id that `init` decides on.
  unfoldable pub choose_id : Current → Exec Initialized
  unfolding init_tid
  choose_id c = existing_short_id c.fast >>= elim [
    | ok short_id ↦ done (record { current = c; this_id = some short_id })
    | err is_dead ↦ done (record { current = c; this_id = none })
    | err id_overflow ↦ done (record { current = c; this_id = none })
    | err uninitialized ↦ init_tid c
  ]

  unfoldable pub init : ArbitraryInt → Current → Exec (Current × RawBrcHeader)
  unfolding choose_id
  init int c = choose_id c >>= λ i. done (i.current, init_header int i.this_id)

  -- `Drop for LocalThreadState` does not leave `THIS_THREAD_STATE` to be used again.
  abbrev pub after_exit : Current → LocalThreadStateFast → Current
  after_exit c fast = record { registry = c.registry; fast = fast; lazy = destroyed }
