-- ===== src/Threads/Lifecycle.antt =====
-- The registration of a thread, and its end: ids are given out in order, and the fast state stays
-- consistent.
use mathlib.Core.Path.{subst}
use biasedrc_rs.Common.{
  ℕ, ◌+◌, ◌-◌, ◌^◌, ◌<◌, ◌≡◌, refl, ap, sym, ◌∙◌, Bool, true, false, Bool-cases, inl, inr, none,
  some, List, [], ◌∷◌, ◌++◌, length, length-append, get_elem?, ltb, if◌then◌else◌, ok, err, arith,
}
use biasedrc_rs.Exec.{done}
use biasedrc_rs.Ids.{short_max, from_index, try_from, index}
use biasedrc_rs.Threads.Local.{
  active, dead_or_dying, LocalThreadStateFast, initial_fast, IsConsistent, flag_of, dummy,
}
use biasedrc_rs.Threads.Boxcar.{Boxcar}
use biasedrc_rs.Threads.Registry.{
  thread_id_overflow, already_died, overflow, Entry, LocalThreadState, Registry, Registered,
  new_entry, exhausts, activate, register, init_thread, get_by_id, retire,
}

-- The entry of the thread that registers at index `i`.
abbrev pub entry_at : ℕ → Entry
entry_at i =
    if ltb i short_max then ok (record { id = i + 1; short_id = i + 1 }) else err thread_id_overflow

abbrev pub IsEntries : ℕ → List Entry → Type 0
IsEntries i [] = Unit {0}
IsEntries i (e ∷ es) = (e ≡ entry_at i) × IsEntries (i + 1) es

IsEntries-append :
    (i : ℕ) (es : List Entry) (e : Entry)
    → IsEntries i es
    → e ≡ entry_at (i + length es)
    → IsEntries i (es ++ (e ∷ []))
IsEntries-append i [] e h same = (same ∙ ap entry_at (omega arith), tt)
IsEntries-append i (x ∷ es) e (first, rest) same =
    (first, IsEntries-append (i + 1) es e rest (same ∙ ap entry_at (omega arith)))

get_elem?-append : (es : List Entry) (e : Entry) → get_elem? (es ++ (e ∷ [])) (length es) ≡ some e
get_elem?-append [] e = refl
get_elem?-append (x ∷ es) e = get_elem?-append es e

if_true {ℓ} : {A : Type ℓ} {x : A} (y : A) {b : Bool} → b ≡ true → (if b then x else y) ≡ x
if_true {x} y h = ap (λ b. if b then x else y) h

if_false {ℓ} : {A : Type ℓ} (x : A) {y : A} {b : Bool} → b ≡ false → (if b then x else y) ≡ y
if_false x {y} h = ap (λ b. if b then x else y) h

module _ (vec : Boxcar Entry) where
  open vec use {count, push, get, contents, count_lem, push_lem, get_lem}

  -- The entries stand in order, and the ids are exhausted once one of them has no short id.
  pub record IsRegistry (registry : Registry vec) : Type 0 where
    pub entries : IsEntries 0 (contents registry.threads)
    pub flag : registry.exhausted ≡ ltb short_max (length (contents registry.threads))

  -- The registry with the next entry.
  abbrev pub extended : Registry vec → Registry vec
  extended registry =
      let e = entry_at (length (contents registry.threads)) in
      record { threads = push registry.threads e; exhausted = exhausts vec registry.exhausted e }

  new_entry_lem : (n : ℕ) → new_entry vec (1 + n) ≡ entry_at n
  unfolding new_entry try_from
  new_entry_lem n = ground arith

  get-push : (v : vec.Vec) (e : Entry) → get (push v e) (length (contents v)) ≡ some e
  get-push v e =
      get_lem (push v e) (length (contents v))
      ∙ ap (λ es. get_elem? es (length (contents v))) (push_lem v e)
      ∙ get_elem?-append (contents v) e

  length-push : (v : vec.Vec) (e : Entry) → length (contents (push v e)) ≡ length (contents v) + 1
  length-push v e = ap (length {A = Entry}) (push_lem v e) ∙ length-append (contents v) (e ∷ [])

  register_lem :
      (registry : Registry vec) (fast : LocalThreadStateFast)
      → (let n = length (contents registry.threads) in
          n < 2 ^ 64 - 1
          → register vec registry fast ≡ activate vec (extended registry) fast n (entry_at n))
  unfolding register from_index
  register_lem registry fast small =
      let n = length (contents registry.threads) in
      let room : ltb (1 + n) (2 ^ 64) ≡ true = ground arith in
      rw
        (
          count_lem registry.threads,
          room,
          new_entry_lem n,
          get-push registry.threads (entry_at n),
          register,
          count_lem registry.threads,
          new_entry_lem n,
        )
        refl

  extended-IsRegistry :
      (registry : Registry vec)
      → IsRegistry registry
      → registry.exhausted ≡ false
      → IsRegistry (extended registry)
  extended-IsRegistry registry h calm =
      let v = registry.threads in
      let e = entry_at (length (contents v)) in
      record {
        entries =
            subst (IsEntries 0) (sym (push_lem v e))
              (IsEntries-append 0 (contents v) e h.entries (ap entry_at (omega arith)));
        flag = ground (arith, length-push v e, h.flag);
      }

  -- What the registration of a new thread leaves.
  pub record IsRegistered (registry : Registry vec) (r : Registered vec) : Type 0 where
    pub valid : IsRegistry r.registry
    pub consistent : IsConsistent r.fast
    pub state : r.state ≡ (
        let n = length (contents registry.threads) in
        if ltb n short_max
        then ok (record { shared_info = n; short_id = n + 1 })
        else err (overflow thread_id_overflow))
    pub known :
        (if ltb (length (contents registry.threads)) short_max
          then get_by_id vec r.registry (length (contents registry.threads) + 1)
          else none)
        ≡ (let n = length (contents registry.threads) in
            if ltb n short_max then some (record { id = n + 1; short_id = n + 1 }) else none)
    pub fast : r.fast ≡ (
        let n = length (contents registry.threads) in
        if ltb n short_max
        then record { status = active; short_id = some (n + 1); shared_state_flag = flag_of n }
        else initial_fast)

  get_by_id-extended :
      (registry : Registry vec)
      → (let n = length (contents registry.threads) in
          ltb n short_max ≡ true
          → get_by_id vec (extended registry) (n + 1)
            ≡ some (record { id = n + 1; short_id = n + 1 }))
  unfolding get_by_id index
  get_by_id-extended registry room =
      let n = length (contents registry.threads) in
      let back : n + 1 - 1 ≡ n = omega arith in
      rw (back, get-push registry.threads (entry_at n), get_by_id, room) refl

  registers_owned :
      (registry : Registry vec)
      → IsRegistry registry
      → ltb (length (contents registry.threads)) short_max ≡ true
      → (r : Registered vec) × (init_thread vec registry initial_fast ≡ done r)
        × IsRegistered registry r
  unfolding init_thread activate
  registers_owned registry h room =
      let n = length (contents registry.threads) in
      let calm : registry.exhausted ≡ false = ground (arith, h.flag) in
      (
        record {
          registry = extended registry;
          fast = record { status = active; short_id = some (n + 1); shared_state_flag = flag_of n };
          state = ok (record { shared_info = n; short_id = n + 1 });
        },
        if_false _ calm
            ∙ register_lem registry initial_fast (ground arith)
            ∙ ap (activate vec (extended registry) initial_fast n) (if_true _ room),
        record {
          valid = extended-IsRegistry registry h calm;
          consistent = tt;
          state = sym (if_true _ room);
          known = if_true _ room ∙ get_by_id-extended registry room ∙ sym (if_true _ room);
          fast = sym (if_true _ room);
        },
      )

  registers_last :
      (registry : Registry vec)
      → IsRegistry registry
      → ltb (length (contents registry.threads)) short_max ≡ false
      → registry.exhausted ≡ false
      → (r : Registered vec) × (init_thread vec registry initial_fast ≡ done r)
        × IsRegistered registry r
  unfolding init_thread activate
  registers_last registry h full calm = (
    record {
      registry = extended registry;
      fast = initial_fast;
      state = err (overflow thread_id_overflow);
    },
    if_false _ calm
        ∙ register_lem registry initial_fast (ground (arith, h.flag))
        ∙ ap (activate vec (extended registry) initial_fast (length (contents registry.threads)))
            (if_false _ full),
    record {
      valid = extended-IsRegistry registry h calm;
      consistent = tt;
      state = sym (if_false _ full);
      known = if_false _ full ∙ sym (if_false _ full);
      fast = sym (if_false _ full);
    },
  )

  registers_no_more :
      (registry : Registry vec)
      → IsRegistry registry
      → ltb (length (contents registry.threads)) short_max ≡ false
      → registry.exhausted ≡ true
      → (r : Registered vec) × (init_thread vec registry initial_fast ≡ done r)
        × IsRegistered registry r
  unfolding init_thread
  registers_no_more registry h full over = (
    record { registry = registry; fast = initial_fast; state = err (overflow thread_id_overflow) },
    if_true _ over,
    record {
      valid = h;
      consistent = tt;
      state = sym (if_false _ full);
      known = if_false _ full ∙ sym (if_false _ full);
      fast = sym (if_false _ full);
    },
  )

  -- On a registry in order, a thread that has not been initialized yet registers: the registry is in
  -- order afterwards and the fast state is consistent. One of the first 4095 threads becomes active,
  -- with its number as its short id, under which the registry finds it; any later one gets an error
  -- and stays uninitialized.
  pub init_thread-IsRegistered :
      (registry : Registry vec)
      → IsRegistry registry
      → (r : Registered vec) × (init_thread vec registry initial_fast ≡ done r)
        × IsRegistered registry r
  init_thread-IsRegistered registry h =
      elim (Bool-cases (ltb (length (contents registry.threads)) short_max)) [
        | inl room ↦ registers_owned registry h room
        | inr full ↦ elim (Bool-cases registry.exhausted) [
          | inl over ↦ registers_no_more registry h full over
          | inr calm ↦ registers_last registry h full calm
        ]
      ]

-- The fast state of a thread over its life, for the `LocalThreadState` with its short id: the end of
-- an active thread returns and leaves a consistent state, in which no registration can make it active
-- again.
pub retire-init_thread :
    (vec : Boxcar Entry) (registry : Registry vec) (fast : LocalThreadStateFast)
    (state : LocalThreadState)
    → fast.status ≡ active
    → fast.short_id ≡ some state.short_id
    → (dead : LocalThreadStateFast) × (retire fast state ≡ done dead)
      × IsConsistent dead
      × (init_thread vec registry dead
          ≡ done (record { registry = registry; fast = dead; state = err already_died }))
unfolding retire init_thread
retire-init_thread vec registry fast state alive same = (
  record { status = dead_or_dying; short_id = none; shared_state_flag = dummy },
  ground (arith, alive, same),
  tt,
  refl,
)
