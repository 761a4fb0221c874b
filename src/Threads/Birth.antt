-- ===== src/Threads/Birth.antt =====
-- Every allocation gives its header an owner that the thread may have, and one reference.
use mathlib.Core.Path.{subst}
use biasedrc_rs.Common.{
  ℕ, ◌+◌, ◌≡◌, refl, ap, sym, ◌∙◌, true, false, Bool, none, some, length, ltb, if◌then◌else◌, pos,
  Result, ok, err, arith,
}
use biasedrc_rs.Exec.{Exec, done, ◌>>=◌}
use biasedrc_rs.Ids.{IsShortThreadId, short_max}
use biasedrc_rs.Words.Biased.{IsOwner}
use biasedrc_rs.Words.ArbitraryInt.{ArbitraryInt}
use biasedrc_rs.Header.{init_header}
use biasedrc_rs.View.{View, encode, IsView, refs}
use biasedrc_rs.Counting.{init_header-counts, init_header-fresh_view, fresh_view}
use biasedrc_rs.Threads.Local.{
  IsConsistent, LocalThreadStateFast, active, dead_or_dying, dummy, flag_of, initial_fast,
  existing_short_id,
}
use biasedrc_rs.Threads.Boxcar.{Boxcar}
use biasedrc_rs.Threads.Registry.{
  Entry, LocalThreadState, Registry, ThreadStateInitError, overflow, already_died,
  thread_id_overflow,
}
use biasedrc_rs.Threads.Lifecycle.{IsRegistry, init_thread-IsRegistered}
use biasedrc_rs.Threads.Current.{
  Lazy, untouched, destroyed, present, Current, Initialized, choose_id, init, id_of, access_of,
}

-- How the fast state goes with the lazy one.
abbrev pub Agrees : Lazy → LocalThreadStateFast → Type 0
Agrees untouched fast = fast ≡ initial_fast
Agrees destroyed fast =
    fast ≡ record { status = dead_or_dying; short_id = none; shared_state_flag = dummy }
Agrees (present (ok state)) fast =
    IsShortThreadId state.short_id
    × (fast ≡ record {
      status = active;
      short_id = some state.short_id;
      shared_state_flag = flag_of state.shared_info;
    })
Agrees (present (err (overflow e))) fast = fast ≡ initial_fast
Agrees (present (err already_died)) fast = ⊥

module _ (vec : Boxcar Entry) where
  pub record IsCurrent (c : Current vec) : Type 0 where
    pub registry : IsRegistry vec c.registry
    pub agrees : Agrees c.lazy c.fast

  pub IsCurrent-IsConsistent : (c : Current vec) → IsCurrent c → IsConsistent c.fast
  IsCurrent-IsConsistent c h = by_lazy c.lazy c.fast h.agrees
    where
      by_lazy : (lazy : Lazy) (fast : LocalThreadStateFast) → Agrees lazy fast → IsConsistent fast
      by_lazy untouched fast e = subst IsConsistent (sym e) tt
      by_lazy destroyed fast e = subst IsConsistent (sym e) tt
      by_lazy (present (ok state)) fast (short, e) = subst IsConsistent (sym e) tt
      by_lazy (present (err (overflow o))) fast e = subst IsConsistent (sym e) tt
      by_lazy (present (err already_died)) fast e = elim e [ ]

  abbrev pub IsInitialized : Exec (Initialized vec) → Type 0
  IsInitialized call =
      (i : Initialized vec) × (call ≡ done i)
      × IsCurrent i.current
      × IsOwner i.this_id
      × (i.this_id ≡ i.current.fast.short_id)

  abbrev at : Registry vec → LocalThreadStateFast → Lazy → Current vec
  at registry fast lazy = record { registry = registry; fast = fast; lazy = lazy }

  -- A registration that has come to an end.
  abbrev IsSettled : Result LocalThreadState ThreadStateInitError → LocalThreadStateFast → Type 0
  IsSettled state fast =
      Agrees (present state) fast
      × IsOwner (id_of vec (access_of state))
      × (id_of vec (access_of state) ≡ fast.short_id)

  settled :
      (n : ℕ) (b : Bool) (state : Result LocalThreadState ThreadStateInitError)
      (fast : LocalThreadStateFast)
      → ltb n short_max ≡ b
      → state ≡ (
          if b
          then ok (record { shared_info = n; short_id = n + 1 })
          else err (overflow thread_id_overflow))
      → fast ≡ (
          if b
          then record { status = active; short_id = some (n + 1); shared_state_flag = flag_of n }
          else initial_fast)
      → IsSettled state fast
  settled n true state fast room es ef =
      let short : IsShortThreadId (n + 1) = (omega arith, ground arith) in
      subst (λ s. IsSettled s fast) (sym es)
        (subst (IsSettled (ok (record { shared_info = n; short_id = n + 1 }))) (sym ef)
          ((short, refl), short, refl))
  settled n false state fast room es ef =
      subst (λ s. IsSettled s fast) (sym es)
        (subst (IsSettled (err (overflow thread_id_overflow))) (sym ef) (refl, tt, refl))

  first_use :
      (registry : Registry vec)
      → IsRegistry vec registry
      → IsInitialized (choose_id vec (at registry initial_fast untouched))
  unfolding choose_id existing_short_id
  first_use registry h =
      let (r, call, reg) = init_thread-IsRegistered vec registry h in
      let n = length (vec.contents registry.threads) in
      let (agrees, owner, same) =
        settled n (ltb n short_max) r.state r.fast refl reg.state reg.fast in
      (
        record {
          current = at r.registry r.fast (present r.state);
          this_id = id_of vec (access_of r.state);
        },
        rw (call, choose_id) refl,
        record { registry = reg.valid; agrees = agrees },
        owner,
        same,
      )

  choose_id-IsInitialized : (c : Current vec) → IsCurrent c → IsInitialized (choose_id vec c)
  unfolding choose_id existing_short_id
  choose_id-IsInitialized c h = by_lazy c.registry c.fast c.lazy h.registry h.agrees
    where
      by_lazy :
          (registry : Registry vec) (fast : LocalThreadStateFast) (lazy : Lazy)
          → IsRegistry vec registry
          → Agrees lazy fast
          → IsInitialized (choose_id vec (at registry fast lazy))
      by_lazy registry fast untouched h e =
          subst (λ f. IsInitialized (choose_id vec (at registry f untouched))) (sym e)
            (first_use registry h)
      by_lazy registry fast destroyed h e =
          subst (λ f. IsInitialized (choose_id vec (at registry f destroyed))) (sym e)
            (_, refl, record { registry = h; agrees = refl }, tt, refl)
      by_lazy registry fast (present (ok state)) h (short, e) =
          subst (λ f. IsInitialized (choose_id vec (at registry f (present (ok state))))) (sym e)
            (_, refl, record { registry = h; agrees = (short, refl) }, short, refl)
      by_lazy registry fast (present (err (overflow o))) h e =
          subst (λ f. IsInitialized (choose_id vec (at registry f (present (err (overflow o))))))
            (sym e) (_, refl, record { registry = h; agrees = refl }, tt, refl)
      by_lazy registry fast (present (err already_died)) h e = elim e [ ]

  -- Where the registry is in order and the fast state agrees with the lazy one, `init` returns, and
  -- keeps both. The new header is in a valid state with one reference, and its owner is the short id
  -- that the fast state holds afterwards, if any.
  pub init-IsCurrent :
      (int : ArbitraryInt) (c : Current vec)
      → IsCurrent c
      → (c' : Current vec) × (v : View) × (init vec int c ≡ done (c', encode int v))
        × IsCurrent c'
        × IsView v
        × (refs v ≡ pos 1)
        × (v.owner ≡ c'.fast.short_id)
  unfolding init
  init-IsCurrent int c h =
      let (i, call, current, owner, same) = choose_id-IsInitialized c h in
      let (v, header, valid, one, own) = init_header-counts int i.this_id owner in
      (
        i.current,
        v,
        ap (λ (x : Exec (Initialized vec)). x >>= λ j. done (j.current, init_header int j.this_id))
              call
            ∙ ap (λ x. done (i.current, x)) header,
        current,
        valid,
        one,
        own ∙ same,
      )

  pub init-fresh_view :
      (int : ArbitraryInt) (c : Current vec)
      → IsCurrent c
      → (c' : Current vec) × (init vec int c ≡ done (c', encode int (fresh_view c'.fast.short_id)))
        × IsCurrent c'
        × IsOwner c'.fast.short_id
  unfolding init
  init-fresh_view int c h =
      let (i, call, current, owner, same) = choose_id-IsInitialized c h in
      (
        i.current,
        ap (λ (x : Exec (Initialized vec)). x >>= λ j. done (j.current, init_header int j.this_id))
              call
            ∙ ap (λ x. done (i.current, x))
                (init_header-fresh_view int i.this_id ∙ ap (λ t. encode int (fresh_view t)) same),
        current,
        subst IsOwner same owner,
      )
