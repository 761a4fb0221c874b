-- ===== src/Brc/Sharing.antt =====
-- src/strong.rs: what clones, `try_unwrap` and `get_mut` leave of an object.
use biasedrc_rs.Common.{
  ℕ, ◌^◌, ◌<◌, ap, ◌∙◌, is_neg, ◌≡◌, refl, Bool, true, false, ◌&&◌, Option, none, some, [], ◌==◌,
  if◌then◌else◌, pos, pos_part, ℤ, ◌+ℤ◌, ◌-ℤ◌, arith,
}
use biasedrc_rs.Exec.{done, ◌>>=◌}
use biasedrc_rs.Threads.Local.{LocalThreadStateFast, IsConsistent}
use biasedrc_rs.Words.ArbitraryInt.{ArbitraryInt}
use biasedrc_rs.Layout.{LayoutInfo}
use biasedrc_rs.Pointee.{DropContext}
use biasedrc_rs.Header.{Build, increment_strong}
use biasedrc_rs.View.{View, refs, encode, IsView, Effect, decremented}
use biasedrc_rs.View.Counts.{is_precise}
use biasedrc_rs.View.Increment.{takes_biased, CanAdd}
use biasedrc_rs.View.Invariant.{
  HasReference, HasReference-room, refs-decremented, owned-positive, decremented-IsView,
}
use biasedrc_rs.Counting.{increment_strong-counts}
use biasedrc_rs.Brc
use biasedrc_rs.Brc.{is_unique-encode}
use biasedrc_rs.Brc.Object.{
  Object, returned, Dropped, clone_no_collect, drop_no_collect_in_place, try_unwrap, get_mut,
}
use biasedrc_rs.Brc.Destruction.{live_object, dropped_object, drop_no_collect_in_place-dropped}

abbrev header : ArbitraryInt → View → ℕ → Brc.BrcHeader
header int v w = record { strong = encode int v; weak_count = w }

one_more :
    (a b : ℤ)
    → a ≡ b +ℤ pos 1
    → is_neg (b -ℤ pos 1) ≡ false
    → (is_neg (a -ℤ pos 1) ≡ false) × (is_neg (a -ℤ pos 2) ≡ false)
one_more a b e h = ground arith

one_back : (a b c : ℤ) → a ≡ b +ℤ pos 1 → c ≡ a -ℤ pos 1 → c ≡ b
one_back a b c e h = ground arith

module _ (build : Build) (fast : LocalThreadStateFast) where
  -- Whether the thread finds that it has the only reference of any kind.
  abbrev pub finds_unique : View → ℕ → Bool
  finds_unique v w = is_precise fast.short_id v && (w == 1) && (pos_part (refs v) == 1)

module _ {ℓ} {V : Type ℓ} (build : Build) (fast : LocalThreadStateFast)
    (consistent : IsConsistent fast) (info : LayoutInfo) where
  open build use {int}

  abbrev unwrapped : Bool → View → ℕ → V → Option V × Object V
  unwrapped true v w x = (some x, record (live_object int info v w x) { value = none })
  unwrapped false v w x = (none, live_object int info v w x)

  try_unwrap_answer :
      (unique : Bool) (v : View) (w : ℕ) (x : V)
      → Brc.is_unique build fast (header int v w) ≡ done (header int v w, unique)
      → try_unwrap build fast (live_object int info v w x) ≡ done (unwrapped unique v w x)
  unfolding try_unwrap
  try_unwrap_answer true v w x answer = rw answer refl
  try_unwrap_answer false v w x answer = rw answer refl

  -- `try_unwrap` on an object in a valid state with a value returns. Where the thread sees the precise
  -- count, that is one, and the weak count is one, it moves the value out, and leaves the counts as they
  -- were and the memory allocated. Otherwise it returns the reference, and the object is untouched.
  pub try_unwrap-live_object :
      (v : View) (w : ℕ) (x : V)
      → IsView v
      → try_unwrap build fast (live_object int info v w x)
        ≡ done (
            if finds_unique build fast v w
            then (some x, record (live_object int info v w x) { value = none })
            else (none, live_object int info v w x))
  try_unwrap-live_object v w x valid =
      let unique = finds_unique build fast v w in
      try_unwrap_answer unique v w x (is_unique-encode build fast consistent v w valid)
      ∙ ap done (as_conditional unique)
    where
      as_conditional :
          (unique : Bool)
          → unwrapped unique v w x ≡ (
              if unique
              then (some x, record (live_object int info v w x) { value = none })
              else (none, live_object int info v w x))
      as_conditional true = refl
      as_conditional false = refl

  get_mut_answer :
      (change : V → V) (unique : Bool) (v : View) (w : ℕ) (x : V)
      → Brc.is_unique build fast (header int v w) ≡ done (header int v w, unique)
      → get_mut build fast change (live_object int info v w x)
        ≡ done (unique, live_object int info v w (if unique then change x else x))
  unfolding get_mut
  get_mut_answer change true v w x answer = rw answer refl
  get_mut_answer change false v w x answer = rw answer refl

  -- `get_mut` on an object in a valid state with a value returns. It lets the caller change the value
  -- exactly where the thread sees the precise count, that is one, and the weak count is one, and leaves
  -- the counts and the memory as they were.
  pub get_mut-live_object :
      (change : V → V) (v : View) (w : ℕ) (x : V)
      → IsView v
      → get_mut build fast change (live_object int info v w x)
        ≡ done (
          finds_unique build fast v w,
          live_object int info v w (if finds_unique build fast v w then change x else x),
        )
  get_mut-live_object change v w x valid =
      get_mut_answer change (finds_unique build fast v w) v w x
        (is_unique-encode build fast consistent v w valid)

  clone_run :
      (v u : View) (w : ℕ) (x : V)
      → increment_strong build fast (encode int v) ≡ done (encode int u)
      → clone_no_collect build fast (live_object int info v w x) ≡ done (live_object int info u w x)
  unfolding clone_no_collect
  clone_run v u w x run = rw run refl

  module _ (needs_drop : Bool) (panics : V → Bool) (context : DropContext) where
    not_last :
        (u : View)
        → IsView u
        → HasReference u
        → is_neg (refs u -ℤ pos 2) ≡ false
        → (decremented fast.short_id u).should_drop ≡ false
    unfolding decremented
    not_last u h has two = ground arith

    kept :
        (e : Effect) (w : ℕ) (x : V)
        → e.should_drop ≡ false
        → (dropped_object needs_drop panics int info context w x e).object
          ≡ live_object int info e.view w x
    kept e w x more = rw more refl

    no_destructor :
        (e : Effect) (w : ℕ) (x : V)
        → e.should_drop ≡ false
        → (dropped_object needs_drop panics int info context w x e).ending ≡ returned tt
    no_destructor e w x more = rw more refl

    -- A clone and a drop of the clone on the same thread, on an object in a valid state with a
    -- reference and a weak count that is a positive number of 32 bits, return, where the shared counter
    -- has room and is not -1 if the clone goes there. The number of references, the value, the weak
    -- count and the memory are what they were, no destructor runs, and the state is valid again.
    pub drop_no_collect_in_place-clone_no_collect :
        (v : View) (w : ℕ) (x : V)
        → IsView v
        → HasReference v
        → (takes_biased fast.short_id v ≡ false → CanAdd v.count)
        → 0 < w
        → w < 2 ^ 32
        → (u : View) × (d : Dropped V) × ((clone_no_collect build fast (live_object int info v w x)
              >>= λ o. drop_no_collect_in_place build fast needs_drop panics info context [] o)
            ≡ done d)
          × (d.object ≡ live_object int info u w x)
          × (d.ending ≡ returned tt)
          × IsView u
          × (refs u ≡ refs v)
    drop_no_collect_in_place-clone_no_collect v w x valid has add positive small =
        let (u, run, valid', more) = increment_strong-counts build fast consistent v valid add in
        let (has', two) = one_more (refs u) (refs v) more has in
        let e = decremented fast.short_id u in
        let less = refs-decremented fast.short_id u (owned-positive fast.short_id u valid') in
        let stays : e.should_drop ≡ false = not_last u valid' has' two in
        (
          e.view,
          dropped_object needs_drop panics int info context w x e,
          ap
                (λ c. c >>= λ o.
                  drop_no_collect_in_place build fast needs_drop panics info context [] o)
                (clone_run v u w x run)
              ∙ drop_no_collect_in_place-dropped build fast needs_drop panics info context
                  consistent u w x valid' has' positive small,
          kept e w x stays,
          no_destructor e w x stays,
          decremented-IsView fast.short_id u valid' has' (HasReference-room u valid' has'),
          one_back (refs u) (refs v) (refs e.view) more less,
        )
