-- ===== src/Brc/Weak.antt =====
-- src/weak.rs: `Weak`, the address of a value or the reserved one; src/strong.rs, the way from the value
-- to its header.
use biasedrc_rs.Common.{
  ℕ, ◌+◌, ◌-◌, ◌^◌, ◌≡◌, refl, ap, ◌∙◌, false, Option, none, some, List, [], ◌==◌, if◌then◌else◌,
  pos, pos_part, ◌+ℤ◌, arith, Result, ok,
}
use biasedrc_rs.Exec.{Exec, done, ◌>>=◌}
use biasedrc_rs.Words.ArbitraryInt.{IsI62}
use biasedrc_rs.Threads.Local.{LocalThreadStateFast, IsConsistent}
use biasedrc_rs.Layout.{Layout, LayoutInfo, header_offset}
use biasedrc_rs.Layout.Divides.{Divides}
use biasedrc_rs.Layout.Placement.{IsPlaced, header_offset-IsPlaced}
use biasedrc_rs.Header.{Build, ImpreciseRefCountError, strong_count, increment_strong_unless_zero}
use biasedrc_rs.View.{View, encode, IsView}
use biasedrc_rs.View.Increment.{takes_biased}
use biasedrc_rs.View.Invariant.{IsView-Fits, owned-positive}
use biasedrc_rs.View.Upgrade.{upgraded, encode_option, increment_strong_unless_zero-upgraded}
use biasedrc_rs.Brc.{clone_weak, weak_count_of_weak}
use biasedrc_rs.Brc.Object
use biasedrc_rs.Brc.Object.{Object, header_of, drop_weak_at}
use biasedrc_rs.Brc.World.{Heap, store_object}

-- `Weak::new`: `usize::MAX`.
abbrev pub reserved : ℕ
reserved = 2 ^ 64 - 1

-- The address of an allocation. The `debug_assert` that it is even is left out: values stand at even
-- addresses.
unfoldable pub real : ℕ → Option ℕ
real weak = if weak == reserved then none else some weak

unfoldable pub header_ptr_for : LayoutInfo → ℕ → ℕ
unfolding header_offset
header_ptr_for info ptr = pos_part (pos ptr +ℤ header_offset info)

-- The value of a placed object is a real pointer, and leads to its header.
pub real_pointer :
    (info : LayoutInfo) (header value : Layout) (base : ℕ)
    → IsPlaced header value info
    → Divides info.full_layout.align base
    → (real (base + info.value_offset) ≡ some (base + info.value_offset))
      × (header_ptr_for info (base + info.value_offset) ≡ base)
unfolding real header_ptr_for
real_pointer info header value base placed aligned =
    let (back, _, apart) = header_offset-IsPlaced header value info base placed aligned in
    (ground (arith, apart), ap pos_part back)

-- The pointer, if the upgrade succeeds.
abbrev pub upgraded_pointer : ℕ → Option View → Option ℕ
upgraded_pointer ptr none = none
upgraded_pointer ptr (some u) = some ptr

abbrev upgrade_answer {ℓ} : {V : Type ℓ} → ℕ → Object V → Option (Object V) → Option ℕ × Object V
upgrade_answer ptr o none = (none, o)
upgrade_answer ptr o (some o') = (some ptr, o')

module _ {ℓ} {V : Type ℓ} (info : LayoutInfo) where
  -- A call on the object of a pointer.
  unfoldable pub at_pointer {κ} :
      {A : Type κ} → ℕ → Heap V → (Object V → Exec (A × Object V)) → Exec (A × Heap V)
  unfolding header_ptr_for
  at_pointer ptr heap call =
      let base = header_ptr_for info ptr in
      call (heap base) >>= λ r. done (r.0, store_object base r.1 heap)

  module _ (build : Build) (fast : LocalThreadStateFast) where
    -- `Weak::upgrade`: the pointer of the new strong reference.
    unfoldable pub upgrade : List ℕ → ℕ → Heap V → Exec (Option ℕ × Heap V)
    unfolding at_pointer real Object.upgrade
    upgrade failures weak heap = elim (real weak) [
      | none ↦ done (none, heap)
      | some ptr ↦
          at_pointer ptr heap
            (λ o. Object.upgrade build fast failures o >>= λ r. done (upgrade_answer ptr o r))
    ]

    -- `Weak::strong_count`
    unfoldable pub strong_count_of_weak : ℕ → Heap V → Exec (Result ℕ ImpreciseRefCountError)
    unfolding real header_ptr_for
    strong_count_of_weak weak heap = elim (real weak) [
      | none ↦ done (ok 0)
      | some ptr ↦
          header_of (heap (header_ptr_for info ptr)) >>= λ h. strong_count build fast h.strong
    ]

    -- `Weak::weak_count`
    unfoldable pub weak_count : ℕ → Heap V → Exec (Result ℕ ImpreciseRefCountError)
    unfolding real header_ptr_for
    weak_count weak heap = elim (real weak) [
      | none ↦ done (ok 0)
      | some ptr ↦
          header_of (heap (header_ptr_for info ptr)) >>= λ h. weak_count_of_weak build fast h
    ]

  -- `Weak::clone`
  unfoldable pub clone : ℕ → Heap V → Exec (ℕ × Heap V)
  unfolding at_pointer real
  clone weak heap = elim (real weak) [
    | none ↦ done (weak, heap)
    | some ptr ↦
        at_pointer ptr heap
          (λ o. header_of o >>= λ h. clone_weak h >>= λ h'. done (weak, record o { header = h' }))
  ]

  -- `Drop for Weak`
  unfoldable pub drop : ℕ → Heap V → Exec (Unit {0} × Heap V)
  unfolding at_pointer real drop_weak_at
  drop weak heap = elim (real weak) [
    | none ↦ done (tt, heap)
    | some ptr ↦ at_pointer ptr heap (λ o. drop_weak_at info o >>= λ o'. done (tt, o'))
  ]

  -- The weak reference that `Weak::new` returns never touches the memory: it has no object to upgrade
  -- to, its counts are 0, its clone is reserved again, and its drop does nothing.
  pub reserved-inert :
      (build : Build) (fast : LocalThreadStateFast) (failures : List ℕ) (heap : Heap V)
      → (upgrade build fast failures reserved heap ≡ done (none, heap))
        × (strong_count_of_weak build fast reserved heap ≡ done (ok 0))
        × (weak_count build fast reserved heap ≡ done (ok 0))
        × (clone reserved heap ≡ done (reserved, heap))
        × (drop reserved heap ≡ done (tt, heap))
  unfolding upgrade strong_count_of_weak weak_count clone drop
  reserved-inert build fast failures heap = (refl, refl, refl, refl, refl)

  -- A call through the address of a placed value is a call on its object.
  pub at_pointer-placed {κ} :
      {A : Type κ} (header value : Layout) (base : ℕ) (heap : Heap V)
      (call : Object V → Exec (A × Object V)) {o o' : Object V} {a : A}
      → IsPlaced header value info
      → Divides info.full_layout.align base
      → heap base ≡ o
      → call o ≡ done (a, o')
      → at_pointer (base + info.value_offset) heap call ≡ done (a, store_object base o' heap)
  unfolding at_pointer
  at_pointer-placed header value base heap call {o} {o'} {a} placed aligned at run =
      ap (λ b. call (heap b) >>= λ r. done (r.0, store_object b r.1 heap))
        (real_pointer info header value base placed aligned).1
      ∙ ap (λ p. call p >>= λ r. done (r.0, store_object base r.1 heap)) at
      ∙ ap (λ c. c >>= λ r. done (r.0, store_object base r.1 heap)) run

  -- An object whose memory is still there; the value may be gone.
  abbrev pub kept_object : Build → View → ℕ → Option V → Object V
  kept_object build v w value = record {
    header = record { strong = encode build.int v; weak_count = w };
    value = value;
    memory = some info.full_layout;
  }

  -- The object with the new counts, if the upgrade succeeds.
  abbrev pub upgraded_object : Build → View → ℕ → Option V → Option View → Object V
  upgraded_object build v w value none = kept_object build v w value
  upgraded_object build v w value (some u) = kept_object build u w value

  module _ (build : Build) (fast : LocalThreadStateFast) where
    object_upgraded :
        (v : View) (w : ℕ) (value : Option V) (r : Option View)
        → increment_strong_unless_zero build fast [] (encode build.int v)
          ≡ done (encode_option build.int r)
        → (ptr : ℕ)
        → (Object.upgrade build fast [] (kept_object build v w value) >>= λ a.
            done (upgrade_answer ptr (kept_object build v w value) a))
          ≡ done (upgraded_pointer ptr r, upgraded_object build v w value r)
    unfolding Object.upgrade
    object_upgraded v w value none run ptr = rw run refl
    object_upgraded v w value (some u) run ptr = rw run refl

    abbrev answered : ℕ → Object V → Exec (Option ℕ × Object V)
    answered ptr o = Object.upgrade build fast [] o >>= λ a. done (upgrade_answer ptr o a)

    abbrev stored : ℕ → Exec (Option ℕ × Object V) → Heap V → Exec (Option ℕ × Heap V)
    stored base call heap = call >>= λ r. done (r.0, store_object base r.1 heap)

    upgrade-real :
        (base ptr : ℕ) (heap : Heap V)
        → real ptr ≡ some ptr
        → header_ptr_for info ptr ≡ base
        → upgrade build fast [] ptr heap ≡ stored base (answered ptr (heap base)) heap
    unfolding upgrade at_pointer
    upgrade-real base ptr heap is_real back =
        real_call ∙ ap (λ b. stored b (answered ptr (heap b)) heap) back
      where
        real_call :
            upgrade build fast [] ptr heap
            ≡ stored (header_ptr_for info ptr) (answered ptr (heap (header_ptr_for info ptr))) heap
        real_call = rw (upgrade, is_real) refl

    -- An upgrade on a placed object whose memory is still there, in a valid state, where the shared
    -- counter has room if it is the one to grow, returns as the specification of the counters says: with
    -- nothing and the object untouched, or with the address of the value and the new counters.
    -- Every other object is untouched.
    pub upgrade-upgraded :
        IsConsistent fast
        → (header value_layout : Layout) (base : ℕ) (heap : Heap V) (v : View) (w : ℕ)
          (value : Option V)
        → IsPlaced header value_layout info
        → Divides info.full_layout.align base
        → IsView v
        → (takes_biased fast.short_id v ≡ false → IsI62 (v.count +ℤ pos 1))
        → heap base ≡ kept_object build v w value
        → upgrade build fast [] (base + info.value_offset) heap ≡ (
            let r = upgraded fast.short_id v in
            done (
              upgraded_pointer (base + info.value_offset) r,
              store_object base (upgraded_object build v w value r) heap,
            ))
    unfolding Object.upgrade
    upgrade-upgraded consistent header value_layout base heap v w value placed aligned valid room
          at =
        let (is_real, back) = real_pointer info header value_layout base placed aligned in
        let run =
          increment_strong_unless_zero-upgraded build fast consistent (IsView-Fits v valid)
            (λ owned. owned-positive fast.short_id v valid (ground arith))
            (λ merged. ground (arith, valid)) room in
        let step =
          object_upgraded v w value (upgraded fast.short_id v) run (base + info.value_offset) in
        upgrade-real base (base + info.value_offset) heap is_real back
        ∙ ap (λ (o : Object V). stored base (answered (base + info.value_offset) o) heap) at
        ∙ ap (λ c. stored base c heap) step
