-- ===== src/View/Carry.antt =====
-- `fetch_add` on a shared counter of -1: the carry leaves the counter and reaches the flags.
use biasedrc_rs.Common.{
  ℕ, ◌≡◌, refl, ap, ◌∙◌, true, false, not, Option, [], if◌then◌else◌, pos, negsuc, arith,
}
use biasedrc_rs.Exec.{done, ◌>>=◌}
use biasedrc_rs.Threads.Local.{LocalThreadStateFast, IsConsistent}
use biasedrc_rs.Header.{
  Build, Decremented, increment_strong, increment_strong_shared, decrement_strong,
}
use biasedrc_rs.View.Defs.{View, is_owned_by, Effect, incremented, decremented_shared, IsView}
use biasedrc_rs.View.Encode.{Fits, encode, shared_of, load_shared-encode, to_raw-bump}
use biasedrc_rs.View.Increment.{takes_biased, attempt_foreign, increment_strong-incremented}
use biasedrc_rs.View.Decrement.{encode_effect, decrement_strong-decremented, decremented_foreign}
use biasedrc_rs.View.Invariant.{IsView-Fits}

-- The merged flag is set, and the counter reads 0.
abbrev pub carried : View → View
carried v = record v {
  count = pos 0;
  merged = not v.merged;
  queued = if v.merged then not v.queued else v.queued;
}

module _ (build : Build) (fast : LocalThreadStateFast) (consistent : IsConsistent fast) {v : View}
    (fits : Fits v) where
  open build use {int}

  -- A clone that goes to a shared counter of -1 returns, and carries into the flags: it sets the
  -- counter to 0 and flips the merged flag, and the queued flag behind it if the merged flag was set.
  pub increment_strong-carried :
      v.count ≡ negsuc 0
      → takes_biased fast.short_id v ≡ false
      → increment_strong build fast (encode int v) ≡ done (encode int (carried v))
  unfolding increment_strong increment_strong_shared
  increment_strong-carried minus_one foreign = ground (
    arith,
    attempt_foreign build fast consistent fits foreign,
    load_shared-encode build fits,
    to_raw-bump int (shared_of v) fits.count,
  )

foreign_takes_shared :
    (this : Option ℕ) (v : View) → is_owned_by v.owner this ≡ false → takes_biased this v ≡ false
foreign_takes_shared this v h = ground arith

module _ (build : Build) (fast : LocalThreadStateFast) (consistent : IsConsistent fast) (v : View)
    (h : IsView v) where
  open build use {int}

  abbrev pub again : View
  again = record (carried v) { count = pos 1 }

  Fits-carried : Fits (carried v)
  Fits-carried =
      let f = IsView-Fits v h in record { count = omega arith; owner = f.owner; biased = f.biased }

  Fits-again : Fits again
  Fits-again =
      let f = IsView-Fits v h in record { count = omega arith; owner = f.owner; biased = f.biased }

  pub second_clone :
      is_owned_by v.owner fast.short_id ≡ false
      → increment_strong build fast (encode int (carried v)) ≡ done (encode int again)
  unfolding incremented
  second_clone foreign = ground (
    arith,
    increment_strong-incremented build fast consistent Fits-carried (λ e. ground arith)
        (λ _. record { no_carry = λ e. cc; room = refl }),
  )

  pub last_drop :
      is_owned_by v.owner fast.short_id ≡ false
      → decrement_strong build fast [] (encode int again)
        ≡ done (encode_effect int (decremented_shared again))
  last_drop foreign =
      decrement_strong-decremented build fast consistent Fits-again (λ e. ground arith)
        (λ _. record { room = omega arith; enough = λ _. refl; announced = λ e. cc })
      ∙ ap (λ (e : Effect). done (encode_effect int e))
          (decremented_foreign fast.short_id again foreign)

  -- On an unmerged header in a valid state with a shared counter of -1, two clones and then a drop on
  -- another thread than the owner return, and the drop reports that the destructor is due, although
  -- the three calls leave one reference more than there was.
  pub clone_twice_drop_once :
      v.merged ≡ false
      → v.count ≡ negsuc 0
      → is_owned_by v.owner fast.short_id ≡ false
      → (r : Decremented) × ((do
        once ← increment_strong build fast (encode int v)
        twice ← increment_strong build fast once
        decrement_strong build fast [] twice)
          ≡ done r)
        × (r.result.should_drop ≡ true)
  clone_twice_drop_once unmerged minus_one foreign = (
    encode_effect int (decremented_shared again),
    rw
        (
          increment_strong-carried build fast consistent (IsView-Fits v h) minus_one
              (foreign_takes_shared fast.short_id v foreign),
          second_clone foreign,
        )
        (last_drop foreign),
    ground arith,
  )
