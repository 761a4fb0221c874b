-- ===== src/View/Upgrade.antt =====
-- `increment_strong_unless_zero`, which upgrades a weak reference, against the view.
use biasedrc_rs.Common.{
  ℕ, ◌+◌, ◌<◌, ◌≡◌, ◌↔◌, Bool, true, false, ◌&&◌, Option, none, some, [], if◌then◌else◌, Bool-cases,
  inl, inr, pos, ◌+ℤ◌, is_neg, is_zero, arith,
}
use biasedrc_rs.Exec.{done}
use biasedrc_rs.Threads.Local.{LocalThreadStateFast, IsConsistent}
use biasedrc_rs.Words.ArbitraryInt.{ArbitraryInt, IsI62}
use biasedrc_rs.Header.{Build, RawBrcHeader, increment_strong_unless_zero}
use biasedrc_rs.View.Defs.{View, refs, IsView}
use biasedrc_rs.View.Encode.{Fits, encode, load_shared-encode}
use biasedrc_rs.View.Increment.{takes_biased, attempt_owned, attempt_foreign}

abbrev is_dead : View → Bool
is_dead v = v.merged && is_zero v.count

abbrev upgrade_shared : View → Option View
upgrade_shared v = if is_dead v then none else some (record v { count = v.count +ℤ pos 1 })

unfoldable pub upgraded : Option ℕ → View → Option View
upgraded this v =
    if takes_biased this v then some (record v { biased = v.biased + 1 }) else upgrade_shared v

abbrev pub encode_option : ArbitraryInt → Option View → Option RawBrcHeader
encode_option int none = none
encode_option int (some v) = some (encode int v)

module _ (build : Build) (fast : LocalThreadStateFast) (consistent : IsConsistent fast) {v : View}
    (fits : Fits v) where
  open build use {int}

  -- An upgrade returns: with nothing if the object is merged and its shared counter is 0, and otherwise
  -- with one reference more, in the biased counter on an owner with room and in the shared counter
  -- elsewhere. A biased counter that grows must be positive, a shared counter that grows must have
  -- room, and that of a merged object must not be negative.
  pub increment_strong_unless_zero-upgraded :
      (takes_biased fast.short_id v ≡ true → 0 < v.biased)
      → (v.merged ≡ true → is_neg v.count ≡ false)
      → (takes_biased fast.short_id v ≡ false → IsI62 (v.count +ℤ pos 1))
      → increment_strong_unless_zero build fast [] (encode int v)
        ≡ done (encode_option int (upgraded fast.short_id v))
  unfolding increment_strong_unless_zero upgraded
  increment_strong_unless_zero-upgraded positive enough room =
      elim (Bool-cases (takes_biased fast.short_id v)) [
        | inl owned ↦
            ground (arith, attempt_owned build fast consistent fits owned (positive owned))
        | inr foreign ↦ ground (
          arith,
          attempt_foreign build fast consistent fits foreign,
          load_shared-encode build fits,
          int.i62_checked_add_lem v.count (pos 1) fits.count (omega arith),
          room foreign,
        )
      ]

  -- An upgrade that succeeds has found room in the shared counter, if it went there.
  pub increment_strong_unless_zero-room :
      {h : RawBrcHeader}
      → increment_strong_unless_zero build fast [] (encode int v) ≡ done (some h)
      → takes_biased fast.short_id v ≡ false
      → IsI62 (v.count +ℤ pos 1)
  unfolding increment_strong_unless_zero
  increment_strong_unless_zero-room e foreign = ground (
    arith,
    attempt_foreign build fast consistent fits foreign,
    load_shared-encode build fits,
    int.i62_checked_add_lem v.count (pos 1) fits.count (omega arith),
  )

-- In the states that a header may have, an upgrade fails exactly when a merged object has no strong
-- reference left, and otherwise adds one.
pub upgraded-none_iff :
    (this : Option ℕ) (v : View)
    → IsView v
    → (upgraded this v ≡ none) ↔ ((v.merged ≡ true) × (refs v ≡ pos 0))
unfolding upgraded
upgraded-none_iff this v h = (λ e. ground arith, λ e. ground arith)

pub upgraded-some :
    (this : Option ℕ) (v : View) {u : View}
    → upgraded this v ≡ some u
    → (refs u ≡ refs v +ℤ pos 1)
      × (u.merged ≡ v.merged)
      × (u.queued ≡ v.queued)
      × (u.owner ≡ v.owner)
unfolding upgraded
upgraded-some this v h = ground arith

pub upgraded-IsView :
    (this : Option ℕ) (v : View) {u : View}
    → upgraded this v ≡ some u
    → IsView v
    → (takes_biased this v ≡ false → IsI62 (v.count +ℤ pos 1))
    → IsView u
unfolding upgraded
upgraded-IsView this v {u} e h room = ground arith
