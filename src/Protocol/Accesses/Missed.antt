-- ===== src/Protocol/Accesses/Missed.antt =====
-- The attempts on the biased counter that fail, and send a call to the shared one.
use biasedrc_rs.Common.{
  ℕ, ◌+◌, ◌^◌, ◌<◌, ◌≡◌, ◌≢◌, Bool, false, ◌&&◌, Option, none, some, ltb, Bool-cases, inl, inr, ap,
  ◌∙◌, sym, arith,
}
use biasedrc_rs.Exec.{done}
use biasedrc_rs.Ids.{ShortThreadId}
use biasedrc_rs.Threads.Local.{LocalThreadStateFast, IsConsistent}
use biasedrc_rs.Words.Biased.{BiasedWord}
use biasedrc_rs.Header.{Build, load_biased, attempt_biased_increment, decrement_biased}
use biasedrc_rs.View.{is_owned_by, Fits, biased_of, load_biased-encode}
use biasedrc_rs.View.Increment.{takes_biased, attempt_owned, attempt_foreign}
use biasedrc_rs.View.Decrement.{biased_owned, biased_foreign}
use biasedrc_rs.View.Invariant.{IsView-Fits, HasReference, owned-positive, IsView-CanRelease}
use biasedrc_rs.Protocol.Calls.{System}
use biasedrc_rs.Protocol.Invariant.{Inv}

abbrev pub is_own : Option ℕ → BiasedWord → Bool
is_own this w = is_owned_by w.owner_id this

abbrev pub takes : Option ℕ → BiasedWord → Bool
takes this w = is_own this w && ltb (w.biased_count + 1) (2 ^ 20)

module _ {build : Build} {tid : ShortThreadId} {s : System} (inv : Inv build tid s) where
  open inv use {view, same, shared, counted}
  open build use {int}

  fits : Fits view
  fits = IsView-Fits view shared.valid

  pub Inv-biased : load_biased build s.header ≡ biased_of view
  Inv-biased = ap (load_biased build) same ∙ load_biased-encode build fits

  pub foreign-is_own :
      (this : Option ℕ) → this ≢ some tid → is_own this (load_biased build s.header) ≡ false
  foreign-is_own this foreign = ground (arith, Inv-biased, shared.owned, shared.valid)

  module _ (fast : LocalThreadStateFast) (consistent : IsConsistent fast) where
    pub missed_increment :
        takes fast.short_id (load_biased build s.header) ≡ false
        → attempt_biased_increment build fast s.header ≡ done none
    missed_increment e =
        ap (attempt_biased_increment build fast) same
        ∙ attempt_foreign build fast consistent fits (ap (takes fast.short_id) (sym Inv-biased) ∙ e)

    pub missed_decrement :
        is_own fast.short_id (load_biased build s.header) ≡ false
        → decrement_biased build fast s.header ≡ done none
    missed_decrement e =
        ap (decrement_biased build fast) same
        ∙ biased_foreign build fast consistent fits (ap (is_own fast.short_id) (sym Inv-biased) ∙ e)

    pub missed_increment-takes :
        attempt_biased_increment build fast s.header ≡ done none
        → takes fast.short_id (load_biased build s.header) ≡ false
    missed_increment-takes e = elim (Bool-cases (takes_biased fast.short_id view)) [
      | inl owned ↦ absurd (
          cc (
            e,
            same,
            attempt_owned build fast consistent fits owned
                (owned-positive fast.short_id view shared.valid (ground (arith, owned))),
          ))
      | inr foreign ↦ ap (takes fast.short_id) Inv-biased ∙ foreign
    ]

    pub missed_decrement-is_own :
        0 < s.handles
        → decrement_biased build fast s.header ≡ done none
        → is_own fast.short_id (load_biased build s.header) ≡ false
    missed_decrement-is_own alive e = elim (Bool-cases (is_owned_by view.owner fast.short_id)) [
      | inl owned ↦
          let has : HasReference view = ground (arith, counted) in
          absurd (
            cc (
              e,
              same,
              biased_owned build fast consistent fits owned
                  (IsView-CanRelease view shared.valid has fast.short_id owned),
            ))
      | inr foreign ↦ ap (is_own fast.short_id) Inv-biased ∙ foreign
    ]
