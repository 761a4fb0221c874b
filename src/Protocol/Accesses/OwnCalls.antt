-- ===== src/Protocol/Accesses/OwnCalls.antt =====
-- The calls of the owner on the biased counter, and the merge, as wholes.
use biasedrc_rs.Common.{
  ℕ, ◌<◌, ◌≡◌, refl, sym, ap, ◌∙◌, true, false, ◌&&◌, none, some, [], Bool-cases, inl, inr, pos,
  is_neg, is_zero, arith,
}
use biasedrc_rs.Exec.{done}
use biasedrc_rs.Ids.{ShortThreadId}
use biasedrc_rs.Threads.Local.{LocalThreadStateFast, IsConsistent}
use biasedrc_rs.Words.Biased.{BiasedWord}
use biasedrc_rs.Words.Shared
use biasedrc_rs.Words.Shared.{SharedWord, of_bool}
use biasedrc_rs.Header.{
  Build, RawBrcHeader, Decremented, load_biased, load_shared, attempt_biased_increment,
  increment_strong, increment_strong_unless_zero, decrement_biased, decrement_strong, merge_word,
  merge_shared, release_ownership, explicit_merge,
}
use biasedrc_rs.View.{Fits, Effect, is_owned_by, load_shared-encode, to_raw-merge, shared_of}
use biasedrc_rs.View.Decrement.{
  encode_effect, decrement_strong-decremented, decremented_own, biased_owned,
}
use biasedrc_rs.View.Invariant.{IsView-Fits, HasReference, IsView-CanRelease, refs-nonneg}
use biasedrc_rs.Protocol.Calls.{System, is_hasty}
use biasedrc_rs.Protocol.Invariant.{Inv}
use biasedrc_rs.Protocol.Accesses.Missed.{
  is_own, takes, missed_increment, missed_decrement, Inv-biased,
}

abbrev pub owned_word : ShortThreadId → ℕ → BiasedWord
owned_word tid n = record { owner_id = some tid; biased_count = n }

module _ {build : Build} {tid : ShortThreadId} {s : System} (inv : Inv build tid s) where
  open inv use {view, same, shared, counted}
  open build use {int}

  fits : Fits view
  fits = IsView-Fits view shared.valid

  module _ (fast : LocalThreadStateFast) (consistent : IsConsistent fast) where
    biased_increment-takes :
        {h : RawBrcHeader}
        → attempt_biased_increment build fast s.header ≡ done (some h)
        → takes fast.short_id (load_biased build s.header) ≡ true
    biased_increment-takes e =
        elim (Bool-cases (takes fast.short_id (load_biased build s.header))) [
          | inl yes_ ↦ yes_
          | inr missed ↦ absurd (cc (e, missed_increment inv fast consistent missed))
        ]

    pub own_clone :
        {h : RawBrcHeader}
        → attempt_biased_increment build fast s.header ≡ done (some h)
        → (is_hasty build fast s.header && true ≡ false)
          × (increment_strong build fast s.header ≡ done h)
          × (increment_strong_unless_zero build fast [] s.header ≡ done (some h))
    unfolding increment_strong increment_strong_unless_zero
    own_clone e = (ground (arith, biased_increment-takes e), rw e refl, rw e refl)

    pub own_drop :
        {r : Decremented}
        → 0 < s.handles
        → 1 < (load_biased build s.header).biased_count
        → decrement_biased build fast s.header ≡ done (some r)
        → (decrement_strong build fast [] s.header ≡ done r)
          × (r.result.should_drop ≡ false)
          × (r.queue_to ≡ none)
    unfolding decrement_strong
    own_drop {r} alive many e = elim (Bool-cases (is_owned_by view.owner fast.short_id)) [
      | inr foreign ↦ absurd (
          cc (
            e,
            missed_decrement inv fast consistent
                (ap (is_own fast.short_id) (Inv-biased inv) ∙ foreign),
          ))
      | inl owned ↦
          let has : HasReference view = ground (arith, counted) in
          let call =
            biased_owned build fast consistent fits owned
              (IsView-CanRelease view shared.valid has fast.short_id owned) in
          (
            rw e refl,
            ground (arith, e, same, call, many, Inv-biased inv),
            ground (arith, e, same, call, many, Inv-biased inv),
          )
    ]

    -- The drop of the last reference that the owner counts.
    pub last_drop :
        0 < s.handles
        → load_biased build s.header ≡ owned_word tid 1
        → fast.short_id ≡ some tid
        → decrement_strong build fast [] s.header
          ≡ done (record {
            header = release_ownership build (merge_shared build s.header);
            result = record { should_drop = is_zero (load_shared build s.header).shared_count };
            queue_to = none;
          })
    last_drop alive last own =
        let has : HasReference view = ground (arith, counted) in
        let word = sym (Inv-biased inv) ∙ last in
        let owned : is_owned_by view.owner fast.short_id ≡ true = ground (arith, word, own) in
        ap (decrement_strong build fast []) same
        ∙ decrement_strong-decremented build fast consistent fits
            (IsView-CanRelease view shared.valid has fast.short_id)
            (λ foreign. absurd (cc (owned, foreign)))
        ∙ ap (λ (e : Effect). done (encode_effect int e)) (decremented_own fast.short_id view owned)
        ∙ ground (
          arith,
          same,
          word,
          load_shared-encode build fits,
          to_raw-merge int (shared_of view) fits.count,
        )

  -- The merge, at its exchange.
  pub whole_merge :
      {n : ℕ} {new : SharedWord}
      → load_biased build s.header ≡ owned_word tid n
      → merge_word build n (load_shared build s.header) ≡ done (some new)
      → explicit_merge build tid [] s.header
        ≡ done (record {
          header =
              release_ownership build (record s.header { shared_word = Shared.to_raw int new });
          dealloc = is_zero new.shared_count;
        })
  unfolding explicit_merge merge_word
  whole_merge {n} {new} own e =
      let word = sym (Inv-biased inv) ∙ own in
      let enough : is_neg new.shared_count ≡ false = ground (
        arith,
        e,
        same,
        word,
        load_shared-encode build fits,
        refs-nonneg view shared.valid,
        int.i62_checked_add_lem view.count (pos n) fits.count
            (omega (arith, fits.biased, ap (λ (w : BiasedWord). w.biased_count) word)),
      ) in
      ground (arith, own, e, enough)
