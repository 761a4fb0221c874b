-- ===== src/Header/Interference.antt =====
-- The compare-and-exchange loops under interference: what other threads write between two attempts
-- leaves the outcome that of one attempt on the word last seen.
use biasedrc_rs.Common.{
  ℕ, ◌^◌, ◌<◌, ◌||◌, is_neg, ◌≡◌, refl, true, false, Option, some, List, [], ◌∷◌, ℤ, pos, ◌+ℤ◌,
  ◌-ℤ◌, arith,
}
use biasedrc_rs.Exec.{Exec, done}
use biasedrc_rs.Words.ArbitraryInt.{ArbitraryInt, IsI62}
use biasedrc_rs.Words.Shared
use biasedrc_rs.Words.Shared.{SharedWord}
use biasedrc_rs.Words.Biased
use biasedrc_rs.Header.Defs.{Build, RawBrcHeader, load_biased, cas_loop}
use biasedrc_rs.Header.Decrement.{decrement_word, decrement_shared}
use biasedrc_rs.Header.Merge.{merge_word, explicit_merge}

-- The word that the header holds after the failing exchanges.
abbrev pub last_word : List ℕ → ℕ → ℕ
last_word [] raw = raw
last_word (actual ∷ failures) raw = last_word failures actual

-- A property of each word that was seen before the last.
abbrev pub SeenBefore {ℓ} : (ℕ → Type ℓ) → List ℕ → ℕ → Type ℓ
SeenBefore P [] raw = Unit
SeenBefore P (actual ∷ failures) raw = P raw × SeenBefore P failures actual

module _ (int : ArbitraryInt) (attempt : SharedWord → Exec (Option SharedWord)) where
  abbrev Proceeds : ℕ → Type 0
  Proceeds raw = (new : SharedWord) × (attempt (Shared.from_raw int raw) ≡ done (some new))

  cas_loop-last_word :
      (failures : List ℕ) (raw : ℕ)
      → SeenBefore Proceeds failures raw
      → cas_loop int attempt failures raw ≡ cas_loop int attempt [] (last_word failures raw)
  unfolding cas_loop
  cas_loop-last_word [] raw h = refl
  cas_loop-last_word (actual ∷ failures) raw ((new, e), h) =
      rw e (cas_loop-last_word failures actual h)

map_seen {ℓ κ} :
    {P : ℕ → Type ℓ} {Q : ℕ → Type κ}
    → ((raw : ℕ) → P raw → Q raw)
    → (failures : List ℕ) (raw : ℕ) → SeenBefore P failures raw
    → SeenBefore Q failures raw
map_seen f [] raw h = tt
map_seen f (actual ∷ failures) raw (p, h) = (f raw p, map_seen f failures actual h)

module _ (build : Build) where
  open build use {int}

  abbrev pub count_of : ℕ → ℤ
  count_of raw = (Shared.from_raw int raw).shared_count

  decrement_word-Proceeds :
      (raw : ℕ) → IsI62 (count_of raw -ℤ pos 1) → Proceeds int (decrement_word build) raw
  unfolding decrement_word
  decrement_word-Proceeds raw room =
      let w = Shared.from_raw int raw in
      let count' = w.shared_count -ℤ pos 1 in
      (
        record w { shared_count = count'; queued = is_neg count' || w.queued },
        ground (
          arith,
          int.i62_checked_sub_lem w.shared_count (pos 1) (Shared.from_raw-IsSharedWord int raw)
              (omega arith),
        ),
      )

  -- However often the exchange of a decrement fails, the decrement acts on the word last seen as on a
  -- first one, provided that each word seen has room for the subtraction.
  pub decrement_shared-last_word :
      (failures : List ℕ) (h : RawBrcHeader)
      → SeenBefore (λ raw. IsI62 (count_of raw -ℤ pos 1)) failures h.shared_word
      → decrement_shared build failures h
        ≡ decrement_shared build [] (record h { shared_word = last_word failures h.shared_word })
  unfolding decrement_shared
  decrement_shared-last_word failures h seen =
      let proceeds = map_seen decrement_word-Proceeds failures h.shared_word seen in
      rw (
        cas_loop-last_word int (decrement_word build) failures h.shared_word proceeds,
        decrement_shared,
      )

  merge_word-Proceeds :
      (n raw : ℕ)
      → n < 2 ^ 20
      → (Shared.from_raw int raw).merged ≡ false
      → IsI62 (count_of raw +ℤ pos n)
      → Proceeds int (merge_word build n) raw
  unfolding merge_word
  merge_word-Proceeds n raw small unmerged room =
      let w = Shared.from_raw int raw in
      (
        record w { shared_count = w.shared_count +ℤ pos n; merged = true },
        ground (
          arith,
          int.i62_checked_add_lem w.shared_count (pos n) (Shared.from_raw-IsSharedWord int raw)
              (omega arith),
        ),
      )

  -- However often the exchange of a merge fails, the merge acts on the word last seen as on a first
  -- one, provided that each word seen is unmerged and has room for the addition.
  pub explicit_merge-last_word :
      (tid : ℕ) (failures : List ℕ) (h : RawBrcHeader)
      → SeenBefore
          (λ raw.
            ((Shared.from_raw int raw).merged ≡ false)
            × IsI62 (count_of raw +ℤ pos (load_biased build h).biased_count))
          failures
          h.shared_word
      → explicit_merge build tid failures h
        ≡ explicit_merge build tid [] (record h { shared_word = last_word failures h.shared_word })
  unfolding explicit_merge
  explicit_merge-last_word tid failures h seen =
      let n = (load_biased build h).biased_count in
      let proceeds =
        map_seen
          (λ raw (p : ((Shared.from_raw int raw).merged ≡ false) × IsI62 (count_of raw +ℤ pos n)).
            merge_word-Proceeds n raw (Biased.from_raw-IsBiasedWord int h.biased_word).count p.0
              p.1)
          failures h.shared_word seen in
      rw (
        cas_loop-last_word int (merge_word build n) failures h.shared_word proceeds,
        explicit_merge,
      )
