-- ===== src/Header/Defs.antt =====
-- src/runtime.rs: the state of `RawBrcHeader`, and what its operations share.
use biasedrc_rs.Common.{
  ℕ, ◌^◌, ◌<◌, Bool, true, false, Option, none, some, List, [], ◌∷◌, if◌then◌else◌, pos,
}
use biasedrc_rs.Exec.{Exec, done, ◌>>=◌, assert}
use biasedrc_rs.Ids.{ShortThreadId}
use biasedrc_rs.Words.ArbitraryInt.{ArbitraryInt}
use biasedrc_rs.Words.Shared
use biasedrc_rs.Words.Shared.{SharedWord}
use biasedrc_rs.Words.Biased
use biasedrc_rs.Words.Biased.{BiasedWord, unowned}

-- The build: the integers of `arbitrary_int`, and `cfg!(debug_assertions)`.
pub record Build : Type 0 where
  pub int : ArbitraryInt
  pub debug_assertions : Bool

-- An atomic word is the number that it holds.
pub record RawBrcHeader : Type 0 where
  pub shared_word : ℕ
  pub biased_word : ℕ

abbrev pub IsHeader : RawBrcHeader → Type 0
IsHeader h = (h.shared_word < 2 ^ 64) × (h.biased_word < 2 ^ 32)

pub record StrongDecrementResult : Type 0 where
  pub should_drop : Bool

pub data BiasedCountError : Type 0 where
  wrong_thread not_biased : BiasedCountError

pub record ImpreciseRefCountError : Type 0 where
  pub lower_bound : ℕ

-- `debug_assert!`
abbrev pub debug_assert : Build → Bool → Exec (Unit {0})
debug_assert build cond = if build.debug_assertions then assert cond else done tt

module _ (build : Build) where
  abbrev pub load_shared : RawBrcHeader → SharedWord
  load_shared h = Shared.from_raw build.int h.shared_word

  abbrev pub load_biased : RawBrcHeader → BiasedWord
  load_biased h = Biased.from_raw build.int h.biased_word

-- `LocalThreadState` fills in `this_id`.
unfoldable pub init_header : ArbitraryInt → Option ShortThreadId → RawBrcHeader
init_header int none = record {
  shared_word = Shared.to_raw int (record { shared_count = pos 1; merged = true; queued = false });
  biased_word = Biased.to_raw unowned;
}
init_header int (some this_id) = record {
  shared_word = Shared.to_raw int (record { shared_count = pos 0; merged = false; queued = false });
  biased_word = Biased.to_raw (record { owner_id = some this_id; biased_count = 1 });
}

-- The words of a successful exchange.
pub record Swap : Type 0 where
  pub old : SharedWord
  pub new : SharedWord

-- The loops on `compare_exchange_weak` and `fetch_update`: `attempt` computes the new word from the
-- one last seen. Each of `failures` is the word that a failing exchange returns, and that other
-- threads have left in the header; after these, the exchange succeeds.
module _ (int : ArbitraryInt) (attempt : SharedWord → Exec (Option SharedWord)) where
  unfoldable pub cas_loop : List ℕ → ℕ → Exec (Option Swap)
  cas_loop [] raw = attempt (Shared.from_raw int raw) >>= elim [
    | none ↦ done none
    | some new ↦ done (some (record { old = Shared.from_raw int raw; new = new }))
  ]
  cas_loop (actual ∷ failures) raw =
      let rest = cas_loop failures actual in
      attempt (Shared.from_raw int raw) >>= elim [ none ↦ done none | some _ ↦ rest ]
