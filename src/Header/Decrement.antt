-- ===== src/Header/Decrement.antt =====
-- src/runtime.rs, `RawBrcHeader`: one strong reference less.
use Prim.Native.Nat.{bit_or}
use biasedrc_rs.Common.{
  ℕ, ◌-◌, Bool, true, false, not, ◌&&◌, ◌||◌, Option, none, some, List, ◌==◌, ltb, if◌then◌else◌,
  pos, is_neg, is_zero, ok, err,
}
use biasedrc_rs.Exec.{Exec, done, fault, Fault, ◌>>=◌, ◌>>◌}
use biasedrc_rs.Ids.{ShortThreadId}
use biasedrc_rs.Threads.Local.{LocalThreadStateFast, existing_short_id}
use biasedrc_rs.Words.Shared
use biasedrc_rs.Words.Shared.{SharedWord, merged_bit}
use biasedrc_rs.Words.Biased
use biasedrc_rs.Words.Biased.{BiasedWord, unowned}
use biasedrc_rs.Header.Defs.{
  Build, RawBrcHeader, StrongDecrementResult, load_shared, load_biased, debug_assert, cas_loop,
}

abbrev pub bool_eq : Bool → Bool → Bool
bool_eq true b = b
bool_eq false b = not b

-- `unchecked_sub(1)`
abbrev unchecked_pred : ℕ → Exec ℕ
unchecked_pred n = if n == 0 then fault Fault.unreachable_unchecked else done (n - 1)

-- What a decrement leaves. `queue_to` is the thread to which `decrement_shared_do_queue` hands the
-- object over, if it was called.
pub record Decremented : Type 0 where
  pub header : RawBrcHeader
  pub result : StrongDecrementResult
  pub queue_to : Option ShortThreadId

module _ (build : Build) where
  -- The word that `fetch_or` leaves, and the store that gives up the ownership.
  abbrev pub merge_shared : RawBrcHeader → RawBrcHeader
  merge_shared h = record h { shared_word = bit_or h.shared_word merged_bit }

  abbrev pub release_ownership : RawBrcHeader → RawBrcHeader
  release_ownership h = record h { biased_word = Biased.to_raw unowned }

  unfoldable pub decrement_biased_slow : RawBrcHeader → Exec Decremented
  decrement_biased_slow h = do
    let old_shared = load_shared build h
    let h' = merge_shared h
    debug_assert build (not old_shared.merged)
    let new_shared = record old_shared { merged = true }
    debug_assert build (not (is_neg new_shared.shared_count))
    done (record {
      header = release_ownership h';
      result = record { should_drop = is_zero new_shared.shared_count };
      queue_to = none;
    })

  -- The branch of the owner.
  decrement_owned : RawBrcHeader → BiasedWord → Exec Decremented
  unfolding decrement_biased_slow
  decrement_owned h biased_word = do
    debug_assert build (not (biased_word.biased_count == 0))
    new_biased_count ← unchecked_pred biased_word.biased_count
    if ltb 0 new_biased_count
        then done (record {
          header = record h {
            biased_word = Biased.to_raw (record biased_word { biased_count = new_biased_count });
          };
          result = record { should_drop = false };
          queue_to = none;
        })
        else decrement_biased_slow h

  -- `none` is `FastDecrementFailure`, with the header untouched.
  unfoldable pub decrement_biased : LocalThreadStateFast → RawBrcHeader → Exec (Option Decremented)
  unfolding decrement_owned
  decrement_biased fast h =
      let biased_word = load_biased build h in
      elim biased_word.owner_id [
        | none ↦ done none
        | some owner_id ↦ do
          this ← existing_short_id fast
          elim this [
            | err _ ↦ done none
            | ok this_id ↦
                if this_id == owner_id
                then (decrement_owned h biased_word >>= λ r. done (some r))
                else done none
          ]
      ]

  -- The body of the loop in `decrement_shared`.
  unfoldable pub decrement_word : SharedWord → Exec (Option SharedWord)
  decrement_word old = elim (build.int.i62_checked_sub old.shared_count (pos 1)) [
    | none ↦ fault Fault.shared_refcnt_underflow
    | some count ↦
        done (some (record old { shared_count = count; queued = is_neg count || old.queued }))
  ]

  -- The first part of `decrement_shared_do_queue`: who is to merge the object.
  unfoldable pub queue_owner : RawBrcHeader → Exec ShortThreadId
  queue_owner h = elim (load_biased build h).owner_id [
    | none ↦ fault Fault.negative_refcnt_no_owner
    | some owner_id ↦ done owner_id
  ]

  unfoldable pub decrement_shared : List ℕ → RawBrcHeader → Exec Decremented
  unfolding decrement_word queue_owner cas_loop
  decrement_shared failures h = do
    swap ← cas_loop build.int decrement_word failures h.shared_word
    elim swap [
      | none ↦ fault Fault.unreachable_unchecked
      | some s ↦ do
        let h' = record h { shared_word = Shared.to_raw build.int s.new }
        debug_assert build (not s.new.merged || not (is_neg s.new.shared_count))
        if bool_eq s.old.queued s.new.queued
            then done (record {
              header = h';
              result = record { should_drop = s.new.merged && is_zero s.new.shared_count };
              queue_to = none;
            })
            else (do
              owner_id ← queue_owner h'
              done (record {
                header = h';
                result = record { should_drop = false };
                queue_to = some owner_id;
              }))
    ]

  unfoldable pub decrement_strong : LocalThreadStateFast → List ℕ → RawBrcHeader → Exec Decremented
  unfolding decrement_biased decrement_shared
  decrement_strong fast failures h = do
    attempt ← decrement_biased fast h
    elim attempt [ some r ↦ done r | none ↦ decrement_shared failures h ]
