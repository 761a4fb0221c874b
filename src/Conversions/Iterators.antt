-- ===== src/Conversions/Iterators.antt =====
-- src/strong/conversions.rs: `AssertExactIter`; src/strong.rs: the initialisation of a slice from an
-- iterator, in `from_iter_exact_trusted_in`.
use biasedrc_rs.Common.{
  take, drop, ℕ, zero, suc, ◌+◌, Bool, Option, none, some, List, [], ◌∷◌, ◌++◌, if◌then◌else◌,
}
use biasedrc_rs.Exec.{Exec, done, fault, Fault}

-- What an iterator does in its calls of `next`, until it ends.
pub data Event {ℓ} (T : Type ℓ) : Type ℓ where
  item : T → Event T
  panics : Event T

-- How one call of `next` ends.
pub data Next {ℓ} (T : Type ℓ) : Type ℓ where
  yields : T → Next T
  ended panicked : Next T

unfoldable pub next_of_source {ℓ} : {T : Type ℓ} → List (Event T) → Next T × List (Event T)
next_of_source [] = (ended, [])
next_of_source (item x ∷ rest) = (yields x, rest)
next_of_source (panics ∷ rest) = (panicked, rest)

pub record AssertExactIter {ℓ} (T : Type ℓ) : Type ℓ where
  pub inner : List (Event T)
  pub len : ℕ

-- The match of `next`. An item too many is dropped by the panic.
abbrev checked {ℓ} : {T : Type ℓ} → ℕ → Next T × List (Event T) → Next T × AssertExactIter T
checked zero (ended, rest) = (ended, record { inner = rest; len = 0 })
checked zero (yields x, rest) = (panicked, record { inner = rest; len = 0 })
checked (suc n) (yields x, rest) = (yields x, record { inner = rest; len = n })
checked (suc n) (ended, rest) = (panicked, record { inner = rest; len = suc n })
checked n (panicked, rest) = (panicked, record { inner = rest; len = n })

unfoldable pub next_exact {ℓ} : {T : Type ℓ} → AssertExactIter T → Next T × AssertExactIter T
unfolding next_of_source
next_exact iter = checked iter.len (next_of_source iter.inner)

-- The initialisation writes every element, or unwinds.
pub data Filled {ℓ} (T : Type ℓ) : Type ℓ where
  full : List T → Filled T
  unwound_after : (dropped leaked : List T) → Filled T

-- `PartialDropGuard` drops the first `initialized_len` elements; without it none are dropped.
unfoldable pub drop_guard {ℓ} : {T : Type ℓ} → Option ℕ → List T → Filled T
drop_guard none slots = unwound_after [] slots
drop_guard (some initialized_len) slots =
    unwound_after (take initialized_len slots) (drop initialized_len slots)

-- The assignment to the guard, if there is one.
abbrev pub set_len : Option ℕ → ℕ → Option ℕ
set_len none index = none
set_len (some initialized_len) index = some index

module _ {ℓ} {T I : Type ℓ} (next : I → Next T × I) where
  -- The call of `next` after the loop.
  unfoldable pub finish : Option ℕ → List T → I → Exec (Filled T)
  unfolding drop_guard
  finish guard slots iter = elim ((next iter).0) [
    | panicked ↦ done (drop_guard guard slots)
    | ended ↦ done (full slots)
    | yields x ↦ done (full slots)
  ]

  -- One call of `next` in the loop, and what follows it.
  unfoldable pub fill_round :
      Option ℕ → List T → (T → I → Exec (Filled T)) → Next T × I → Exec (Filled T)
  unfolding drop_guard
  fill_round guard slots later (panicked, rest) = done (drop_guard guard slots)
  fill_round guard slots later (ended, rest) = fault Fault.unreachable_unchecked
  fill_round guard slots later (yields x, rest) = later x rest

  -- The loop, with `n` rounds to go; `slots` are the elements that are written.
  unfoldable pub fill : ℕ → ℕ → Option ℕ → List T → I → Exec (Filled T)
  unfolding finish fill_round
  fill zero index guard slots iter = finish guard slots iter
  fill (suc n) index guard slots iter =
      let guard' = set_len guard index in
      fill_round guard' slots (λ x rest. fill n (index + 1) guard' (slots ++ (x ∷ [])) rest)
        (next iter)

  unfoldable pub do_init : Bool → ℕ → I → Exec (Filled T)
  unfolding fill
  do_init guarded len iter = fill len 0 (if guarded then some 0 else none) [] iter
