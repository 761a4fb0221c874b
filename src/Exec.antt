-- ===== src/Exec.antt =====
-- How a call of the library ends: with a value, or with one of the faults of src/runtime.rs
-- (`fatal_errors`, `undefined_behavior`), a failed assertion, a panic, undefined behaviour, or a
-- failed allocation.
use biasedrc_rs.Common.{Bool, true, false}

pub data Fault : Type 0 where
  shared_refcnt_underflow shared_refcnt_overflow merged_refcnt_overflow weak_refcnt_overflow : Fault
  negative_refcnt_merge explicit_merge_bad_id negative_refcnt_no_owner : Fault
  owner_undefined_state strong_count_arith_overflow biased_count_zero_and_owned : Fault
  assertion_failed panicked unwind_aborted unreachable_unchecked : Fault
  use_after_free no_value bad_deallocation alloc_error : Fault

pub data Exec {ℓ} (A : Type ℓ) : Type ℓ where
  done : A → Exec A
  fault : Fault → Exec A

infixl 5 ◌>>=◌ ◌>>◌
abbrev pub ◌>>=◌ {ℓ κ} : {A : Type ℓ} {B : Type κ} → Exec A → (A → Exec B) → Exec B
done a >>= f = f a
fault e >>= f = fault e

abbrev pub ◌>>◌ {ℓ} : {B : Type ℓ} → Exec (Unit {0}) → Exec B → Exec B
m >> k = m >>= λ _. k

-- `assert!`
abbrev pub assert : Bool → Exec (Unit {0})
assert true = done tt
assert false = fault Fault.assertion_failed

-- `if cond { fault() }`
abbrev pub fault_if : Bool → Fault → Exec (Unit {0})
fault_if true e = fault e
fault_if false e = done tt

-- The outcomes that a call may have without a fault.
abbrev pub Returns {ℓ} : {A : Type ℓ} → Exec A → (A → Type 0) → Type 0
Returns (done a) P = P a
Returns (fault e) P = ⊥
