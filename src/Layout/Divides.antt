-- ===== src/Layout/Divides.antt =====
-- Divisibility among powers of two and rounded sizes.
use Prim.Native.Nat.{max}
use native.Mathlib.Nat.{
  div-lt_iff_lt-mul, div-mul-le_self, lt-div-mul-add, max-eq_left, max_comm, max-eq_right,
}
use native.Mathlib.Decide.{dec_lt}
use biasedrc_rs.Common.{
  ℕ, zero, suc, ◌+◌, ◌-◌, ◌*◌, ◌/◌, ◌≤◌, ◌<◌, ◌≡◌, ◌⊎◌, inl, inr, refl, ◌∙◌, arith,
}
use biasedrc_rs.Layout.Std.{IsPowerOfTwo, one, double, round_up}

pub record Divides (a b : ℕ) : Type 0 where
  pub quotient : ℕ
  pub is_multiple : b ≡ quotient * a

pub IsPowerOfTwo-pos : {n : ℕ} → IsPowerOfTwo n → 0 < n
IsPowerOfTwo-pos (one e) = omega (arith, e)
IsPowerOfTwo-pos (double p e) = omega (arith, e, IsPowerOfTwo-pos p)

pub Divides-trans : {a b c : ℕ} → Divides a b → Divides b c → Divides a c
Divides-trans {a} d e = record { quotient = e.quotient * d.quotient; is_multiple = grind arith }

pub Divides-add : {a b c : ℕ} → Divides a b → Divides a c → Divides a (b + c)
Divides-add d e = record { quotient = d.quotient + e.quotient; is_multiple = grind arith }

Divides-double : {a b c d : ℕ} → c ≡ a * 2 → d ≡ b * 2 → Divides a b → Divides c d
Divides-double e f d = record { quotient = d.quotient; is_multiple = grind arith }

-- Of two powers of two, one divides the other.
pub Divides-total : {a b : ℕ} → IsPowerOfTwo a → IsPowerOfTwo b → Divides a b ⊎ Divides b a
Divides-total {a} {b} (one e) q = inl (record { quotient = b; is_multiple = grind arith })
Divides-total {a} {b} (double p e) (one f) =
    inr (record { quotient = a; is_multiple = grind arith })
Divides-total (double p e) (double q f) = elim (Divides-total p q) [
  | inl d ↦ inl (Divides-double e f d)
  | inr d ↦ inr (Divides-double f e d)
]

max-cases : (a b : ℕ) → ((max a b ≡ a) × (b ≤ a)) ⊎ ((max a b ≡ b) × (a ≤ b))
max-cases a b = elim (dec_lt a b) [
  | yes p ↦ inr (max-eq_right (omega arith), omega arith)
  | no p ↦ inl (max-eq_left (omega arith), omega arith)
]

-- A multiple that is no greater is the same.
Divides-antisym : {a b : ℕ} → Divides a b → b ≤ a → 0 < b → a ≡ b
Divides-antisym {a} {b} d le positive = by_quotient d.quotient d.is_multiple
  where
    by_quotient : (k : ℕ) → b ≡ k * a → a ≡ b
    by_quotient zero e = absurd (omega arith)
    by_quotient (suc k) e = grind arith

pub Divides-max : {a b : ℕ} → IsPowerOfTwo a → IsPowerOfTwo b → Divides b (max a b)
Divides-max {a} {b} p q = elim (max-cases a b) [
  | inr (e, le) ↦ record { quotient = 1; is_multiple = omega arith }
  | inl (e, le) ↦ elim (Divides-total p q) [
    | inr d ↦ record { quotient = d.quotient; is_multiple = e ∙ d.is_multiple }
    | inl d ↦
        let same : a ≡ b = Divides-antisym d le (IsPowerOfTwo-pos q) in
        record { quotient = 1; is_multiple = omega arith }
  ]
]

pub Divides-max_left : {a b : ℕ} → IsPowerOfTwo a → IsPowerOfTwo b → Divides a (max a b)
Divides-max_left {a} {b} p q = rw (max_comm a b) (Divides-max q p)

pub max-IsPowerOfTwo : {a b : ℕ} → IsPowerOfTwo a → IsPowerOfTwo b → IsPowerOfTwo (max a b)
max-IsPowerOfTwo {a} {b} p q = elim (max-cases a b) [ inl (e, le) ↦ rw e p | inr (e, le) ↦ rw e q ]

pub Divides-max_two : {a : ℕ} → IsPowerOfTwo a → Divides 2 (max a 2)
Divides-max_two {a} p = Divides-max p (double (one refl) refl)

pub round_up_bounds :
    (size align : ℕ)
    → 0 < align
    → (size ≤ round_up size align) × (round_up size align < size + align)
round_up_bounds size align h =
    let over = lt-div-mul-add {a = size + align - 1} h in
    let under = div-mul-le_self (size + align - 1) align in (omega arith, omega arith)

pub Divides-round_up : (size align : ℕ) → Divides align (round_up size align)
Divides-round_up size align = record { quotient = (size + align - 1) / align; is_multiple = refl }

-- It is the least multiple that is not below the size.
pub round_up-le :
    (size align : ℕ) {place : ℕ}
    → 0 < align
    → size ≤ place
    → Divides align place
    → round_up size align ≤ place
round_up-le size align {place} positive above d =
    let quotient : (size + align - 1) / align < suc d.quotient =
      (div-lt_iff_lt-mul positive).1 (grind arith) in
    let below : (size + align - 1) / align * align ≤ d.quotient * align = grind arith in omega arith
