-- ===== src/Threads/SegQueue.antt =====
-- The unbounded queue of the crate `crossbeam_queue`, a parameter: what its documentation says of
-- `push` and `pop`, which keep the order of the elements.
use biasedrc_rs.Common.{◌≡◌, refl, Bool, true, false, Option, none, some, List, [], ◌∷◌, ◌++◌}

-- What `pop` returns for a queue with the given elements.
abbrev pub IsPopped : {Q A : Type 0} → (Q → List A) → List A → Option (Q × A) → Type 0
IsPopped contents [] none = Unit {0}
IsPopped contents (x ∷ xs) (some (rest, first)) = (first ≡ x) × (contents rest ≡ xs)
IsPopped contents _ _ = ⊥

abbrev pub is_nil : {A : Type 0} → List A → Bool
is_nil [] = true
is_nil (x ∷ xs) = false

pub record SegQueue (A : Type 0) : Type 1 where
  pub Q : Type 0
  pub new : Q
  pub push : Q → A → Q
  pub pop : Q → Option (Q × A)
  pub is_empty : Q → Bool
  -- The elements from the first to the last.
  pub contents : Q → List A
  pub new_lem : contents new ≡ []
  pub push_lem : (q : Q) (a : A) → contents (push q a) ≡ contents q ++ (a ∷ [])
  pub is_empty_lem : (q : Q) → is_empty q ≡ is_nil (contents q)
  pub pop_lem : (q : Q) → IsPopped contents (contents q) (pop q)

abbrev pub pop_list : {A : Type 0} → List A → Option (List A × A)
pop_list [] = none
pop_list (x ∷ xs) = some (xs, x)

abbrev pub same : {A : Type 0} → List A → List A
same xs = xs

pub pop_list-IsPopped : {A : Type 0} (xs : List A) → IsPopped same xs (pop_list xs)
pop_list-IsPopped [] = tt
pop_list-IsPopped (x ∷ xs) = (refl, refl)

-- A list is such a queue.
abbrev pub list_queue : (A : Type 0) → SegQueue A
list_queue A = record {
  Q = List A;
  new = [];
  push = λ q a. q ++ (a ∷ []);
  pop = pop_list;
  is_empty = is_nil;
  contents = same;
  new_lem = refl;
  push_lem = λ q a. refl;
  is_empty_lem = λ q. refl;
  pop_lem = pop_list-IsPopped;
}
