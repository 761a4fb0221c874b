-- ===== src/Threads/Boxcar.antt =====
-- The append-only vector of the crate `boxcar`, a parameter: what its documentation says of `push_with`,
-- `count` and `get`.
use biasedrc_rs.Common.{ℕ, ◌≡◌, refl, Option, List, [], ◌∷◌, ◌++◌, length, get_elem?}

pub record Boxcar (A : Type 0) : Type 1 where
  pub Vec : Type 0
  pub new : Vec
  pub count : Vec → ℕ
  pub push : Vec → A → Vec
  pub get : Vec → ℕ → Option A
  -- The elements by index.
  pub contents : Vec → List A
  pub new_lem : contents new ≡ []
  pub count_lem : (v : Vec) → count v ≡ length (contents v)
  pub push_lem : (v : Vec) (a : A) → contents (push v a) ≡ contents v ++ (a ∷ [])
  pub get_lem : (v : Vec) (i : ℕ) → get v i ≡ get_elem? (contents v) i

-- A list is such a vector.
abbrev pub list_vec : (A : Type 0) → Boxcar A
list_vec A = record {
  Vec = List A;
  new = [];
  count = length;
  push = λ v a. v ++ (a ∷ []);
  get = get_elem?;
  contents = λ v. v;
  new_lem = refl;
  count_lem = λ v. refl;
  push_lem = λ v a. refl;
  get_lem = λ v i. refl;
}
