-- ===== src/Conversions/Exact.antt =====
-- src/strong/conversions.rs: what `AssertExactIter` makes of iterators that keep to their length, and of
-- those that do not.
use biasedrc_rs.Common.{
  ℕ, suc, ◌+◌, ◌≡◌, refl, ap, sym, ◌∙◌, Bool, true, Option, none, some, List, [], ◌∷◌, ◌++◌, map,
  length, take-append, drop-append, append_assoc, append-nil, if◌then◌else◌, arith,
}
use biasedrc_rs.Exec.{done}
use biasedrc_rs.Conversions.Iterators.{
  Event, item, panics, full, unwound_after, AssertExactIter, next_of_source, next_exact, drop_guard,
  set_len, finish, fill, fill_round, do_init,
}

abbrev pub asserted {ℓ} : {T : Type ℓ} → List (Event T) → ℕ → AssertExactIter T
asserted inner len = record { inner = inner; len = len }

-- What the rounds of the loop leave in the guard.
abbrev last_guard {ℓ} : {T : Type ℓ} → ℕ → Option ℕ → List T → Option ℕ
last_guard index guard [] = guard
last_guard index guard (x ∷ xs) = last_guard (index + 1) (set_len guard index) xs

last_guard-append {ℓ} :
    {T : Type ℓ} (index g : ℕ) (xs : List T) (x : T)
    → last_guard index (some g) (xs ++ (x ∷ [])) ≡ some (index + length xs)
last_guard-append index g [] x = ground arith
last_guard-append index g (y ∷ xs) x =
    last_guard-append (index + 1) index xs x ∙ ap (λ n. some n) (omega arith)

-- The rounds for some items and `k` more, and the index after them.
abbrev rounds {ℓ} : {T : Type ℓ} → List T → ℕ → ℕ
rounds [] k = k
rounds (x ∷ xs) k = suc (rounds xs k)

abbrev index_after {ℓ} : {T : Type ℓ} → List T → ℕ → ℕ
index_after [] index = index
index_after (x ∷ xs) index = index_after xs (index + 1)

rounds_lem {ℓ} : {T : Type ℓ} (xs : List T) (k : ℕ) → length xs + k ≡ rounds xs k
rounds_lem [] k = omega arith
rounds_lem (x ∷ xs) k = omega (arith, rounds_lem xs k)

index_after_lem {ℓ} :
    {T : Type ℓ} (xs : List T) (index : ℕ) → index_after xs index ≡ index + length xs
index_after_lem [] index = omega arith
index_after_lem (x ∷ xs) index = omega (arith, index_after_lem xs (index + 1))

abbrev initial_guard : Bool → Option ℕ
initial_guard guarded = if guarded then some 0 else none

module _ {ℓ} {T : Type ℓ} where
  -- The loop over items that the iterator has.
  fill-items :
      (k index : ℕ) (guard : Option ℕ) (slots xs : List T) (tail : List (Event T))
      → fill next_exact
          (rounds xs k)
          index
          guard
          slots
          (asserted (map item xs ++ tail) (rounds xs k))
        ≡ fill next_exact k
            (index_after xs index)
            (last_guard index guard xs)
            (slots ++ xs)
            (asserted tail k)
  unfolding fill fill_round next_exact next_of_source
  fill-items k index guard slots [] tail =
      ap (λ ys. fill next_exact k index guard ys (asserted tail k)) (sym (append-nil slots))
  fill-items k index guard slots (x ∷ xs) tail =
      fill-items k (index + 1) (set_len guard index) (slots ++ (x ∷ [])) xs tail
      ∙ ap
          (λ ys.
            fill next_exact k (index_after (x ∷ xs) index) (last_guard index guard (x ∷ xs)) ys
              (asserted tail k))
          (append_assoc slots (x ∷ []) xs)

  -- The initialisation up to the items that the iterator has, with `k` more to come.
  do_init-items :
      (guarded : Bool) (k : ℕ) (xs : List T) (tail : List (Event T))
      → do_init next_exact guarded (length xs + k) (asserted (map item xs ++ tail) (length xs + k))
        ≡ fill next_exact k
            (index_after xs 0)
            (last_guard 0 (initial_guard guarded) xs)
            xs
            (asserted tail k)
  unfolding do_init
  do_init-items guarded k xs tail =
      ap (λ n. fill next_exact n 0 (initial_guard guarded) [] (asserted (map item xs ++ tail) n))
        (rounds_lem xs k)
      ∙ fill-items k 0 (initial_guard guarded) [] xs tail

  finish-ended :
      (index : ℕ) (guard : Option ℕ) (slots : List T)
      → fill next_exact 0 index guard slots (asserted [] 0) ≡ done (full slots)
  unfolding fill finish next_exact next_of_source
  finish-ended index guard slots = refl

  -- The initialisation of a slice from an iterator that has exactly as many items as it says writes
  -- them all, in their order, with the guard and without it.
  pub do_init-exact :
      (guarded : Bool) (xs : List T)
      → do_init next_exact guarded (length xs) (asserted (map item xs) (length xs)) ≡ done (full xs)
  do_init-exact guarded xs =
      ap (λ n. do_init next_exact guarded n (asserted (map item xs) n)) (omega arith)
      ∙ ap (λ es. do_init next_exact guarded (length xs + 0) (asserted es (length xs + 0)))
          (sym (append-nil (map item xs)))
      ∙ do_init-items guarded 0 xs []
      ∙ finish-ended (index_after xs 0) (last_guard 0 (initial_guard guarded) xs) xs

  set_guard :
      (index : ℕ) (xs : List T) (g n : ℕ) → set_len (last_guard index (some g) xs) n ≡ some n
  set_guard index [] g n = refl
  set_guard index (x ∷ xs) g n = set_guard (index + 1) xs index n

  drop_guard-length :
      (xs ys : List T) → drop_guard (some (length xs)) (xs ++ ys) ≡ unwound_after xs ys
  unfolding drop_guard
  drop_guard-length xs ys = rw (take-append xs ys, drop-append xs ys) refl

  -- A round in which the iterator does not give an item.
  missing :
      (xs : List T)
      → done (drop_guard (set_len (last_guard 0 (some 0) xs) (index_after xs 0)) xs)
        ≡ done (unwound_after xs [])
  missing xs =
      ap (λ g. done (drop_guard g xs))
        (set_guard 0 xs 0 (index_after xs 0)
          ∙ ap (λ n. some n) (index_after_lem xs 0 ∙ omega arith))
      ∙ ap (λ ys. done (drop_guard (some (length xs)) ys)) (sym (append-nil xs))
      ∙ ap done (drop_guard-length xs [])

  -- The initialisation of a slice from an iterator that ends, or panics, before it has had as many items
  -- as it says unwinds, and the guard drops every item that was written: none is leaked.
  pub do_init-too_few :
      (k : ℕ) (xs : List T) (rest : List (Event T))
      → (do_init next_exact true (length xs + suc k) (asserted (map item xs) (length xs + suc k))
          ≡ done (unwound_after xs []))
        × (do_init next_exact true
              (length xs + suc k)
              (asserted (map item xs ++ (panics ∷ rest)) (length xs + suc k))
            ≡ done (unwound_after xs []))
  unfolding fill fill_round next_exact next_of_source
  do_init-too_few k xs rest = (
    ap (λ es. do_init next_exact true (length xs + suc k) (asserted es (length xs + suc k)))
          (sym (append-nil (map item xs)))
        ∙ do_init-items true (suc k) xs []
        ∙ missing xs,
    do_init-items true (suc k) xs (panics ∷ rest) ∙ missing xs,
  )

  extra :
      (index : ℕ) (guard : Option ℕ) (slots : List T) (y : T) (rest : List (Event T))
      → fill next_exact 0 index guard slots (asserted (item y ∷ rest) 0)
        ≡ done (drop_guard guard slots)
  unfolding fill finish next_exact next_of_source
  extra index guard slots y rest = refl

  -- The initialisation of a slice from an iterator that has more items than it says, and says at least
  -- one, unwinds, and the guard drops all the items that were written but the last, which is leaked.
  pub do_init-too_many :
      (xs : List T) (x y : T) (rest : List (Event T))
      → (let ys : List T = xs ++ (x ∷ []) in
          do_init next_exact true
            (length ys)
            (asserted (map item ys ++ (item y ∷ rest)) (length ys)))
        ≡ done (unwound_after xs (x ∷ []))
  do_init-too_many xs x y rest =
      let ys : List T = xs ++ (x ∷ []) in
      ap (λ n. do_init next_exact true n (asserted (map item ys ++ (item y ∷ rest)) n))
        (omega arith)
      ∙ do_init-items true 0 ys (item y ∷ rest)
      ∙ extra (index_after ys 0) (last_guard 0 (some 0) ys) ys y rest
      ∙ ap (λ g. done (drop_guard g ys))
          (last_guard-append 0 0 xs x ∙ ap (λ n. some n) (omega arith))
      ∙ ap done (drop_guard-length xs (x ∷ []))
