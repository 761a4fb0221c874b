-- ===== src/Threads/Queue.antt =====
-- src/runtime/threads.rs, `ObjectQueue`: the objects that wait for the merge by their owner.
use mathlib.Core.Path.{subst}
use biasedrc_rs.Common.{
  ℕ, zero, suc, ◌<◌, ◌≡◌, refl, ap, ◌∙◌, Option, none, some, List, [], ◌∷◌, length, arith,
}
use biasedrc_rs.Exec.{Exec, done, fault, ◌>>=◌}
use biasedrc_rs.Ids.{ShortThreadId}
use biasedrc_rs.Header.{Build}
use biasedrc_rs.Threads.SegQueue.{SegQueue, IsPopped}
use biasedrc_rs.Threads.Memory.{QueuedObject, Memory, merge_object, merge_all}

module _ (queue : SegQueue QueuedObject) (build : Build) (short_id : ShortThreadId) where
  open queue use {Q, pop, contents, pop_lem}

  -- The loop of `do_process`, on fuel: `none` is a loop that has not ended yet.
  unfoldable pub do_process : ℕ → Q → Memory → Exec (Option (Q × Memory))
  do_process zero q m = done none
  do_process (suc fuel) q m = elim (pop q) [
    | none ↦ done (some (q, m))
    | some (rest, object) ↦ merge_object build short_id object m >>= do_process fuel rest
  ]

  -- What `do_process` does to a queue whose elements are `objects`.
  abbrev pub IsProcessed : ℕ → Q → Memory → Exec Memory → Type 0
  IsProcessed fuel q m (done m') =
      (q' : Q) × (do_process fuel q m ≡ done (some (q', m'))) × (contents q' ≡ [])
  IsProcessed fuel q m (fault e) = do_process fuel q m ≡ fault e

  pub pop_empty : (q : Q) → contents q ≡ [] → pop q ≡ none
  pop_empty q e = by_cases (pop q) (subst (λ xs. IsPopped contents xs (pop q)) e (pop_lem q))
    where
      by_cases : (o : Option (Q × QueuedObject)) → IsPopped contents [] o → o ≡ none
      by_cases none h = refl
      by_cases (some x) h = elim h [ ]

  pub pop_first :
      (q : Q) {object : QueuedObject} {objects : List QueuedObject}
      → contents q ≡ object ∷ objects
      → (rest : Q) × (pop q ≡ some (rest, object)) × (contents rest ≡ objects)
  pop_first q {object} {objects} e =
      by_cases (pop q) (subst (λ xs. IsPopped contents xs (pop q)) e (pop_lem q))
    where
      by_cases :
          (o : Option (Q × QueuedObject))
          → IsPopped contents (object ∷ objects) o
          → (rest : Q) × (o ≡ some (rest, object)) × (contents rest ≡ objects)
      by_cases none h = elim h [ ]
      by_cases (some (rest, first)) (same, others) = (rest, ap (λ x. some (rest, x)) same, others)

  pub step_empty :
      (fuel : ℕ) (q : Q) (m : Memory)
      → pop q ≡ none
      → do_process (suc fuel) q m ≡ done (some (q, m))
  unfolding do_process
  step_empty fuel q m e = rw (e, do_process) refl

  pub step_first :
      (fuel : ℕ) (q : Q) (m : Memory) {rest : Q} {object : QueuedObject}
      → pop q ≡ some (rest, object)
      → do_process (suc fuel) q m ≡ (merge_object build short_id object m >>= do_process fuel rest)
  unfolding do_process
  step_first fuel q m e = rw (e, do_process) refl

  IsProcessed-step :
      (fuel : ℕ) (q rest : Q) (m m' : Memory) (r : Exec Memory)
      → do_process (suc fuel) q m ≡ do_process fuel rest m'
      → IsProcessed fuel rest m' r
      → IsProcessed (suc fuel) q m r
  IsProcessed-step fuel q rest m m' (done last) e (q', call, empty) = (q', e ∙ call, empty)
  IsProcessed-step fuel q rest m m' (fault f) e h = e ∙ h

  -- With more fuel than there are objects, `do_process` empties the queue, and does to the memory what
  -- the merges of its objects do one after the other, from the first to the last; where one of these
  -- faults, it faults alike.
  pub do_process-IsProcessed :
      (objects : List QueuedObject) (fuel : ℕ) (q : Q) (m : Memory)
      → contents q ≡ objects
      → length objects < fuel
      → IsProcessed fuel q m (merge_all build short_id objects m)
  unfolding merge_all
  do_process-IsProcessed objects zero q m e enough = absurd (omega (arith, enough))
  do_process-IsProcessed [] (suc fuel) q m e enough = (q, step_empty fuel q m (pop_empty q e), e)
  do_process-IsProcessed (object ∷ objects) (suc fuel) q m e enough =
      let (rest, popped, others) = pop_first q e in
      by_cases rest popped
        (λ m'. do_process-IsProcessed objects fuel rest m' others (omega (arith, enough)))
        (merge_object build short_id object m) refl
    where
      by_cases :
          (rest : Q)
          → pop q ≡ some (rest, object)
          → ((m' : Memory) → IsProcessed fuel rest m' (merge_all build short_id objects m'))
          → (r : Exec Memory) → merge_object build short_id object m ≡ r
          → IsProcessed (suc fuel) q m (r >>= merge_all build short_id objects)
      by_cases rest popped later (fault f) call =
          step_first fuel q m popped ∙ ap (λ r. r >>= do_process fuel rest) call
      by_cases rest popped later (done m') call =
          IsProcessed-step fuel q rest m m' (merge_all build short_id objects m')
            (step_first fuel q m popped ∙ ap (λ r. r >>= do_process fuel rest) call) (later m')

  -- The case in which the merges return.
  pub do_process_returns :
      (objects : List QueuedObject) (fuel : ℕ) (q : Q) (m : Memory) {last : Memory}
      → contents q ≡ objects
      → length objects < fuel
      → merge_all build short_id objects m ≡ done last
      → (q' : Q) × (do_process fuel q m ≡ done (some (q', last))) × (contents q' ≡ [])
  do_process_returns objects fuel q m {last} e enough call =
      subst (IsProcessed fuel q m) call (do_process-IsProcessed objects fuel q m e enough)
