-- ===== src/Threads/Panics.antt =====
-- `do_process` where destructors panic, or do not.
use biasedrc_rs.Common.{
  ℕ, zero, suc, ◌<◌, ◌≡◌, refl, sym, ap, ◌∙◌, Bool, true, false, ◌&&◌, Option, none, some, List, [],
  ◌∷◌, ◌++◌, length, if◌then◌else◌, arith,
}
use biasedrc_rs.Exec.{Exec, done, fault, ◌>>=◌}
use biasedrc_rs.Ids.{ShortThreadId}
use biasedrc_rs.Header.{Build, Merged, explicit_merge}
use biasedrc_rs.Threads.SegQueue.{SegQueue}
use biasedrc_rs.Threads.Memory.{QueuedObject, Memory, after_merge_at, merge_object, merge_all}
use biasedrc_rs.Threads.Queue.{do_process, pop_first, pop_empty, step_first, step_empty}
use biasedrc_rs.Threads.Unwinding.{Unwinding, process}

-- A call that does not unwind.
abbrev pub calmly {ℓ} : {A : Type ℓ} → Exec (Option A) → Unwinding A
calmly (done none) = done none
calmly (done (some a)) = done (some (false, a))
calmly (fault e) = fault e

module _ (queue : SegQueue QueuedObject) (build : Build) (panics : QueuedObject → Bool) where
  open queue use {Q, pop, contents}

  -- No destructor of the list panics.
  abbrev pub IsCalm : List QueuedObject → Type 0
  IsCalm [] = Unit
  IsCalm (object ∷ objects) = (panics object ≡ false) × IsCalm objects

  module _ (short_id : ShortThreadId) where
    -- What `process` does after the merge of an object.
    abbrev went_on : ℕ → Q → QueuedObject → Memory → Merged → Unwinding (Q × Memory)
    went_on fuel rest object m r =
        let m' = after_merge_at object m r in
        if r.dealloc && panics object
        then done (some (true, (rest, m')))
        else process queue build panics short_id fuel rest m'

    process_first :
        (fuel : ℕ) (q : Q) (m : Memory) {rest : Q} {object : QueuedObject}
        → pop q ≡ some (rest, object)
        → process queue build panics short_id (suc fuel) q m
          ≡ (explicit_merge build short_id [] (m.header_at object) >>= went_on fuel rest object m)
    unfolding process
    process_first fuel q m e = rw (e, process) refl

    process_empty :
        (fuel : ℕ) (q : Q) (m : Memory)
        → pop q ≡ none
        → process queue build panics short_id (suc fuel) q m ≡ done (some (false, (q, m)))
    unfolding process
    process_empty fuel q m e = rw (e, process) refl

    pub process_calm :
        (objects : List QueuedObject) (fuel : ℕ) (q : Q) (m : Memory)
        → contents q ≡ objects
        → IsCalm objects
        → process queue build panics short_id fuel q m
          ≡ calmly (do_process queue build short_id fuel q m)
    unfolding process do_process merge_object
    process_calm objects zero q m e calm = refl
    process_calm [] (suc fuel) q m e calm =
        let gone = pop_empty queue build short_id q e in
        process_empty fuel q m gone
        ∙ sym (ap calmly (step_empty queue build short_id fuel q m gone))
    process_calm (object ∷ objects) (suc fuel) q m e (quiet, calm) =
        let (rest, popped, others) = pop_first queue build short_id q e in
        process_first fuel q m popped
        ∙ by_cases rest (λ m'. process_calm objects fuel rest m' others calm)
            (explicit_merge build short_id [] (m.header_at object))
        ∙ sym (ap calmly (step_first queue build short_id fuel q m popped))
      where
        by_cases :
            (rest : Q)
            → ((m' : Memory)
                → process queue build panics short_id fuel rest m'
                  ≡ calmly (do_process queue build short_id fuel rest m'))
            → (r : Exec Merged)
            → (r >>= went_on fuel rest object m)
              ≡ calmly (
                  (r >>= λ r'. done (after_merge_at object m r'))
                  >>= do_process queue build short_id fuel rest)
        by_cases rest later (fault f) = refl
        by_cases rest later (done r) =
            ap
              (λ b.
                let unwound : Unwinding (Q × Memory) =
                  done (some (true, (rest, after_merge_at object m r))) in
                if r.dealloc && b
                then unwound
                else process queue build panics short_id fuel rest (after_merge_at object m r))
              quiet
            ∙ ground (arith, later (after_merge_at object m r))

    -- The first destructor that panics ends the call, with the objects behind it in the queue.
    pub process_unwound :
        (before : List QueuedObject) (object : QueuedObject) (after : List QueuedObject) (fuel : ℕ)
        (q : Q) (m : Memory) {mid : Memory} {r : Merged}
        → contents q ≡ before ++ object ∷ after
        → IsCalm before
        → length before < fuel
        → merge_all build short_id before m ≡ done mid
        → explicit_merge build short_id [] (mid.header_at object) ≡ done r
        → (r.dealloc && panics object) ≡ true
        → (q' : Q) × (process queue build panics short_id fuel q m
            ≡ done (some (true, (q', after_merge_at object mid r))))
          × (contents q' ≡ after)
    unfolding merge_all merge_object
    process_unwound before object after zero q m e calm enough merged last panic =
        absurd (omega (arith, enough))
    process_unwound [] object after (suc fuel) q m {mid} {r} e calm enough merged last panic =
        let (rest, popped, others) = pop_first queue build short_id q e in
        (rest, process_first fuel q m popped ∙ ground (arith, merged, last, panic), others)
    process_unwound (first ∷ before) object after (suc fuel) q m {mid} {r} e (quiet, calm) enough
          merged last panic =
        let (rest, popped, others) = pop_first queue build short_id q e in
        by_cases rest popped
          (λ m' merged'.
            process_unwound before object after fuel rest m' others calm (omega (arith, enough))
              merged' last panic)
          (explicit_merge build short_id [] (m.header_at first)) refl merged
      where
        by_cases :
            (rest : Q)
            → pop q ≡ some (rest, first)
            → ((m' : Memory)
                → merge_all build short_id before m' ≡ done mid
                → (q' : Q) × (process queue build panics short_id fuel rest m'
                    ≡ done (some (true, (q', after_merge_at object mid r))))
                  × (contents q' ≡ after))
            → (x : Exec Merged) → explicit_merge build short_id [] (m.header_at first) ≡ x
            → ((x >>= λ r'. done (after_merge_at first m r')) >>= merge_all build short_id before)
              ≡ done mid
            → (q' : Q) × (process queue build panics short_id (suc fuel) q m
                ≡ done (some (true, (q', after_merge_at object mid r))))
              × (contents q' ≡ after)
        by_cases rest popped later (fault f) call merged' = absurd (ground (arith, merged'))
        by_cases rest popped later (done r') call merged' =
            let (q', run, left) = later (after_merge_at first m r') merged' in
            (q', process_first fuel q m popped ∙ ground (arith, call, quiet, run), left)
