-- ===== src/Protocol/Accesses/Whole.antt =====
-- The state of the calls as wholes that belongs to a state between two accesses. A call counts as
-- made from its access to the shared word on; what it has still to do is counted as done, or as on
-- its way to the queue.
use biasedrc_rs.Common.{
  ℕ, ◌+◌, ◌≡◌, refl, ap, Bool, true, false, List, [], ◌∷◌, ◌++◌, is_zero, arith,
}
use biasedrc_rs.Words.Shared.{of_bool}
use biasedrc_rs.Header.{Build, RawBrcHeader, release_ownership}
use biasedrc_rs.Protocol.Calls.{System}
use biasedrc_rs.Protocol.Accesses.{
  Pc, adding, subtracting, subtract_from, announcing, pushing, flagging, disowning, merging,
  merge_from, unbiasing, destroying, Cells, Thread, Machine,
}

-- The references that a call has in hand, ...
abbrev pub held : Pc → ℕ
held adding = 1
held subtracting = 1
held (subtract_from _) = 1
held flagging = 1
held _ = 0

-- ... the object that it is about to queue, ...
abbrev pub announces : Pc → ℕ
announces announcing = 1
announces pushing = 1
announces _ = 0

-- ... the entry of the queue that it has taken out, ...
abbrev pub merges : Pc → ℕ
merges (merging _) = 1
merges (merge_from _ _) = 1
merges _ = 0

-- ... and the call of the destructor that is due.
abbrev pub due : Pc → ℕ
due (disowning should_drop) = of_bool should_drop
due (unbiasing count) = of_bool (is_zero count)
due destroying = 1
due _ = 0

-- Whether the store of `UNOWNED` is still to come.
abbrev pub is_late : Pc → Bool
is_late (disowning _) = true
is_late (unbiasing _) = true
is_late _ = false

abbrev pub total : (Pc → ℕ) → List Thread → ℕ
total f [] = 0
total f (t ∷ ts) = f t.pc + total f ts

pub total-append : (f : Pc → ℕ) (xs ys : List Thread) → total f (xs ++ ys) ≡ total f xs + total f ys
total-append f [] ys = omega arith
total-append f (x ∷ xs) ys = omega (arith, total-append f xs ys)

-- What the other threads add to one that is looked at.
pub record Rest : Type 0 where
  pub late : Bool
  pub held : ℕ
  pub announces : ℕ
  pub merges : ℕ
  pub due : ℕ

abbrev pub settle : Build → Bool → RawBrcHeader → RawBrcHeader
settle build true h = release_ownership build h
settle build false h = h

abbrev pub seen_with : Build → Rest → Cells → Pc → System
seen_with build c m p = record {
  header = settle build c.late m.header;
  handles = m.handles + (held p + c.held);
  announced = announces p + c.announces;
  enqueued = m.enqueued + (merges p + c.merges);
  destroyed = m.destroyed + (due p + c.due);
}

abbrev pub rest_of : Bool → List Thread → Rest
rest_of late others = record {
  late = late;
  held = total held others;
  announces = total announces others;
  merges = total merges others;
  due = total due others;
}

abbrev pub whole : Build → Machine → System
whole build s = seen_with build (rest_of (is_late s.owner.pc) s.others) s.cells s.owner.pc

pub System-≡ :
    {s t : System}
    → s.header ≡ t.header
    → s.handles ≡ t.handles
    → s.announced ≡ t.announced
    → s.enqueued ≡ t.enqueued
    → s.destroyed ≡ t.destroyed
    → s ≡ t
System-≡ a b c d e = cc

-- The same, from the point of view of one of the others.
abbrev pub rest_of_other : Machine → List Thread → List Thread → Rest
rest_of_other s before after = record {
  late = is_late s.owner.pc;
  held = held s.owner.pc + (total held before + total held after);
  announces = announces s.owner.pc + (total announces before + total announces after);
  merges = merges s.owner.pc + (total merges before + total merges after);
  due = due s.owner.pc + (total due before + total due after);
}

pub whole-other :
    (build : Build) (s : Machine) (before after : List Thread) (t : Thread)
    → whole build (record s { others = before ++ t ∷ after })
      ≡ seen_with build (rest_of_other s before after) s.cells t.pc
whole-other build s before after t =
    System-≡ refl (ap (λ n. s.cells.handles + n) (middle held)) (middle announces)
      (ap (λ n. s.cells.enqueued + n) (middle merges))
      (ap (λ n. s.cells.destroyed + n) (middle due))
  where
    middle :
        (f : Pc → ℕ)
        → f s.owner.pc + total f (before ++ t ∷ after)
          ≡ f t.pc + (f s.owner.pc + (total f before + total f after))
    middle f = omega (arith, total-append f before (t ∷ after))
