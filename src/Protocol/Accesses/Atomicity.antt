-- ===== src/Protocol/Accesses/Atomicity.antt =====
-- The accesses of any number of threads, in any order, against the calls as wholes.
use mathlib.Core.Path.{subst}
use biasedrc_rs.Common.{ℕ, ◌≡◌, ◌≢◌, refl, sym, ap, ◌∙◌, false, some, List, [], ◌∷◌, ◌++◌, arith}
use biasedrc_rs.Ids.{ShortThreadId, IsShortThreadId}
use biasedrc_rs.Threads.Local.{LocalThreadStateFast, IsConsistent}
use biasedrc_rs.Words.Biased
use biasedrc_rs.Header.{Build, load_biased, init_header}
use biasedrc_rs.Protocol.Calls.{Reach, here}
use biasedrc_rs.Protocol.Invariant.{Reach-Inv}
use biasedrc_rs.Protocol.Hasty.{owner_of}
use biasedrc_rs.Protocol.Accesses.{
  Pc, idle, Cells, Thread, Machine, Move, Access, by_owner, as_owner, by_other, retire, change,
  Interleaving, start, and_then,
}
use biasedrc_rs.Protocol.Accesses.Whole.{
  seen_with, settle, rest_of, rest_of_other, whole, whole-other, is_late, total, held, announces,
  merges, due, System-≡,
}
use biasedrc_rs.Protocol.Accesses.Missed.{foreign-is_own}
use biasedrc_rs.Protocol.Accesses.Anyone.{Move-whole}
use biasedrc_rs.Protocol.Accesses.Owner.{OwnerAt, OwnMove-whole}
use biasedrc_rs.Protocol.Accesses.Kept.{Move-biased_word, Move-is_late, own_move, foreign-HasMissed}

abbrev pub IsOther : ShortThreadId → Thread → Type 0
IsOther tid t = IsConsistent t.fast × (t.fast.short_id ≢ some tid) × (is_late t.pc ≡ false)

abbrev pub All : (Thread → Type 0) → List Thread → Type 0
All P [] = Unit
All P (t ∷ ts) = P t × All P ts

pub All-middle :
    (P : Thread → Type 0) (before after : List Thread) (t : Thread)
    → All P (before ++ t ∷ after)
    → P t
All-middle P [] after t h = h.0
All-middle P (x ∷ before) after t h = All-middle P before after t h.1

All-replace :
    (P : Thread → Type 0) (before after : List Thread) (t u : Thread)
    → P u
    → All P (before ++ t ∷ after)
    → All P (before ++ u ∷ after)
All-replace P [] after t u hu h = (hu, h.1)
All-replace P (x ∷ before) after t u hu h = (h.0, All-replace P before after t u hu h.1)

-- The owner has just allocated the object, and no other thread is in a call on it.
abbrev pub launched : Build → ShortThreadId → List Thread → Machine
launched build tid others = record {
  cells = record {
    header = init_header build.int (some tid);
    handles = 1;
    enqueued = 0;
    destroyed = 0;
  };
  owner = record { fast = owner_of tid; pc = idle };
  others = others;
}

abbrev pub IsBystander : ShortThreadId → Thread → Type 0
IsBystander tid t = IsConsistent t.fast × (t.fast.short_id ≢ some tid) × (t.pc ≡ idle)

pub record IsTracked (build : Build) (tid : ShortThreadId) (s : Machine) : Type 0 where
  pub reach : Reach build tid false (whole build s)
  pub consistent : IsConsistent s.owner.fast
  pub at_ : OwnerAt tid s.owner.fast.short_id s.owner.pc (load_biased build s.cells.header)
  pub others : All (IsOther tid) s.others

module _ {build : Build} {tid : ShortThreadId} (h : IsShortThreadId tid) (s : Machine)
    (i : IsTracked build tid s) where
  other_move :
      (before after : List Thread) (t : Thread) {m : Cells} {q : Pc}
      → s.others ≡ before ++ t ∷ after
      → Move build t.fast s.cells t.pc m q
      → Reach build tid false
          (whole build (record s { cells = m; others = before ++ record t { pc = q } ∷ after }))
  other_move before after t {m} {q} e move =
      let c = rest_of_other s before after in
      let other = All-middle (IsOther tid) before after t (subst (All (IsOther tid)) e i.others) in
      let r : Reach build tid false (seen_with build c s.cells t.pc) =
        subst (Reach build tid false)
          (ap (λ ts. whole build (record s { others = ts })) e ∙ whole-other build s before after t)
          i.reach in
      let missed =
        foreign-HasMissed t.fast.short_id (load_biased build (settle build c.late s.cells.header))
          (foreign-is_own (Reach-Inv h r) t.fast.short_id other.1) t.pc in
      subst (Reach build tid false)
        (sym (whole-other build (record s { cells = m }) before after (record t { pc = q })))
        (Move-whole h c s.cells t.fast other.0 r missed move)

  other_change :
      (before after : List Thread) (t : Thread) (fast : LocalThreadStateFast)
      → s.others ≡ before ++ t ∷ after
      → whole build (record s { others = before ++ record t { fast = fast } ∷ after })
        ≡ whole build s
  other_change before after t fast e =
      whole-other build s before after (record t { fast = fast })
      ∙ sym
          (ap (λ ts. whole build (record s { others = ts })) e ∙ whole-other build s before after t)

Access-IsTracked :
    {build : Build} {tid : ShortThreadId} {s t : Machine}
    → IsShortThreadId tid
    → Access build tid s t
    → IsTracked build tid s
    → IsTracked build tid t
Access-IsTracked {s = s} h (by_owner move) i =
    let (r, at_) =
      own_move h (rest_of false s.others) s.owner.fast i.consistent (i.reach, i.at_) move in
    record { reach = r; consistent = i.consistent; at_ = at_; others = i.others }
Access-IsTracked {s = s} h (as_owner move) i =
    let (r, at_) =
      OwnMove-whole h (rest_of false s.others) s.owner.fast i.consistent (i.reach, i.at_) move in
    record { reach = r; consistent = i.consistent; at_ = at_; others = i.others }
Access-IsTracked {build} {tid} {s} h (by_other before after t {m} {q} e move) i =
    let others = subst (All (IsOther tid)) e i.others in
    let (consistent, foreign, _) = All-middle (IsOther tid) before after t others in
    record {
      reach = other_move h s i before after t e move;
      consistent = i.consistent;
      at_ =
          subst (λ w. OwnerAt tid s.owner.fast.short_id s.owner.pc (Biased.from_raw build.int w))
            (sym (Move-biased_word move)) i.at_;
      others =
          All-replace (IsOther tid) before after t (record t { pc = q })
            (consistent, foreign, (Move-is_late move).1) others;
    }
Access-IsTracked {build} {tid} {s} h (retire fast e consistent dead) i = record {
  reach = i.reach;
  consistent = consistent;
  at_ = subst (λ p. OwnerAt tid fast.short_id p (load_biased build s.cells.header)) (sym e) tt;
  others = i.others;
}
Access-IsTracked {build} {tid} {s} h (change before after t fast e idle_ consistent foreign) i =
    record {
      reach =
          subst (Reach build tid false) (sym (other_change h s i before after t fast e)) i.reach;
      consistent = i.consistent;
      at_ = i.at_;
      others =
          All-replace (IsOther tid) before after t (record t { fast = fast })
            (consistent, foreign, ap is_late idle_) (subst (All (IsOther tid)) e i.others);
    }

-- Where no call is under way, the cells are the whole state.
total-idle :
    (f : Pc → ℕ) → f idle ≡ 0 → (ts : List Thread) → All (λ t. t.pc ≡ idle) ts → total f ts ≡ 0
total-idle f z [] a = refl
total-idle f z (t ∷ ts) (e, a) = ground (arith, total-idle f z ts a, e, z)

bystanders :
    (tid : ShortThreadId) (ts : List Thread)
    → All (IsBystander tid) ts
    → All (IsOther tid) ts × All (λ t. t.pc ≡ idle) ts
bystanders tid [] a = (tt, tt)
bystanders tid (t ∷ ts) ((consistent, foreign, e), a) =
    let (others, idle_) = bystanders tid ts a in
    (((consistent, foreign, ap is_late e), others), (e, idle_))

at_rest_is_whole :
    (build : Build) (s : Machine)
    → s.owner.pc ≡ idle
    → All (λ t. t.pc ≡ idle) s.others
    → whole build s ≡ record {
      header = s.cells.header;
      handles = s.cells.handles;
      announced = 0;
      enqueued = s.cells.enqueued;
      destroyed = s.cells.destroyed;
    }
at_rest_is_whole build s e a =
    System-≡ (ap (λ p. settle build (is_late p) s.cells.header) e)
      (ground (arith, e, total-idle held refl s.others a))
      (ground (arith, e, total-idle announces refl s.others a))
      (ground (arith, e, total-idle merges refl s.others a))
      (ground (arith, e, total-idle due refl s.others a))

module _ {build : Build} {tid : ShortThreadId} (h : IsShortThreadId tid) {others : List Thread}
    (bystanding : All (IsBystander tid) others) where
  launched-IsTracked : IsTracked build tid (launched build tid others)
  launched-IsTracked =
      let (apart, idle_) = bystanders tid others bystanding in
      record {
        reach =
            subst (Reach build tid false)
              (sym (at_rest_is_whole build (launched build tid others) refl idle_)) here;
        consistent = tt;
        at_ = tt;
        others = apart;
      }

  pub Interleaving-IsTracked :
      {s : Machine} → Interleaving build tid (launched build tid others) s → IsTracked build tid s
  Interleaving-IsTracked start = launched-IsTracked
  Interleaving-IsTracked (and_then run last) = Access-IsTracked h last (Interleaving-IsTracked run)

  -- Whatever the order in which threads access the memory, in a run without hasty clones, the state in
  -- which each call under way counts as made from its access to the shared word on, and the rest of it
  -- as done or as on its way to the queue, is one that calls as wholes reach.
  pub Interleaving-whole :
      {s : Machine}
      → Interleaving build tid (launched build tid others) s
      → Reach build tid false (whole build s)
  Interleaving-whole run = (Interleaving-IsTracked run).reach

  -- Whatever the order in which threads access the memory, in a run without hasty clones, when no call
  -- is under way, then calls as wholes reach this very state.
  pub reached_at_rest :
      {s : Machine}
      → Interleaving build tid (launched build tid others) s
      → s.owner.pc ≡ idle
      → All (λ t. t.pc ≡ idle) s.others
      → Reach build tid false (record {
        header = s.cells.header;
        handles = s.cells.handles;
        announced = 0;
        enqueued = s.cells.enqueued;
        destroyed = s.cells.destroyed;
      })
  reached_at_rest {s} run e a =
      subst (Reach build tid false) (at_rest_is_whole build s e a) (Interleaving-whole run)
