-- ===== src/Protocol/Locked.antt =====
-- src/strong.rs: `Brc::is_unique` in its accesses to the memory, between which other threads make their
-- calls on the object: strong calls as wholes, which act on the packed words, without hasty clones
-- (Protocol/Calls), and calls on weak references. The thread that asks keeps its reference to itself, so
-- that a clone, a drop or a downgrade of another thread has a reference besides. The test of the strong
-- count is one access: what it reads of the biased word, it uses only on the one thread that writes it.
use biasedrc_rs.Common.{
  ℕ, ◌+◌, ◌-◌, ◌^◌, ◌<◌, ◌≡◌, refl, ap, ◌∙◌, sym, Bool, true, false, Option, none, some, [], ◌==◌,
  ◌&&◌, pos_part, if◌then◌else◌, arith,
}
use biasedrc_rs.Exec.{done}
use biasedrc_rs.Ids.{ShortThreadId, IsShortThreadId}
use biasedrc_rs.Threads.Local.{LocalThreadStateFast, IsConsistent}
use biasedrc_rs.Header
use biasedrc_rs.Header.{Build, is_definitely_not_unique}
use biasedrc_rs.View.{refs}
use biasedrc_rs.View.Counts.{is_precise, is_unique_lem}
use biasedrc_rs.Brc.{BrcHeader, weak_locked_count, downgrade, clone_weak, drop_weak}
use biasedrc_rs.Protocol.Calls.{System, Step, clone, upgrade, drop, push, merge, Reach, next}
use biasedrc_rs.Protocol.Invariant.{Reach-Inv}

-- `idle` before the call, `asked` before the exchange, `locked` and `checked` after it, `answered` when
-- the call has returned.
pub data Phase : Type 0 where
  idle asked locked : Phase
  checked answered : Bool → Phase

-- `weaks` counts the weak references, `weak_count` is the word in the header.
pub record Contended : Type 0 where
  pub system : System
  pub weaks : ℕ
  pub weak_count : ℕ
  pub phase : Phase

-- `compare_exchange(1, WEAK_LOCKED_COUNT)`
unfoldable pub try_lock : ℕ → Option ℕ
try_lock weak_count = if weak_count == 1 then some weak_locked_count else none

abbrev pub header_in : Contended → BrcHeader
header_in s = record { strong = s.system.header; weak_count = s.weak_count }

module _ (build : Build) (tid : ShortThreadId) where
  -- A call of another thread has a reference that is not the one of the thread that asks.
  abbrev pub IsElsewhere : (s : Contended) {t : System} → Step build tid false s.system t → Type 0
  IsElsewhere s (clone _ _ _ _ _) = 1 < s.system.handles
  IsElsewhere s (upgrade _ _ _ _) = 0 < s.weaks
  IsElsewhere s (drop _ _ _ _) = 1 < s.system.handles
  IsElsewhere s (push _) = Unit
  IsElsewhere s (merge _ _) = Unit

  -- `fast` is the state of the thread that asks.
  pub data ContendedStep (fast : LocalThreadStateFast) (s : Contended) : Contended → Type 0 where
    strong :
        {t : System} (call : Step build tid false s.system t)
        → IsElsewhere s call
        → ContendedStep fast s (record s { system = t })
    downgrade_strong :
        {h : BrcHeader}
        → 1 < s.system.handles
        → downgrade [] (header_in s) ≡ done (some h)
        → ContendedStep fast s (record s { weak_count = h.weak_count; weaks = s.weaks + 1 })
    clone_of_weak :
        {h : BrcHeader}
        → 0 < s.weaks
        → clone_weak (header_in s) ≡ done h
        → ContendedStep fast s (record s { weak_count = h.weak_count; weaks = s.weaks + 1 })
    drop_of_weak :
        0 < s.weaks
        → ContendedStep fast s
            (record s { weak_count = (drop_weak (header_in s)).0.weak_count; weaks = s.weaks - 1 })
    ask :
        s.phase ≡ idle
        → is_definitely_not_unique build fast s.system.header ≡ done false
        → ContendedStep fast s (record s { phase = asked })
    refuse :
        s.phase ≡ idle
        → is_definitely_not_unique build fast s.system.header ≡ done true
        → ContendedStep fast s (record s { phase = answered false })
    lock :
        {n : ℕ}
        → s.phase ≡ asked
        → try_lock s.weak_count ≡ some n
        → ContendedStep fast s (record s { weak_count = n; phase = locked })
    miss :
        s.phase ≡ asked
        → try_lock s.weak_count ≡ none
        → ContendedStep fast s (record s { phase = answered false })
    check :
        {unique : Bool}
        → s.phase ≡ locked
        → Header.is_unique build fast s.system.header ≡ done unique
        → ContendedStep fast s (record s { phase = checked unique })
    unlock :
        {unique : Bool}
        → s.phase ≡ checked unique
        → ContendedStep fast s (record s { weak_count = 1; phase = answered unique })

  pub data Contention (fast : LocalThreadStateFast) (s : Contended) : Contended → Type 0 where
    start : Contention fast s s
    step : {t u : Contended} → Contention fast s t → ContendedStep fast t u → Contention fast s u

-- An object with any number of weak references, before the call.
abbrev pub uncontended : System → ℕ → Contended
uncontended s weaks = record { system = s; weaks = weaks; weak_count = weaks + 1; phase = idle }

abbrev pub is_locked : Phase → Bool
is_locked locked = true
is_locked (checked unique) = true
is_locked _ = false

abbrev pub says_unique : Phase → Bool
says_unique (checked unique) = unique
says_unique (answered unique) = unique
says_unique _ = false

record IsContended (build : Build) (tid : ShortThreadId) (s : Contended) : Type 0 where
  reach : Reach build tid false s.system
  own : 0 < s.system.handles
  counted : s.weak_count ≡ (if is_locked s.phase then 2 ^ 32 - 1 else s.weaks + 1)
  small : s.weaks < 2 ^ 31 + 1
  bare : is_locked s.phase ≡ true → s.weaks ≡ 0
  alone : says_unique s.phase ≡ true → (s.system.handles ≡ 1) × (s.weaks ≡ 0)

module _ {build : Build} {tid : ShortThreadId} where
  strong-handles :
      (s : Contended) {t : System} (call : Step build tid false s.system t)
      → IsElsewhere build tid s call
      → 0 < s.system.handles
      → (0 < t.handles) × ((s.system.handles ≡ 1) × (s.weaks ≡ 0) → t.handles ≡ 1)
  strong-handles s (clone _ _ _ _ _) elsewhere own =
      (omega arith, λ e. absurd (omega (arith, elsewhere, e.0)))
  strong-handles s (upgrade _ _ _ _) elsewhere own =
      (omega arith, λ e. absurd (omega (arith, elsewhere, e.1)))
  strong-handles s (drop _ _ _ _) elsewhere own =
      (omega (arith, elsewhere), λ e. absurd (omega (arith, elsewhere, e.0)))
  strong-handles s (push _) elsewhere own = (own, λ e. e.0)
  strong-handles s (merge _ _) elsewhere own = (own, λ e. e.0)

module _ {build : Build} {tid : ShortThreadId} (h : IsShortThreadId tid)
    (fast : LocalThreadStateFast) (consistent : IsConsistent fast) where
  -- The test of the strong count sees the one reference that there is.
  unique-handles :
      (s : System)
      → Reach build tid false s
      → Header.is_unique build fast s.header ≡ done true
      → s.handles ≡ 1
  unique-handles s r call =
      let inv = Reach-Inv h r in
      let lem = is_unique_lem build fast consistent inv.view inv.shared.valid in
      let both : done (is_precise fast.short_id inv.view && (pos_part (refs inv.view) == 1))
          ≡ done true =
        sym lem ∙ ap (Header.is_unique build fast) (sym inv.same) ∙ call in
      ground (arith, both, inv.counted)

  step-IsContended :
      {s t : Contended}
      → ContendedStep build tid fast s t
      → IsContended build tid s
      → IsContended build tid t
  unfolding downgrade clone_weak drop_weak try_lock
  step-IsContended {s} (strong call elsewhere) i =
      let (own, alone) = strong-handles s call elsewhere i.own in
      record {
        reach = next i.reach call;
        own = own;
        counted = i.counted;
        small = i.small;
        bare = i.bare;
        alone = λ e. (alone (i.alone e), (i.alone e).1);
      }
  step-IsContended {s} (downgrade_strong alive call) i = record {
    reach = i.reach;
    own = i.own;
    counted = ground (arith, i.counted, i.small);
    small = ground (arith, i.counted, i.small);
    bare = λ e. ground (arith, i.counted, i.bare);
    alone = λ e. ground (arith, i.alone);
  }
  step-IsContended {s} (clone_of_weak alive call) i = record {
    reach = i.reach;
    own = i.own;
    counted = ground (arith, i.counted, i.bare, i.small);
    small = ground (arith, i.counted, i.bare, i.small);
    bare = λ e. ground (arith, i.bare);
    alone = λ e. ground (arith, i.alone);
  }
  step-IsContended {s} (drop_of_weak alive) i = record {
    reach = i.reach;
    own = i.own;
    counted = ground (arith, i.counted, i.bare, i.small);
    small = ground (arith, i.small);
    bare = λ e. ground (arith, i.bare);
    alone = λ e. ground (arith, i.alone);
  }
  step-IsContended {s} (ask free call) i = record {
    reach = i.reach;
    own = i.own;
    counted = ground (arith, i.counted, free);
    small = i.small;
    bare = λ e. ground (arith, e);
    alone = λ e. ground (arith, e);
  }
  step-IsContended {s} (refuse free call) i = record {
    reach = i.reach;
    own = i.own;
    counted = ground (arith, i.counted, free);
    small = i.small;
    bare = λ e. ground (arith, e);
    alone = λ e. ground (arith, e);
  }
  step-IsContended {s} (lock free call) i = record {
    reach = i.reach;
    own = i.own;
    counted = ground (arith, i.counted, free);
    small = i.small;
    bare = λ e. ground (arith, i.counted, free);
    alone = λ e. ground (arith, e);
  }
  step-IsContended {s} (miss free call) i = record {
    reach = i.reach;
    own = i.own;
    counted = ground (arith, i.counted, free);
    small = i.small;
    bare = λ e. ground (arith, e);
    alone = λ e. ground (arith, e);
  }
  step-IsContended {s} (check {unique} held call) i = record {
    reach = i.reach;
    own = i.own;
    counted = ground (arith, i.counted, held);
    small = i.small;
    bare = λ e. ground (arith, i.bare, held);
    alone = λ e. (unique-handles s.system i.reach (call ∙ ap done e), i.bare (ap is_locked held));
  }
  step-IsContended {s} (unlock {unique} held) i = record {
    reach = i.reach;
    own = i.own;
    counted = ground (arith, i.bare, held);
    small = i.small;
    bare = λ e. ground (arith, e);
    alone = λ e. ground (arith, i.alone, held);
  }

  Contention-IsContended :
      {s t : Contended}
      → IsContended build tid s
      → Contention build tid fast s t
      → IsContended build tid t
  Contention-IsContended i start = i
  Contention-IsContended i (step run last) = step-IsContended last (Contention-IsContended i run)

  -- Let a thread call is_unique on an object that a run without hasty clones has reached, with a strong
  -- reference and at most 2 ^ 31 weak ones, and let other threads make their strong and weak calls
  -- between its accesses, without hasty clones. When is_unique has answered true, the reference of the
  -- thread that asks is at that moment the only strong one, there is no weak one, and the lock is
  -- released: the weak count is 1.
  pub answered_alone :
      {origin : System} {weaks : ℕ} {s : Contended}
      → Reach build tid false origin
      → 0 < origin.handles
      → weaks < 2 ^ 31 + 1
      → Contention build tid fast (uncontended origin weaks) s
      → s.phase ≡ answered true
      → (s.system.handles ≡ 1) × (s.weaks ≡ 0) × (s.weak_count ≡ 1)
  answered_alone {origin} {weaks} {s} reach alive small run answer =
      let first : IsContended build tid (uncontended origin weaks) = record {
        reach = reach;
        own = alive;
        counted = refl;
        small = small;
        bare = λ e. ground (arith, e);
        alone = λ e. ground (arith, e);
      } in
      let i = Contention-IsContended first run in
      let (lone, bare) = i.alone (ap says_unique answer) in
      (lone, bare, ground (arith, i.counted, answer, bare))
