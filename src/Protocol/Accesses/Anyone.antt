-- ===== src/Protocol/Accesses/Anyone.antt =====
-- Each access to the shared word is a call as a whole, or none.
use mathlib.Core.Path.{subst}
use biasedrc_rs.Common.{ℕ, ◌+◌, ◌≡◌, refl, Bool, true, false, Option, none, some, [], arith}
use biasedrc_rs.Exec.{done}
use biasedrc_rs.Ids.{ShortThreadId, IsShortThreadId}
use biasedrc_rs.Threads.Local.{LocalThreadStateFast, IsConsistent}
use biasedrc_rs.Words.Biased.{BiasedWord}
use biasedrc_rs.Words.Shared
use biasedrc_rs.Words.Shared.{SharedWord, of_bool}
use biasedrc_rs.Header.{
  Build, RawBrcHeader, Decremented, load_biased, load_shared, increment_strong,
  increment_strong_shared, attempt_biased_increment, decrement_biased, queue_owner,
  increment_strong_unless_zero, increment_unless_dead, decrement_word, decrement_strong,
  decrement_shared,
}
use biasedrc_rs.Protocol.Calls
use biasedrc_rs.Protocol.Calls.{System, Step, Reach, next, waits}
use biasedrc_rs.Protocol.Invariant.{Reach-Inv}
use biasedrc_rs.Protocol.Safety.{drop_returns}
use biasedrc_rs.Protocol.Accesses.{
  Pc, idle, adding, upgrading, upgrade_from, subtracting, subtract_from, Cells, Move, clone, add,
  upgrade, upgrade_load, upgrade_exchange, upgrade_retry, upgrade_dead, drop, subtract_load,
  subtract_exchange, subtract_retry, read_owner, push, destroy, after_exchange, with_word, word_of,
}
use biasedrc_rs.Protocol.Accesses.Whole.{
  Rest, seen_with, settle, System-≡, held, announces, merges, due,
}
use biasedrc_rs.Protocol.Accesses.Missed.{is_own, takes, missed_increment, missed_decrement}

-- What a thread has found out about the biased word, by the place where it stands.
abbrev pub HasMissed : Option ℕ → Pc → BiasedWord → Type 0
HasMissed this adding w = takes this w ≡ false
HasMissed this upgrading w = takes this w ≡ false
HasMissed this (upgrade_from _) w = takes this w ≡ false
HasMissed this subtracting w = is_own this w ≡ false
HasMissed this (subtract_from _) w = is_own this w ≡ false
HasMissed this _ w = Unit

module _ (build : Build) where
  open build use {int}

  settled_add :
      (late : Bool) (h : RawBrcHeader) {h' : RawBrcHeader}
      → increment_strong_shared build h ≡ done h'
      → increment_strong_shared build (settle build late h) ≡ done (settle build late h')
  unfolding increment_strong_shared
  settled_add true h e = ground (arith, e)
  settled_add false h e = e

  settled_waits :
      (late : Bool) (h : RawBrcHeader) → waits build (settle build late h) ≡ waits build h
  settled_waits true h = refl
  settled_waits false h = refl

  add_whole :
      (fast : LocalThreadStateFast) (late : Bool) (h : RawBrcHeader) {h' : RawBrcHeader}
      → attempt_biased_increment build fast (settle build late h) ≡ done none
      → increment_strong_shared build h ≡ done h'
      → increment_strong build fast (settle build late h) ≡ done (settle build late h')
  unfolding increment_strong
  add_whole fast late h missed e = rw missed (settled_add late h e)

  upgrade_whole :
      (fast : LocalThreadStateFast) (late : Bool) (h : RawBrcHeader) {new : SharedWord}
      → attempt_biased_increment build fast (settle build late h) ≡ done none
      → increment_unless_dead build (load_shared build h) ≡ done (some new)
      → increment_strong_unless_zero build fast [] (settle build late h)
        ≡ done (some (settle build late (record h { shared_word = Shared.to_raw int new })))
  unfolding increment_strong_unless_zero
  upgrade_whole fast true h missed e = ground (arith, missed, e)
  upgrade_whole fast false h missed e = ground (arith, missed, e)

  -- What the drop as a whole returns is what the exchange leaves, and where the thread goes on.
  pub record IsDropped (late : Bool) (h : RawBrcHeader) (new : SharedWord) (q : Pc)
      (d : Decremented) : Type 0 where
    pub header : d.header ≡ settle build late (record h { shared_word = Shared.to_raw int new })
    pub held : held q ≡ 0
    pub announces : announces q ≡ Calls.requests d.queue_to
    pub merges : merges q ≡ 0
    pub due : due q ≡ of_bool d.result.should_drop

  pub drop_whole :
      (fast : LocalThreadStateFast) (late : Bool) (h : RawBrcHeader) {new : SharedWord} {q : Pc}
      {d : Decremented}
      → decrement_biased build fast (settle build late h) ≡ done none
      → decrement_strong build fast [] (settle build late h) ≡ done d
      → decrement_word build (load_shared build h) ≡ done (some new)
      → after_exchange build (load_shared build h) new ≡ done q
      → IsDropped late h new q d
  unfolding decrement_strong decrement_shared after_exchange queue_owner
  drop_whole fast true h missed call e after = record {
    header = ground (arith, missed, call, e, after);
    held = ground (arith, missed, call, e, after);
    announces = ground (arith, missed, call, e, after);
    merges = ground (arith, missed, call, e, after);
    due = ground (arith, missed, call, e, after);
  }
  drop_whole fast false h missed call e after = record {
    header = ground (arith, missed, call, e, after);
    held = ground (arith, missed, call, e, after);
    announces = ground (arith, missed, call, e, after);
    merges = ground (arith, missed, call, e, after);
    due = ground (arith, missed, call, e, after);
  }

-- The biased word as the calls as wholes see it.
abbrev pub settled_word : Build → Rest → Cells → BiasedWord
settled_word build c m = load_biased build (settle build c.late m.header)

module _ {build : Build} {tid : ShortThreadId} (h : IsShortThreadId tid) where
  open build use {int}

  -- Two descriptions of the same state.
  pub Reach-same :
      {s t : System}
      → Reach build tid false s
      → s.header ≡ t.header
      → s.handles ≡ t.handles
      → s.announced ≡ t.announced
      → s.enqueued ≡ t.enqueued
      → s.destroyed ≡ t.destroyed
      → Reach build tid false t
  Reach-same r a b c d e = subst (Reach build tid false) (System-≡ a b c d e) r

  pub at_pc :
      (c : Rest) (m : Cells) {p q : Pc}
      → p ≡ q
      → Reach build tid false (seen_with build c m p)
      → Reach build tid false (seen_with build c m q)
  at_pc c m e r = subst (λ p. Reach build tid false (seen_with build c m p)) e r

  module _ (c : Rest) (m : Cells) (fast : LocalThreadStateFast)
      (consistent : IsConsistent fast) where
    add_step :
        {h' : RawBrcHeader}
        → Reach build tid false (seen_with build c m adding)
        → takes fast.short_id (settled_word build c m) ≡ false
        → waits build m.header ≡ false
        → increment_strong_shared build m.header ≡ done h'
        → Reach build tid false
            (seen_with build c (record m { header = h'; handles = m.handles + 2 }) idle)
    add_step r missed calm e =
        Reach-same
          (next r (
            Calls.clone fast consistent (omega arith)
              (ground (arith, settled_waits build c.late m.header, calm))
              (add_whole build fast c.late m.header
                (missed_increment (Reach-Inv h r) fast consistent missed) e)))
          refl (omega arith) refl refl refl

    upgrade_step :
        {new : SharedWord} (seen : ℕ)
        → Reach build tid false (seen_with build c m (upgrade_from seen))
        → takes fast.short_id (settled_word build c m) ≡ false
        → waits build m.header ≡ false
        → increment_unless_dead build (word_of build m) ≡ done (some new)
        → Reach build tid false (
            seen_with build c
              (record m { header = with_word build m new; handles = m.handles + 1 })
              idle)
    upgrade_step seen r missed calm e =
        Reach-same
          (next r (
            Calls.upgrade fast consistent
              (ground (arith, settled_waits build c.late m.header, calm))
              (upgrade_whole build fast c.late m.header
                (missed_increment (Reach-Inv h r) fast consistent missed) e)))
          refl (omega arith) refl refl refl

    drop_step :
        {new : SharedWord} {q : Pc} (seen : ℕ)
        → Reach build tid false (seen_with build c m (subtract_from seen))
        → is_own fast.short_id (settled_word build c m) ≡ false
        → decrement_word build (word_of build m) ≡ done (some new)
        → after_exchange build (word_of build m) new ≡ done q
        → Reach build tid false (seen_with build c (record m { header = with_word build m new }) q)
    drop_step {new} {q} seen r missed e after =
        let (d, call) = drop_returns h r fast consistent (omega arith) in
        let i =
          drop_whole build fast c.late m.header
            (missed_decrement (Reach-Inv h r) fast consistent missed) call e after in
        Reach-same (next r (Calls.drop fast consistent (omega arith) call)) i.header
          (omega (arith, i.held)) (omega (arith, i.announces)) (omega (arith, i.merges))
          (omega (arith, i.due))

    -- An access of any thread leaves a state that calls as wholes reach, where it started in one.
    pub Move-whole :
        {p q : Pc} {m' : Cells}
        → Reach build tid false (seen_with build c m p)
        → HasMissed fast.short_id p (settled_word build c m)
        → Move build fast m p m' q
        → Reach build tid false (seen_with build c m' q)
    Move-whole r missed (clone e alive _) =
        Reach-same (at_pc c m e r) refl (omega (arith, alive)) refl refl refl
    Move-whole r missed (add e calm call) =
        add_step (at_pc c m e r)
          (subst (λ p. HasMissed fast.short_id p (settled_word build c m)) e missed) calm call
    Move-whole r missed (upgrade e _) = at_pc c m e r
    Move-whole r missed (upgrade_load e) = at_pc c m e r
    Move-whole r missed (upgrade_exchange e calm call) =
        upgrade_step m.header.shared_word (at_pc c m e r)
          (subst (λ p. HasMissed fast.short_id p (settled_word build c m)) e missed) calm call
    Move-whole r missed (upgrade_retry e _) = at_pc c m e r
    Move-whole r missed (upgrade_dead e _) = at_pc c m e r
    Move-whole r missed (drop e alive _) =
        Reach-same (at_pc c m e r) refl (omega (arith, alive)) refl refl refl
    Move-whole r missed (subtract_load e) = at_pc c m e r
    Move-whole r missed (subtract_exchange e call after) =
        drop_step m.header.shared_word (at_pc c m e r)
          (subst (λ p. HasMissed fast.short_id p (settled_word build c m)) e missed) call after
    Move-whole r missed (subtract_retry e _) = at_pc c m e r
    Move-whole r missed (read_owner e _) = at_pc c m e r
    Move-whole r missed (push e) =
        Reach-same (next (at_pc c m e r) (Calls.push (omega arith))) refl refl (omega arith)
          (omega arith) refl
    Move-whole r missed (destroy e) = Reach-same (at_pc c m e r) refl refl refl refl (omega arith)
