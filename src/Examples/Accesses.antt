-- ===== src/Examples/Accesses.antt =====
-- The theorems on interleaved accesses at concrete runs.
use biasedrc_rs.Common.{◌+◌, ◌-◌, ◌*◌, ◌^◌, ◌≡◌, refl, true, false, ◌||◌, [], ◌∷◌, arith}
use biasedrc_rs.Exec.{done}
use biasedrc_rs.Words.Shared
use biasedrc_rs.Words.Biased
use biasedrc_rs.Threads.Local.{existing_short_id}
use biasedrc_rs.Header.{
  Decremented, decrement_strong, init_header, queue_owner, attempt_biased_increment,
  decrement_biased, decrement_word,
}
use biasedrc_rs.Protocol.{Reach}
use biasedrc_rs.Protocol.Accesses.{
  Move, idle, subtracting, subtract_from, announcing, disowning, Machine, Interleaving, start,
  and_then, as_owner, by_owner, by_other, clone_biased, drop_last, flag, disown, drop,
  subtract_load, subtract_exchange, destroy, after_exchange,
}
use biasedrc_rs.Protocol.Accesses.Whole.{whole, is_late}
use biasedrc_rs.Protocol.Accesses.Atomicity.{
  launched, All, IsBystander, Interleaving-whole, reached_at_rest,
}
use biasedrc_rs.Protocol.Accesses.Death.{other_stands, owner_found, destroyed_last_access, is_over}
use biasedrc_rs.Protocol.Accesses.Alone.{begun, dropped, InCall, drop_alone}
use biasedrc_rs.Protocol.Accesses.Late
use biasedrc_rs.Protocol.Accesses.Late.{bystander}
use biasedrc_rs.Examples.{build, owner_id}

others_bystand : All (IsBystander 1) (bystander ∷ [])
others_bystand = ((tt, (λ e. ground (arith, e)), refl), tt)

-- The owner has cloned its reference.
abbrev cloned_once : Machine
cloned_once = record (launched build 1 (bystander ∷ [])) {
  cells = record {
    header = record { shared_word = 0; biased_word = 2 * 2 ^ 12 + 1 };
    handles = 2;
    enqueued = 0;
    destroyed = 0;
  };
}

cloned_run : Interleaving build 1 (launched build 1 (bystander ∷ [])) cloned_once
unfolding init_header attempt_biased_increment Biased.from_raw Biased.to_raw existing_short_id
    Shared.to_raw
cloned_run = and_then start (as_owner (clone_biased refl (omega arith) refl))

reached_at_rest_example : Reach build 1 false (record {
  header = record { shared_word = 0; biased_word = 2 * 2 ^ 12 + 1 };
  handles = 2;
  announced = 0;
  enqueued = 0;
  destroyed = 0;
})
reached_at_rest_example = reached_at_rest owner_id others_bystand cloned_run refl (refl, tt)

-- Another thread has dropped one of the two references, and is about to queue the object.
abbrev announced_once : Machine
announced_once = record cloned_once {
  cells = record {
    header = record { shared_word = 2 ^ 63 + 2 ^ 62 - 1; biased_word = 2 * 2 ^ 12 + 1 };
    handles = 1;
    enqueued = 0;
    destroyed = 0;
  };
  others = record bystander { pc = announcing } ∷ [];
}

announced_run : Interleaving build 1 (launched build 1 (bystander ∷ [])) announced_once
unfolding decrement_biased decrement_word after_exchange Biased.from_raw Shared.from_raw
    Shared.to_raw existing_short_id
announced_run =
    let dropping =
      and_then cloned_run (by_other [] [] bystander refl (drop refl (omega arith) refl)) in
    let loaded =
      and_then dropping
        (by_other [] [] (record bystander { pc = subtracting }) refl (subtract_load refl)) in
    and_then loaded (
      by_other [] [] (record bystander { pc = subtract_from 0 }) refl
        (subtract_exchange refl refl refl))

Interleaving-whole_example : Reach build 1 false (whole build announced_once)
Interleaving-whole_example = Interleaving-whole owner_id others_bystand announced_run

owner_found_example : queue_owner build announced_once.cells.header ≡ done 1
owner_found_example =
    owner_found owner_id others_bystand announced_run
      (other_stands [] [] (record bystander { pc = announcing }) refl refl)

drop_alone_example :
    (d : Decremented) × (decrement_strong build bystander.fast [] cloned_once.cells.header ≡ done d)
    × Move build bystander.fast cloned_once.cells idle (begun cloned_once.cells) subtracting
    × InCall build bystander.fast
        (begun cloned_once.cells)
        subtracting
        (dropped cloned_once.cells d)
        idle
drop_alone_example =
    drop_alone owner_id others_bystand cloned_run [] [] bystander refl refl (omega arith) refl

-- The owner has dropped its only reference and destroyed the object.
abbrev destroyed_once : Machine
destroyed_once = record (launched build 1 (bystander ∷ [])) {
  cells = record {
    header = record { shared_word = 2 ^ 62; biased_word = 0 };
    handles = 0;
    enqueued = 0;
    destroyed = 1;
  };
}

destroyed_run : Interleaving build 1 (launched build 1 (bystander ∷ [])) destroyed_once
unfolding init_header Biased.from_raw Biased.to_raw Shared.from_raw Shared.to_raw
destroyed_run =
    let dropping = and_then start (as_owner (drop_last refl (omega arith) refl refl)) in
    let flagged = and_then dropping (as_owner (flag refl refl refl)) in
    let disowned_ = and_then flagged (as_owner (disown refl)) in
    and_then disowned_ (by_owner (destroy refl))

destroyed_last_access_example :
    (destroyed_once.cells.destroyed ≡ 1)
    × (destroyed_once.cells.handles ≡ 0)
    × (destroyed_once.cells.enqueued ≡ 0)
    × ((is_over destroyed_once.owner.pc || is_late destroyed_once.owner.pc) ≡ true)
    × All (λ t. is_over t.pc ≡ true) destroyed_once.others
destroyed_last_access_example =
    destroyed_last_access owner_id others_bystand destroyed_run (omega arith)

stored_after_destroyed_example :
    (s : Machine) × Interleaving build 1 (launched build 1 (bystander ∷ [])) s
    × (s.cells.destroyed ≡ 1)
    × (s.owner.pc ≡ disowning false)
stored_after_destroyed_example = Late.stored_after_destroyed build 1 owner_id
