-- ===== src/Examples/Lifetimes.antt =====
-- The theorems on the lives of objects at concrete runs.
use biasedrc_rs.Common.{◌≡◌, refl, true, arith}
use biasedrc_rs.Brc.{drop_weak}
use biasedrc_rs.Protocol.{System, Reach, drop}
use biasedrc_rs.Protocol.Overtaken
use biasedrc_rs.Protocol.Lifetime.Release.{released_once, released_in_the_end}
use biasedrc_rs.Protocol.Lifetime.{Lifetime, Life, strong, start, step, newborn, after_strong}
use biasedrc_rs.Threads.Local.{initial_fast}
use biasedrc_rs.Header.{init_header}
use biasedrc_rs.Examples.{build, owner, owner_id}
use biasedrc_rs.Examples.Runs.{gone, own_drop, dropped_elsewhere, foreign_drop}

destroyed_while_announced_example :
    (s : System) × Reach build 1 true s × (s.destroyed ≡ 1) × (s.announced ≡ 1)
destroyed_while_announced_example = Overtaken.destroyed_while_announced build 1 owner_id

-- The owner has dropped the only reference, and there was no weak one.
abbrev over : Lifetime
over = after_strong (newborn build 1) gone

life : Life build 1 (newborn build 1) over
unfolding init_header
life = step start (strong (drop owner tt (omega arith) own_drop) (λ e. ground arith))

released_once_example : over.released ≡ 1
unfolding after_strong drop_weak
released_once_example = released_once owner_id life

-- Another thread has dropped it.
abbrev left_over : Lifetime
left_over = after_strong (newborn build 1) dropped_elsewhere

left_over_life : Life build 1 (newborn build 1) left_over
unfolding init_header
left_over_life =
    step start (strong (drop initial_fast tt (omega arith) foreign_drop) (λ e. ground arith))

released_in_the_end_example : (t : Lifetime) × Life build 1 left_over t × (t.released ≡ 1)
unfolding after_strong drop_weak
released_in_the_end_example = released_in_the_end owner_id left_over_life refl
