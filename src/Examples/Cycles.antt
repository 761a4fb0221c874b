-- ===== src/Examples/Cycles.antt =====
-- The theorems on whole calls through references, at concrete values.
use biasedrc_rs.Common.{arith, ℕ, ◌+◌, ◌≡◌, refl, true, false, none, some, [], pos}
use biasedrc_rs.Exec.{done}
use biasedrc_rs.Words.ArbitraryInt.{plain_int}
use biasedrc_rs.View.{View, IsView, refs}
use biasedrc_rs.Threads.SegQueue.{list_queue}
use biasedrc_rs.Threads.Memory.{QueuedObject}
use biasedrc_rs.Threads.Boxcar.{list_vec}
use biasedrc_rs.Threads.Registry.{Entry}
use biasedrc_rs.Brc.Object.{returned}
use biasedrc_rs.Brc.Destruction.{live_object}
use biasedrc_rs.Brc.World.{World}
use biasedrc_rs.Brc.Alloc.{new_in}
use biasedrc_rs.Examples.{build, one}
use biasedrc_rs.Brc.Cycle.{drop-new_in}
use biasedrc_rs.Brc.Calls.{drop, DropEnd, Setting, MadeMut, make_mut}
use biasedrc_rs.Brc.Pointers.{after_drop}
use biasedrc_rs.Brc.Unsharing.{make_mut-shared}
use biasedrc_rs.Examples.Objects.{
  setting, word-IsPlaced, aligned, header_layout, word, word_info, laid_out,
}
use biasedrc_rs.Examples.Slices.{start, start-IsCurrent, words}

-- Two references on another thread.
abbrev two : View
two = record one { biased = 2 }

two-IsView : IsView two
two-IsView = ground arith

abbrev unsharing : Setting ℕ
unsharing = record setting { disabled = true }

abbrev sharing : World (list_queue QueuedObject) (list_vec Entry) ℕ
sharing = start (λ base. live_object plain_int word_info two 1 7)

make_mut-shared_example :
    (m : MadeMut (list_queue QueuedObject) (list_vec Entry) ℕ) × (u : View) × (make_mut unsharing
        false []
        (λ x. x + 1)
        []
        (some 128)
        (64 + 16)
        sharing
      ≡ done (some m))
    × (m.this ≡ 128 + 16)
    × (m.world.heap 128 ≡ live_object plain_int word_info u 1 (7 + 1))
    × (m.world.heap 64 ≡ (after_drop unsharing m.world.current.fast two 1 7).object)
    × IsView u
    × (refs u ≡ pos 1)
make_mut-shared_example =
    make_mut-shared unsharing false [] (λ x. x + 1) 64 128 sharing two 1 7 7 refl word-IsPlaced
      aligned (record { quotient = 16; is_multiple = refl }) (λ e. omega (arith, e)) two-IsView refl
      (omega arith) (omega arith) refl start-IsCurrent laid_out refl refl refl

drop-new_in_example :
    (w1 : World (list_queue QueuedObject) (list_vec Entry) ℕ) × (w2 : World
      (list_queue QueuedObject)
      (list_vec Entry)
      ℕ)
    × (end : DropEnd) × (new_in build header_layout true
          (λ _. word_info)
          1
          false
          true
          false
          []
          word
          7
          (some 64)
          words
        ≡ done (some (returned (64 + 16), w1)))
    × (drop unsharing false [] [] (64 + 16) w1 ≡ done (some (end, w2)))
    × ((w2.heap 64).memory ≡ none)
    × ((w2.heap 64).value ≡ none)
    × (end.0 ≡ returned tt)
    × (end.1 ≡ none)
drop-new_in_example =
    drop-new_in unsharing false [] 7 64 words refl start-IsCurrent word-IsPlaced laid_out aligned
