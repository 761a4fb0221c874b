-- ===== src/Examples/Slices.antt =====
-- The theorems on allocations and conversions at concrete values, on a thread that is registered.
use biasedrc_rs.Common.{ℕ, ◌+◌, ◌≡◌, refl, true, false, none, some, List, [], ◌∷◌, ◌++◌, pos, ok}
use biasedrc_rs.Exec.{done}
use biasedrc_rs.Layout
use biasedrc_rs.Layout.{Layout, LayoutInfo}
use biasedrc_rs.Words.ArbitraryInt.{plain_int}
use biasedrc_rs.View.{View, IsView, refs, encode}
use biasedrc_rs.Threads.SegQueue.{list_queue}
use biasedrc_rs.Threads.Memory.{QueuedObject}
use biasedrc_rs.Threads.Shared.{shared_init}
use biasedrc_rs.Threads.Local.{initial_fast}
use biasedrc_rs.Threads.Boxcar.{list_vec}
use biasedrc_rs.Threads.Registry.{Entry}
use biasedrc_rs.Threads.Current.{Current, untouched}
use biasedrc_rs.Threads.Birth.{IsCurrent}
use biasedrc_rs.Brc.Object.{Object, returned, unwound}
use biasedrc_rs.Brc.Destruction.{live_object}
use biasedrc_rs.Brc.World.{World, Heap, store_object}
use biasedrc_rs.Brc.Alloc.{alloc_with_in, alloc_with_in-returned, alloc_with_in-unwound}
use biasedrc_rs.Conversions.{from_iter, slice_layout}
use biasedrc_rs.Conversions.Iterators.{Event, item, panics, unwound_after, do_init, next_exact}
use biasedrc_rs.Conversions.Exact.{asserted, do_init-too_few, do_init-too_many}
use biasedrc_rs.Conversions.Allocated.{from_iter-exact}
use biasedrc_rs.Examples.{build, one}
use biasedrc_rs.Examples.Objects.{header_layout, word, word_info, laid_out}

-- A thread that has not used the library yet, with the collection turned off.
abbrev pub start {ℓ} : {V : Type ℓ} → Heap V → World (list_queue QueuedObject) (list_vec Entry) V
start heap = record {
  current = record {
    registry = record { threads = []; exhausted = false };
    fast = initial_fast;
    lazy = untouched;
  };
  shared = shared_init (list_queue QueuedObject) 1;
  heap = heap;
}

pub start-IsCurrent : IsCurrent (list_vec Entry) (record {
  registry = record { threads = []; exhausted = false };
  fast = initial_fast;
  lazy = untouched;
})
start-IsCurrent = record { registry = record { entries = tt; flag = refl }; agrees = refl }

abbrev free {ℓ} : {V : Type ℓ} → Heap V
free base = record {
  header = record { strong = encode plain_int one; weak_count = 0 };
  value = none;
  memory = none;
}

abbrev pub words : World (list_queue QueuedObject) (list_vec Entry) ℕ
words = start free

alloc_with_in-returned_example :
    (c : Current (list_vec Entry)) × (v : View) × (alloc_with_in build header_layout true
        (λ _. word_info)
        1
        true
        false
        false
        []
        false
        word
        (returned 7)
        (some 64)
        words
      ≡ done (
          some (
            returned (64 + 16),
            record words {
              current = c;
              heap = store_object 64 (live_object plain_int word_info v 1 7) free;
            },
          )))
    × IsCurrent (list_vec Entry) c
    × IsView v
    × (refs v ≡ pos 1)
    × (v.owner ≡ c.fast.short_id)
alloc_with_in-returned_example =
    alloc_with_in-returned build header_layout true (λ _. word_info) 1 true false false [] false
      word 7 64 words refl start-IsCurrent laid_out

alloc_with_in-unwound_example :
    (c : Current (list_vec Entry)) × (o : Object ℕ) × (alloc_with_in build header_layout true
        (λ _. word_info)
        1
        true
        false
        false
        []
        true
        word
        unwound
        (some 64)
        words
      ≡ done (some (unwound, record words { current = c; heap = store_object 64 o free })))
    × IsCurrent (list_vec Entry) c
    × (o.value ≡ none)
    × (o.memory ≡ none)
alloc_with_in-unwound_example =
    alloc_with_in-unwound build header_layout true (λ _. word_info) 1 true false false [] true word
      64 words refl start-IsCurrent laid_out

abbrev five_six : List (Event ℕ)
five_six = item 5 ∷ item 6 ∷ []

do_init-too_few_example :
    (do_init next_exact true (2 + 1) (asserted five_six (2 + 1))
      ≡ done (unwound_after (5 ∷ 6 ∷ []) []))
    × (do_init next_exact true (2 + 1) (asserted (five_six ++ (panics ∷ [])) (2 + 1))
        ≡ done (unwound_after (5 ∷ 6 ∷ []) []))
do_init-too_few_example = do_init-too_few 0 (5 ∷ 6 ∷ []) []

do_init-too_many_example :
    do_init next_exact true 2 (asserted (five_six ++ (item 7 ∷ [])) 2)
    ≡ done (unwound_after (5 ∷ []) (6 ∷ []))
do_init-too_many_example = do_init-too_many (5 ∷ []) 6 7 []

abbrev pair : List ℕ
pair = 5 ∷ 6 ∷ []

abbrev pair_info : LayoutInfo
pair_info = record { value_offset = 16; full_layout = record { size = 24; align = 8 } }

pair_laid_out : Layout.new header_layout (slice_layout word pair) ≡ ok pair_info
unfolding Layout.new
pair_laid_out = refl

abbrev slices : World (list_queue QueuedObject) (list_vec Entry) (List ℕ)
slices = start free

from_iter-exact_example :
    (c : Current (list_vec Entry)) × (v : View) × (from_iter build header_layout word true
        (λ _. pair_info)
        1
        true
        false
        false
        []
        (some 64)
        slices
        2
        (some 2)
        (item 5 ∷ item 6 ∷ [])
        (λ _. unwound)
      ≡ done (record {
        outcome = some (
          returned (64 + 16),
          record slices {
            current = c;
            heap = store_object 64 (live_object plain_int pair_info v 1 pair) free;
          },
        );
        dropped = [];
        leaked = [];
      }))
    × IsCurrent (list_vec Entry) c
    × IsView v
    × (refs v ≡ pos 1)
    × (v.owner ≡ c.fast.short_id)
from_iter-exact_example =
    from_iter-exact build header_layout word true (λ _. pair_info) 1 true false false [] 64 slices
      pair (λ _. unwound) refl start-IsCurrent refl pair_laid_out
