-- ===== src/ThirdParty.antt =====
-- src/third_party/archery.rs, src/third_party/arc_swap.rs: `BrcK` and `RefCnt`, which go by the address
-- of a value, as the references themselves do.
use biasedrc_rs.Common.{ℕ, Option, none, some, List, Bool, Result, ok, err}
use biasedrc_rs.Exec.{Exec, done, fault, Fault, ◌>>=◌}
use biasedrc_rs.Threads.SegQueue.{SegQueue}
use biasedrc_rs.Threads.Memory.{QueuedObject}
use biasedrc_rs.Threads.Boxcar.{Boxcar}
use biasedrc_rs.Threads.Registry.{Entry}
use biasedrc_rs.Threads.Local.{LocalThreadStateFast}
use biasedrc_rs.Brc.Object.{Ending, returned, try_unwrap, get_mut}
use biasedrc_rs.Brc.World.{Heap, World}
use biasedrc_rs.Brc.Alloc.{new_in}
use biasedrc_rs.Brc.Weak.{at_pointer}
use biasedrc_rs.Brc.Calls
use biasedrc_rs.Brc.Calls.{Setting, DropEnd, MadeMut, make_mut, decrement_strong_count}

-- `BrcK`
pub record BrcK : Type 0 where
  pub value_ptr : ℕ

unfoldable pub from_brc : ℕ → BrcK
from_brc brc = record { value_ptr = brc }

unfoldable pub into_brc : BrcK → ℕ
into_brc k = k.value_ptr

abbrev pub from_brc_of {ℓ} : {W : Type ℓ} → Option (ℕ × W) → Option (BrcK × W)
from_brc_of none = none
from_brc_of (some (brc, w)) = some (from_brc brc, w)

abbrev pub from_ending_of {ℓ} : {W : Type ℓ} → Option (Ending ℕ × W) → Option (Ending BrcK × W)
from_ending_of none = none
from_ending_of (some (returned brc, w)) = some (returned (from_brc brc), w)
from_ending_of (some (Ending.unwound, w)) = some (Ending.unwound, w)

abbrev pub or_back {ℓ} : {V : Type ℓ} → BrcK → Option V → Result V BrcK
or_back k (some v) = ok v
or_back k none = err k

module _ {ℓ} {V : Type ℓ} (setting : Setting V) where
  module _ (fast : LocalThreadStateFast) where
    -- `BrcK::try_unwrap`
    unfoldable pub try_unwrap_k : BrcK → Heap V → Exec (Result V BrcK × Heap V)
    unfolding into_brc from_brc
    try_unwrap_k k heap =
        at_pointer setting.info (into_brc k) heap (try_unwrap setting.build fast) >>= λ r.
        done (or_back (from_brc (into_brc k)) r.0, r.1)

    -- `BrcK::get_mut`, and a mutation through the reference.
    unfoldable pub get_mut_k : (V → V) → BrcK → Heap V → Exec (Bool × Heap V)
    unfolding into_brc
    get_mut_k change k heap =
        at_pointer setting.info (into_brc k) heap (get_mut setting.build fast change)

    -- `RefCnt::dec`
    unfoldable pub dec : List ℕ → ℕ → Heap V → Exec (DropEnd × Heap V)
    dec failures ptr heap = decrement_strong_count setting fast failures ptr heap

  -- `BrcK::strong_count`
  unfoldable pub strong_count_k : BrcK → Exec ℕ
  strong_count_k k = fault Fault.panicked

  module _ {queue : SegQueue QueuedObject} {vec : Boxcar Entry} (panicking : Bool)
      (arrivals : List (QueuedObject × List QueuedObject)) where
    -- `BrcK::new`
    unfoldable pub new_k :
        V → Option ℕ → World queue vec V → Exec (Option (Ending BrcK × World queue vec V))
    new_k v allocated w =
        new_in setting.build setting.header setting.needs_drop setting.info_at setting.fuel
          setting.no_implicit_collect setting.disabled panicking arrivals setting.layout v allocated
          w
        >>= λ r. done (from_ending_of r)

    -- `BrcK::clone`
    unfoldable pub clone_k : BrcK → World queue vec V → Exec (Option (BrcK × World queue vec V))
    unfolding into_brc
    clone_k k w =
        Calls.clone setting panicking arrivals (into_brc k) w >>= λ r. done (from_brc_of r)

    -- `BrcK::drop`
    unfoldable pub drop_k :
        List ℕ → BrcK → World queue vec V → Exec (Option (DropEnd × World queue vec V))
    unfolding into_brc
    drop_k failures k = Calls.drop setting panicking arrivals failures (into_brc k)

    -- `BrcK::make_mut`, and a mutation through the reference.
    unfoldable pub make_mut_k :
        (V → V) → List ℕ → Option ℕ → BrcK → World queue vec V → Exec (Option (MadeMut queue vec V))
    unfolding into_brc
    make_mut_k change failures allocated k =
        make_mut setting panicking arrivals change failures allocated (into_brc k)

    -- `RefCnt::inc`
    unfoldable pub inc : ℕ → World queue vec V → Exec (Option (ℕ × World queue vec V))
    inc me = Calls.clone setting panicking arrivals me
