-- ===== src/Lib.antt =====
-- The reference counts of the crate `biasedrc`: `Brc`, an `Arc` whose counter is biased towards the
-- thread that allocates the object.
--
-- A header holds two words. The biased word has the id of the owning thread and a counter that only
-- the owner touches, without atomic read-modify-write operations; the shared word has a signed counter
-- that all other threads touch, and two flags. A shared counter may go below zero, since a reference
-- that the owner has counted can be dropped elsewhere. The first decrement below zero sets the flag
-- `queued` and hands the object to the queue of its owner, which merges the counters later; the owner
-- merges by itself with its last own reference. After the merge, which sets the flag `merged`, the
-- shared counter alone is the count, and the drop that brings it to zero calls the destructor.
--
-- Files, from the words up:
--   Common, Exec        tests on numbers, integers over the native naturals; how a call ends, with the
--                       faults of `fatal_errors` and `undefined_behavior` in src/runtime.rs
--   Ids                 src/runtime/threads.rs: `UniqueThreadId`, `ShortThreadId`
--   Words/ArbitraryInt  the integers of the crate `arbitrary_int` (`i62`, `u20`, `u12`), a parameter
--                       with the documented behaviour of each function as a law, and an instance
--   Words/Shared        src/runtime.rs: `SharedWord`, its codec, `fetch_add` and `fetch_or` on it
--   Words/Biased        src/runtime.rs: `BiasedWord` and its codec
--   Threads/Local       src/runtime/threads.rs: `THIS_THREAD_STATE_FAST`, `existing_short_id`
--   Threads/Memory      src/runtime.rs: `QueuedObject`; headers by address, and the merge of one of them
--   Threads/Queue       src/runtime/threads.rs: `ObjectQueue::do_process`
--   Threads/Shared      src/runtime/threads.rs: `SharedThreadInfo`, `queue_object`, `collect_force`, and
--                       `Drop for LocalThreadState` as other threads see it
--   Threads/Drain, Threads/Death
--                       how queues are emptied, and what a dying owner leaves
--   Threads/Registry    src/runtime/threads.rs: `THREADS`, `init_thread`, `get_by_id`, and the local part
--                       of `Drop for LocalThreadState`
--   Threads/Lifecycle   the life of a thread from its registration to its end
--   Threads/Current, Threads/Birth
--                       the lazy `THIS_THREAD_STATE` with `with_current` and `init_tid`, and the whole of
--                       `RawBrcHeader::init` in src/runtime.rs
--   Threads/Collect     `collect`, `collect_nounwind` and `collect_implicit` of src/runtime.rs, and what
--                       they call
--   Threads/Unwinding, Threads/Panics, Threads/Resumption
--                       the same with destructors that panic, with `UnwindPolicy` of src/runtime.rs; what a
--                       collection that unwinds leaves to the next one. The crate `nounwind` is a parameter
--   Threads/SegQueue, Threads/Boxcar
--                       the queue of `crossbeam_queue` and the vector of `boxcar`, parameters with laws
--                       and an instance
--   Header              src/runtime.rs: each operation of `RawBrcHeader`, under its own name, and
--                       `QueuedObject::explicit_merge`. A header is its two words, and an operation
--                       takes the state of the calling thread and returns the header that it leaves
--   Header/Interference the loops on a shared word under interference
--   View                the specification: owner, counters and flags as a record, one function for each
--                       operation, and the invariant `IsView`
--   Counting            the operations against the number of references
--   Layout              src/layout.rs: `LayoutInfo`; Layout/Std: `core::alloc::Layout` as it is used
--   Layout/Divides, Layout/Placement
--                       divisibility of sizes and alignments; where header and value stand
--   Pointee             src/pointee.rs, src/runtime.rs: layouts from pointers, erased drop information
--   Brc                 src/layout.rs, src/strong.rs, src/weak.rs: the weak count beside the header
--   Brc/Object          src/strong.rs, src/weak.rs: the operations on one object, its header, value and
--                       memory: `clone_no_collect`, `drop_no_collect_in_place`, `erased_dealloc`,
--                       `upgrade`, `try_unwrap`, `get_mut`
--   Brc/Destruction, Brc/Sharing
--                       what drops, clones and the calls for unique references leave of an object
--   Brc/World           the thread, its queue and the memory of a call; the implicit collection with the
--                       destructions that it leads to
--   Brc/Alloc           src/strong.rs: `alloc_with_in`, `new_in`, `new_with_in`
--   Brc/Weak, Brc/Calls src/weak.rs, src/strong.rs: the calls through pointers, `make_mut` among them
--   Brc/Pointers, Brc/Unsharing, Brc/Cycle
--                       what a drop and `make_mut` through a pointer do to the memory; an object from
--                       its allocation to its end
--   Conversions         src/strong/conversions.rs: slices from iterators, vectors and slices
--   Conversions/Iterators, Conversions/Exact, Conversions/Allocated
--                       `AssertExactIter` and the loop of `from_iter_exact_trusted_in` in src/strong.rs;
--                       iterators that keep to their length or do not; the slices in memory
--   Protocol            one object and the calls of any number of threads on it, in any order; the
--                       number of references, announcements, queue entries and destructor calls
--   Protocol/Hasty, Protocol/Overtaken
--                       runs in which hasty clones and upgrades break that
--   Protocol/Lifetime   the object with its weak references, up to the release of its memory;
--                       Protocol/Lifetime/Kept has what calls keep, Protocol/Lifetime/Release the rest
--   Protocol/Locked     `Brc::is_unique` in separate accesses to the memory, between which other threads
--                       make whole calls on strong and weak references
--   Protocol/Accesses   the same calls one access to the memory at a time, with any number of threads;
--                       Whole has the state of whole calls that belongs to a state between accesses,
--                       Missed, Anyone, OwnCalls, Owner and Kept what each access does to it, Atomicity
--                       the runs
--   Protocol/Accesses/Death, Protocol/Accesses/Late, Protocol/Accesses/Alone
--                       the last accesses to an object, the store that comes too late, and a drop that
--                       no other thread interferes with
--   ThirdParty          src/third_party/archery.rs and src/third_party/arc_swap.rs
--   Examples            the theorems at concrete headers and runs
--
-- Words are natural numbers; a shared word has 64 bits and a biased word has 32, and the sum of
-- `fetch_add` is taken modulo 2 ^ 64. The 32-bit layout of the shared word is not modelled. A build
-- fixes `debug_assertions`, and every theorem holds for both values.
--
-- A loop on `compare_exchange_weak` or `fetch_update` takes the list of the words that its failing
-- exchanges return, and recurses on it: no fuel is needed. The loop of `do_process` takes fuel, of
-- which one more than the number of queued objects is enough; the loop of `collect_force` takes the
-- objects that arrive in each of its rounds, by pushes as wholes, the exchange of the flag included.
-- In the protocol a call is one step, and an upgrade that returns nothing is none; in
-- Protocol/Accesses an access to the memory is one. The store that gives up the ownership can come
-- late, after other calls, only there. There a clone has its reference in hand, so that two clones of
-- one borrowed reference come one after the other. In Protocol/Locked the calls of other threads are
-- whole, and the thread that asks keeps its reference to itself. A hasty clone is a clone or an upgrade
-- that grows the shared counter of an object that has been queued and not yet merged; runs are
-- described with them and without.
--
-- The memory is a function from the addresses of headers to objects; an object stays there, without
-- its memory, when it is released, and a read of it is a fault. What the allocator returns is a
-- parameter. A drop hands out the entry for the queue of the owner; the push itself stands in
-- Threads/Shared. The destructions that a collection leads to come after its merges, which touch other
-- headers only.
--
-- Not modelled: memory orderings; destructors that use the library while they run; iterators whose own
-- drop panics; builds in which panics abort; the allocator that a header holds; the `debug_assert`s of
-- `Weak::real`, `erased_dealloc` and `from_iter_exact_trusted_in` on addresses, offsets and layouts; `into_raw`, `from_raw` and `as_ptr`, which keep an address; the layout of trait objects
-- on nightly Rust. The trait implementations of the macros and of serde forward to the value or to
-- what is modelled.
pub mod Common
pub mod Exec
pub mod Ids
pub mod Words
pub mod Threads
pub mod Layout
pub mod Header
pub mod Pointee
pub mod View
pub mod Conversions
pub mod Counting
pub mod ThirdParty
pub mod Examples
pub mod Brc
pub mod Protocol
