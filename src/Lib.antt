-- ===== src/Lib.antt =====
-- The concurrent data structures of public_ConcExp and the locks that they stand on.
--
-- The program is a benchmark suite: header-only C++ structures (lib/DS), the locks and the harness
-- that they share (lib/includes), one driver for each structure (lib/Drivers). A structure is a class
-- template; the drivers use it at T = int, and so does the model. Data are integers (Common.Int); an
-- operation with nothing to return returns -1.
--
-- Files and what they model, by the path from the repository's root:
--   Common, Common.*           shared names: tests and lists over the native numbers, integers, and
--                              `Run`, the outcome of code that may fault, block or not end
--   Spec.SortedSet             a set as an ascending list; Spec.Requests: requests to a stack or queue;
--                              Spec.SetCalls: requests to a set; Spec.History: histories of steps;
--                              Spec.Calls: the calls of many threads and what they may return;
--                              Spec.Numbered: numbered values
--   Rows, Rows.*               nodes in memory that a pointer field strings into an ascending row
--   HandList, HandList.*       lib/DS/SLLs/SLL_HOHL/SLL_HOHL.hpp (SLL_hand): whole operations
--   HandList.Threads, below it the same code, its steps interleaved by any number of threads
--   HandQueue, HandQueue.*     lib/DS/Queues/QueueSLL/queueSLL.hpp (QueueSll)
--   LfStack, LfStack.*         lib/DS/Stacks/lfStack/lfstack.hpp (lfStack)
--   MsQueue, MsQueue.*         lib/DS/Queues/Queue-Ms/queueMS.hpp (MsQueue)
--   LfQueue, LfQueue.*         lib/DS/Queues/QueueLF/QueueLf.hpp (LockFreeQueueCpp11)
--   LockStack, LockStack.*     lib/DS/Stacks/StackSLL/stackSll.hpp (StackSll)
--   SeqStack, SeqStack.*       lib/DS/Stacks/seq_stack/SLL.hpp (SLL)
--   FcStack, FcStack.*         lib/DS/FC/fcStack/fcStack.hpp (FcStack): whole calls of the combiner
--   FcStack.Threads, below it  the same code, its steps interleaved by any number of threads
--   ArrayQueue, ArrayQueue.*   lib/DS/Queues/Queue_Array/queueArray.hpp (QueueArray)
--   AtomicQueue, below it      lib/DS/Queues/atomic_queue/atomic_queue.hpp (atomic_queue)
--   FcQueue, FcQueue.*         lib/DS/FC/fcQueue/fcqueue.hpp (FcQueue): the serial operations
--   ShTable, ShTable.*         lib/DS/HashTables/SH_HashTables/SH_HashTable.hpp (SH_Hashtable)
--   Locks.SpinLock             lib/includes/spinlock.hpp (spinlock)
--   Locks.ClhLock              lib/includes/CLHLock.hpp (CLHLock)
--   ToggleBit, ToggleBit.*     lib/DS/Sim/togglebit.hpp (ToggleBit_atomic)
--   Psim, Psim.*               lib/includes/sim.hpp (Psim), on any object and on SeqStack
--   SkipList, SkipList.*       lib/DS/SkipList/SkipList.hpp (SkipList)
--   MpmcQueue, MpmcQueue.*     lib/DS/Queues/MPMCQueue.hpp (MPMCQueue)
--   Validator, Validator.*     lib/includes/validator.hpp (Validator), and methods of helpers.hpp
-- A function of the source keeps its name, in this library's spelling; a loop is a function of its own
-- with the suffix _loop, _from or _after, and the part of an operation behind the acquisition of a
-- lock has the suffix _locked.
--
-- How state and time are modelled. LfStack, MsQueue, LfQueue, HandList.Threads, FcStack.Threads,
-- SpinLock and ClhLock are run by any number of threads: each access to shared memory is a step,
-- the steps of the threads interleave in any order, and memory is sequentially consistent. In
-- LfStack, MsQueue, LfQueue and HandList.Threads a step carries its thread and what it is for the
-- thread's call (Spec.Calls): the start with its request, nothing, its effect, or its return with the
-- reply; the sequential object says which effects and replies a call can have. In Validator whole
-- calls of the threads interleave. In Psim announcements interleave with whole runs of Attempt. In
-- all other files one operation runs at a time. In HandList.Threads nodes
-- stand in memory, with one value for each address (nodes are never given back), and `list` is the
-- address of the list itself. In FcQueue the nodes stand in a heap, since one may lead to itself,
-- and in SkipList, since a node stands in several rows; elsewhere the nodes that a list reaches
-- are a list of their contents, in order; where nodes carry a mutex the mutex is part of the node,
-- and the wait for a lock that is held is the outcome `blocked`. The constructors of some nodes
-- leave the pointer to the next node unset: the chain that it happens to lead to is an argument
-- `junk`, and theorems that need zeroed memory take it empty.
--
-- Fuel. Loops over a list recur on the list. `empty` takes one round more than there are nodes,
-- and `mergeSort` one level more than there are nodes; the theorems about them show that this is
-- enough. The searches of SkipList take more fuel than a row has nodes. The loop that empties the
-- structure in Test_4 takes one round more than there are elements. A loop whose end is not known
-- takes its fuel as an argument.
--
-- Machine integers. The counters of LfQueue and MpmcQueue and the index of AtomicQueue are size_t and
-- wrap around at 2^64. An overflow of an int, which is undefined, is a fault where the code computes
-- with the value: the products of the hash function, the sums of Test_4, the capacity of AtomicQueue.
--
-- Not modelled: printing; `search` and `size` of SLL_hand, which take no lock, beside steps of other
-- threads; the counters of `size`, of type int, are exact as long as a list has fewer
-- than 2^31 nodes; memory orders weaker than sequential consistency; the drivers, the menu, the
-- benchmarks and the front end, which do input and output; the vendored allocators under libraries, and
-- the tree and the record manager under lib/DS/Trees, copies of other projects.
pub mod ArrayQueue
pub mod AtomicQueue
pub mod Common
pub mod FcQueue
pub mod FcStack
pub mod HandList
pub mod HandQueue
pub mod LfQueue
pub mod LfStack
pub mod LockStack
pub mod Locks
pub mod MpmcQueue
pub mod MsQueue
pub mod Psim
pub mod Rows
pub mod SeqStack
pub mod ShTable
pub mod SkipList
pub mod Spec
pub mod ToggleBit
pub mod Validator
