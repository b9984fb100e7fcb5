-- ===== src/Lib.antt =====
-- coroutines_classes: a library of C++20 coroutine primitives (src/coclasses).
--
-- Awaiters are linked into chains by their field `_next`; every waiting list of the library is such a
-- chain, with an atomic head. The mutex builds its queue from one. The model of each part is a record
-- of the fields of the class, and one function for each operation.
--
--   Awaiter: awaiter.h, the subscription and resumption of chains (`abstract_awaiter`).
--   Mutex: mutex.h, `is_ready`, `subscribe_awaiter`, `unlock` and `build_queue`; Mutex/Session is
--   about whole histories.
--   Queue: queue.h, `queue` with awaiting readers; Queue/Limited is `limited_queue`, Queue/Count and
--   Queue/Single are `std_queue<void>` and `single_item_queue`.
--   Publisher: publisher.h, `publisher<T>::queue` and the subscriber's calls of it; Publisher/Push has
--   the calls that publish, wake and kick.
--   PoolAlloc: poolalloc.h, the caches of free blocks; PoolAlloc/Session is the life of one
--   cache, PoolAlloc/Sizes the choice of a cache.
--   Scheduler: scheduler.h, the queue of sleeping promises; Scheduler/Heap says what is asked of the
--   heap functions of the standard library, Scheduler/Worker is the worker beside
--   other threads, Scheduler/Worker/Firing the worker alone.
--   Future: future.h, `future` and `promise`; Future/Contract is what they promise, Future/Default is
--   `promise_with_default`, Future/Shared `shared_future`, Future/Coro `future_coro`, Future/Transform
--   `transform`, Future/Await `co_await` with Awaiter/CoAwait, Future/Callback `make_promise`;
--   Future/Listening is about those who wait without a coroutine, Future/Orphan about a value whose
--   construction throws.
--   Counter: counter.h; Counter/Awake is for threads that come between, Counter/Whole for one thread.
--   Barrier: barrier.h; Barrier/Arrival is for an arrival that no other thread interrupts.
--   CoroStorage: coro_storage.h, the memory for frames; CoroStorage/Session is about the frames
--   that live in it, CoroStorage/Sizes about the sizes passed on.
--   ThreadPool: thread_pool.h; ThreadPool/World has the steps of its threads, ThreadPool/Waking which
--   of them wait for a notification, ThreadPool/Notify the task of a coroutine that awaits the pool.
--   QueuedPolicy: queued_resumption_policy.h, the queue from which a thread resumes coroutines.
--   Signal: signal.h, the emission of a value to the listeners of a chain.
--   Generator: generator.h; Generator/Collect is a loop over a generator without an argument,
--   Generator/Arguments has those with one.
--   Task: task.h, the promise of a task; Task/Word is the word of its owners and flags, Task/Contract what
--   it promises, Task/Final is about those who wait for its end.
--   Aggregator: generator_aggregator.h, the merging of generators; Aggregator/Invariant holds while it runs.
--   Dispatcher: dispatcher.h, the queue and the timers of a thread; Dispatcher/Order is about both.
--   Subtask: subtask.h; Subtask/Contract is its contract, Subtask/Eager is about `join` and
--   `subscribe_awaiter`.
--   Lazy: lazy.h; Lazy/Once is about threads that start, cancel and resume the coroutine.
--   Function: function.h, functions that own a callable; Function/Slots is what they hold.
--
-- Conventions. An awaiter is the number of its address, and the null pointer is 0. An atomic
-- operation is one step of the model; a function is run without interruption, except where a module
-- models the steps between which another thread may run (Mutex/Race,
-- Counter/Awake, Barrier, Scheduler/Worker, ThreadPool/World).
-- A compare-exchange that may fail spuriously takes a list which says of each round whether it does.
-- A loop over a chain takes fuel, `none` means that the fuel ran out, and the theorems show that fuel
-- above the length of the chain is enough. Memory orders are not modelled.
--
-- A promise, an exception and a block of memory are numbers; what the standard library and the system
-- allocator return is an argument. Code that a resumed awaiter runs is a parameter `wake`, which may
-- change only the link of its own awaiter.
--
-- Not modelled: how the compiler makes frames and handles, and so detached.h and the policies that only
-- pass a handle on; stackfull.h, which works on the system's contexts; priority_queue.h, with_queue.h,
-- with_allocator.h, trailer.h and debug.h, which wrap containers and allocators; the callbacks of
-- `callback_awaiter`; the flags on which threads block, and the destructor of the aggregator, which
-- waits for one.
pub mod Prelude
pub mod Awaiter
pub mod Mutex
pub mod Future
pub mod Queue
pub mod Publisher
pub mod Scheduler
pub mod Counter
pub mod Barrier
pub mod PoolAlloc
pub mod Aggregator
pub mod CoroStorage
pub mod Dispatcher
pub mod Function
pub mod Generator
pub mod Lazy
pub mod QueuedPolicy
pub mod Signal
pub mod Subtask
pub mod Task
pub mod ThreadPool
