-- ===== src/ThreadPool/Tests.antt =====
-- Examples for the thread pool.
use coroutines_classes.Prelude.{
  ℕ, ◌+◌, ◌≡◌, ◌≤◌, ◌⊎◌, length, inl, refl, List, [], ◌∷◌, ◌++◌, none, some, true, false, inr,
}
use coroutines_classes.ThreadPool.{
  running, idle, ThreadPool, Stop, enqueue, notify_one, notify_all, worker_wait, worker_take,
  stop_begin,
}
use coroutines_classes.ThreadPool.World.{
  World, Steps, enqueues, waits, asleep_threads, idle_threads, takes, stops, done, more, start,
  count, held,
}
use coroutines_classes.ThreadPool.Order.{Steps-in_order}
use coroutines_classes.ThreadPool.Waking.{Steps-woken}

-- One worker; the tasks 7 and 8 are enqueued, 7 starts, and the worker calls `stop`.
abbrev stopped_pool : ThreadPool
stopped_pool = record {
  queue = [];
  exit = true;
  handles = [];
  threads = running 7 true ∷ [];
  accepted = 7 ∷ 8 ∷ [];
  started = 7 ∷ [];
  refused = [];
  discarded = [];
}

abbrev the_stop : Stop
the_stop = record { caller = some 0; tmp = 0 ∷ []; q = 8 ∷ [] }

stopping : Steps (start 1 0) (record { pool = stopped_pool; stops = the_stop ∷ [] })
unfolding enqueue worker_take stop_begin notify_one notify_all
stopping = more _ _ _ (enqueues _ 0 7 (inr refl)) (
    more _ _ _ (enqueues _ 0 8 (inr refl))
      (more _ _ _ (takes _ 0 _ refl refl) (more _ _ _ (stops _ (some 0)) (done _))))

Steps-in_order_example :
    ((rest : List ℕ) × (stopped_pool.accepted
        ≡ stopped_pool.started ++ (stopped_pool.queue ++ rest))
      × (stopped_pool.exit ≡ false → rest ≡ []))
    × ((t : ℕ)
        → count t stopped_pool.accepted
          ≡ count t stopped_pool.started
            + count t stopped_pool.queue
            + held t (the_stop ∷ [])
            + count t stopped_pool.discarded)
Steps-in_order_example =
    Steps-in_order 1 0 (record { pool = stopped_pool; stops = the_stop ∷ [] }) stopping

-- Two workers fall asleep, the task 7 wakes the second, and the pool is stopped.
abbrev woken : World
woken = record {
  pool = record {
    queue = [];
    exit = true;
    handles = [];
    threads = idle ∷ idle ∷ [];
    accepted = 7 ∷ [];
    started = [];
    refused = [];
    discarded = [];
  };
  stops = record { caller = none; tmp = 0 ∷ 1 ∷ []; q = 7 ∷ [] } ∷ [];
}

waking : Steps (start 2 0) woken
unfolding enqueue worker_wait stop_begin notify_one notify_all
waking = more _ _ _ (waits _ 0 _ refl refl) (
    more _ _ _ (waits _ 1 _ refl refl)
      (more _ _ _ (enqueues _ 1 7 (inl refl)) (more _ _ _ (stops _ none) (done _))))

Steps-woken_example :
    ((woken.pool.exit ≡ false) ⊎ (asleep_threads woken.pool.threads ≡ 0))
    × ((asleep_threads woken.pool.threads ≡ 0)
        ⊎ (length woken.pool.queue ≤ idle_threads woken.pool.threads))
Steps-woken_example = Steps-woken 2 0 woken waking
