-- ===== src/ThreadPool/World.antt =====
-- Threads that enqueue, work and stop at the same time: one step is what one thread does under the lock
-- of a pool of thread_pool.h, or between two locks.
use coroutines_classes.Prelude.{
  ℕ, ◌+◌, ◌≡◌, List, [], ◌∷◌, ◌++◌, Option, some, Bool, ◌==◌, if◌then◌else◌, get_elem?, set, ◌⊎◌,
}
use coroutines_classes.ThreadPool.{
  Thread, idle, asleep, running, worker_wait, ThreadPool, Stop, init, enqueue, worker_take,
  worker_return, stop_begin, stop_end,
}

-- How often a task stands in a list, and in what the calls of `stop` hold.
abbrev pub count : ℕ → List ℕ → ℕ
count t [] = 0
count t (x ∷ xs) = (if x == t then 1 else 0) + count t xs

abbrev pub held : ℕ → List Stop → ℕ
held t [] = 0
held t (s ∷ ss) = count t s.q + held t ss

pub record World : Type 0 where
  pub pool : ThreadPool
  pub stops : List Stop

-- How many threads are of a kind.
abbrev pub total : (Thread → ℕ) → List Thread → ℕ
total f [] = 0
total f (th ∷ ts) = f th + total f ts

abbrev pub sleeps : Thread → ℕ
sleeps asleep = 1
sleeps _ = 0

abbrev pub is_ready : Thread → ℕ
is_ready idle = 1
is_ready _ = 0

abbrev pub asleep_threads : List Thread → ℕ
asleep_threads ts = total sleeps ts

abbrev pub idle_threads : List Thread → ℕ
idle_threads ts = total is_ready ts

-- `notify_one` wakes a thread that is asleep, if there is one, and a thread may also wake up without
-- any notification, as `std::condition_variable` allows.
pub data Step : World → World → Type 0 where
  enqueues :
      (w : World) (i t : ℕ)
      → (get_elem? w.pool.threads i ≡ some asleep) ⊎ (asleep_threads w.pool.threads ≡ 0)
      → Step w (record w { pool = enqueue i t w.pool })
  waits :
      (w : World) (i : ℕ) (p : ThreadPool)
      → get_elem? w.pool.threads i ≡ some idle
      → worker_wait i w.pool ≡ some p
      → Step w (record w { pool = p })
  wakes_up :
      (w : World) (i : ℕ)
      → get_elem? w.pool.threads i ≡ some asleep
      → Step w (record w { pool = record w.pool { threads = set w.pool.threads i idle } })
  takes :
      (w : World) (i : ℕ) (p : ThreadPool)
      → get_elem? w.pool.threads i ≡ some idle
      → worker_take i w.pool ≡ some p
      → Step w (record w { pool = p })
  returns :
      (w : World) (i t : ℕ) (own : Bool)
      → get_elem? w.pool.threads i ≡ some (running t own)
      → Step w (record w { pool = worker_return i own w.pool })
  stops :
      (w : World) (me : Option ℕ)
      → Step w
          (record { pool = (stop_begin me w.pool).0; stops = (stop_begin me w.pool).1 ∷ w.stops })
  ends :
      (w : World) (before : List Stop) (s : Stop) (after : List Stop) (p : ThreadPool)
      → w.stops ≡ before ++ s ∷ after
      → stop_end s w.pool ≡ some p
      → Step w (record { pool = p; stops = before ++ after })

pub data Steps : World → World → Type 0 where
  done : (w : World) → Steps w w
  more : (w w1 w2 : World) → Step w w1 → Steps w1 w2 → Steps w w2

abbrev pub start : ℕ → ℕ → World
start cores n = record { pool = init cores n; stops = [] }
