-- ===== src/ThreadPool.antt =====
-- src/coclasses/thread_pool.h: workers that run the tasks of one queue.
--
-- A task is a number, a thread its place in `threads`. Each function is what is done under one lock
-- of `_mx`, or by one thread between two locks; `none` means that the thread cannot do it yet.
-- `accepted`, `started`, `refused` and `discarded` record the tasks pushed, run, dropped by
-- `enqueue` and dropped by `stop`.
pub mod World
pub mod Cases
pub mod Order
pub mod Waking
pub mod Notify
mod Tests
use coroutines_classes.Prelude.{
  ℕ, zero, suc, ◌+◌, List, [], ◌∷◌, ◌++◌, Option, none, some, Bool, true, false, ◌==◌, ◌||◌, not,
  if◌then◌else◌, get_elem?, set, ◌>>=◌,
}

-- `asleep` is blocked in `_cond.wait`, `idle` is about to test its predicate. `running t own`:
-- `own` says whether `_current` still refers to the pool.
pub data Thread : Type 0 where
  idle : Thread
  asleep : Thread
  running : ℕ → Bool → Thread
  ended : Thread

pub record ThreadPool : Type 0 where
  pub queue : List ℕ
  pub exit : Bool
  pub handles : List ℕ
  pub threads : List Thread
  pub accepted : List ℕ
  pub started : List ℕ
  pub refused : List ℕ
  pub discarded : List ℕ

abbrev places : ℕ → ℕ → List ℕ
places i zero = []
places i (suc n) = i ∷ places (i + 1) n

abbrev pub all_idle : ℕ → List Thread
all_idle zero = []
all_idle (suc n) = idle ∷ all_idle n

-- `cores` is `std::thread::hardware_concurrency()`.
abbrev pub init : ℕ → ℕ → ThreadPool
init cores count =
    let n = if count == 0 then cores else count in
    record {
      queue = [];
      exit = false;
      handles = places 0 n;
      threads = all_idle n;
      accepted = [];
      started = [];
      refused = [];
      discarded = [];
    }

is_empty : List ℕ → Bool
is_empty [] = true
is_empty (t ∷ ts) = false

wake_thread : Option Thread → ℕ → List Thread → List Thread
wake_thread (some asleep) i ts = set ts i idle
wake_thread _ i ts = ts

-- `_cond.notify_one`, which chooses the thread `i` if one is asleep.
unfoldable pub notify_one : ℕ → List Thread → List Thread
unfolding wake_thread
notify_one i ts = wake_thread (get_elem? ts i) i ts

unfoldable pub notify_all : List Thread → List Thread
notify_all [] = []
notify_all (asleep ∷ ts) = idle ∷ notify_all ts
notify_all (th ∷ ts) = th ∷ notify_all ts

-- `i` is the thread that `notify_one` chooses.
unfoldable pub enqueue : ℕ → ℕ → ThreadPool → ThreadPool
enqueue i t p =
    if not p.exit
    then record p {
      queue = p.queue ++ t ∷ [];
      accepted = p.accepted ++ t ∷ [];
      threads = notify_one i p.threads;
    }
    else record p { refused = p.refused ++ t ∷ [] }

take_front : List ℕ → ℕ → ThreadPool → Option ThreadPool
take_front [] i p = none
take_front (t ∷ ts) i p = some (record p {
  queue = ts;
  threads = set p.threads i (running t true);
  started = p.started ++ t ∷ [];
})

-- `_cond.wait`: a thread whose predicate does not hold goes to sleep.
unfoldable pub worker_wait : ℕ → ThreadPool → Option ThreadPool
unfolding is_empty
worker_wait i p =
    if p.exit || not (is_empty p.queue)
    then none
    else some (record p { threads = set p.threads i asleep })

-- The part of `worker` from the test of the wait to the call of the task, by an idle thread.
unfoldable pub worker_take : ℕ → ThreadPool → Option ThreadPool
unfolding take_front
worker_take i p =
    if p.exit then some (record p { threads = set p.threads i ended }) else take_front p.queue i p

-- The part of `worker` after the task.
unfoldable pub worker_return : ℕ → Bool → ThreadPool → ThreadPool
worker_return i own p = record p { threads = set p.threads i (if own then idle else ended) }

-- What `stop` has swapped out: `tmp` and `q`; `caller` is the worker that called it.
pub record Stop : Type 0 where
  pub caller : Option ℕ
  pub tmp : List ℕ
  pub q : List ℕ

unfoldable pub stop_begin : Option ℕ → ThreadPool → ThreadPool × Stop
stop_begin me p = (
  record p { exit = true; handles = []; queue = []; threads = notify_all p.threads },
  record { caller = me; tmp = p.handles; q = p.queue },
)

abbrev pub is_caller : Option ℕ → ℕ → Bool
is_caller none i = false
is_caller (some me) i = me == i

disown : Option Thread → ℕ → List Thread → List Thread
disown (some (running t own)) i ts = set ts i (running t false)
disown _ i ts = ts

has_ended : Option Thread → Bool
has_ended (some ended) = true
has_ended _ = false

-- The loop over `tmp`: the caller's own thread is detached, the others are joined.
unfoldable pub join_all : Option ℕ → List ℕ → ThreadPool → Option ThreadPool
unfolding disown has_ended
join_all me [] p = some p
join_all me (i ∷ is) p =
    let own = join_all me is (record p { threads = disown (get_elem? p.threads i) i p.threads }) in
    let others = join_all me is p in
    if is_caller me i then own else if has_ended (get_elem? p.threads i) then others else none

-- The end of `stop`, where `q` is destroyed.
unfoldable pub stop_end : Stop → ThreadPool → Option ThreadPool
unfolding join_all
stop_end s p = do
  p' ← join_all s.caller s.tmp p
  some (record p' { discarded = p'.discarded ++ s.q })

unfoldable pub is_stopped : ThreadPool → Bool
is_stopped p = p.exit

unfoldable pub any_enqueued : ThreadPool → Bool
unfolding is_empty
any_enqueued p = p.exit || not (is_empty p.queue)

-- `resumption_policy::thread_pool`: `current` is `is_current(*_cur_pool)`.
unfoldable pub policy_resume : ℕ → ℕ → ThreadPool → ThreadPool
unfolding enqueue
policy_resume i h p = enqueue i h p

unfoldable pub policy_resume_handle : Bool → ℕ → ℕ → ThreadPool → ThreadPool × Option ℕ
unfolding enqueue
policy_resume_handle current i h p = if current then (p, some h) else (enqueue i h p, none)

-- `current::any_enqueued` is false on a thread of no pool.
unfoldable pub can_block : Option ThreadPool → Bool
unfolding any_enqueued
can_block none = true
can_block (some p) = not (any_enqueued p)
