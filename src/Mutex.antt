-- ===== src/Mutex.antt =====
-- src/coclasses/mutex.h: the mutex for coroutines.
--
-- The state is the links of all awaiters, `_requests` (the head of `chains`) and `_queue`; the log of
-- `chains` records the awaiters that `unlock` resumed. `none` is a loop that ran out of its fuel.
pub mod Lists
pub mod Build
pub mod Repr
pub mod Steps
pub mod Fifo
pub mod Session
pub mod Race
mod Tests
use mathlib.Core.Option
use coroutines_classes.Prelude.{
  ℕ, zero, suc, List, [], ◌∷◌, ◌++◌, Option, none, some, Bool, true, false, ◌==◌, ◌||◌,
  if◌then◌else◌, update, ◌>>=◌,
}
use coroutines_classes.Awaiter.{Chains, null, instance_addr, subscribe}

pub record Mutex : Type 0 where
  pub chains : Chains
  pub open chains use *
  pub queue : ℕ

-- The mark of a locked mutex.
abbrev pub doorman : ℕ
doorman = instance_addr

abbrev pub init : Mutex
init = record { chains = record { next = λ _. null; head = null; log = [] }; queue = null }

abbrev set_head : Mutex → ℕ → Mutex
set_head m h = record m { chains = record m.chains { head = h } }

-- `is_ready`, which is also `try_lock`
unfoldable pub is_ready : Mutex → Mutex × Bool
is_ready m = if m.head == null then (set_head m doorman, true) else (m, false)

-- The loop of `build_queue`: requests up to `stop` are pushed to the queue.
unfoldable pub move_requests : ℕ → ℕ → ℕ → Mutex → Option Mutex
move_requests zero req stop m = none
move_requests (suc fuel) req stop m =
    let moved = record m {
      chains = record m.chains { next = update m.next req m.queue };
      queue = req;
    } in
    let rest = move_requests fuel (m.next req) stop moved in
    if req == null || req == stop then some m else rest

unfoldable pub build_queue : ℕ → ℕ → Mutex → Option Mutex
unfolding move_requests
build_queue fuel stop m = move_requests fuel m.head stop (set_head m doorman)

-- `subscribe_awaiter` in its two parts: the subscription, and the look at `_next` after it.
unfoldable pub subscribe_request : List Bool → ℕ → Mutex → Option Mutex
subscribe_request rounds aw m =
    Option.map (λ c. record m { chains = c }) (subscribe rounds aw m.chains)

unfoldable pub check_request : ℕ → ℕ → Mutex → Option (Mutex × Bool)
check_request fuel aw m =
    if m.next aw == null
    then Option.map (λ m'. (m', false)) (build_queue fuel aw m)
    else some (m, true)

-- `false`: the awaiter has the lock; `true`: it waits.
unfoldable pub subscribe_awaiter : List Bool → ℕ → ℕ → Mutex → Option (Mutex × Bool)
unfolding subscribe_request check_request
subscribe_awaiter rounds fuel aw m = do m' ← subscribe_request rounds aw m; check_request fuel aw m'

-- `co_await lock()`: `is_ready`, and the subscription if that fails.
unfoldable pub lock : List Bool → ℕ → ℕ → Mutex → Option (Mutex × Bool)
unfolding is_ready subscribe_awaiter
lock rounds fuel aw m =
    let (m', ready) = is_ready m in
    let slow = subscribe_awaiter rounds fuel aw m' in if ready then some (m', false) else slow

-- The end of `unlock`: the first of the queue is taken off and resumed.
unfoldable pub resume_first : Mutex → Mutex
resume_first m =
    let first = m.queue in
    record m {
      chains = record m.chains { next = update m.next first null; log = m.log ++ first ∷ [] };
      queue = m.next first;
    }

unfoldable pub unlock : ℕ → Mutex → Option Mutex
unfolding resume_first build_queue
unlock fuel m =
    let built = Option.map resume_first (build_queue fuel doorman m) in
    if m.queue == null
    then (if m.head == doorman then some (set_head m null) else built)
    else some (resume_first m)
