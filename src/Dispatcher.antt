-- ===== src/Dispatcher.antt =====
-- src/coclasses/dispatcher.h: the queue of a thread that resumes its coroutines itself, and its timers.
--
-- A handle is a number, and 0 is `noop_coroutine`. The timers are items of the heap of scheduler.h,
-- in the order that `priority_queue` keeps with `push_heap` and `pop_heap`. `scheduled`, `resumed`
-- and `fired` record what happened. Each operation runs under the lock.
pub mod Order
mod Tests
use coroutines_classes.Prelude.{
  ℕ, List, [], ◌∷◌, ◌++◌, Option, none, some, Bool, true, false, ◌≡◌, ◌||◌, not, if◌then◌else◌,
  ◌>>=◌, leb,
}
use coroutines_classes.Scheduler.{Item, pop_item, moved_away}

pub record Dispatcher : Type 0 where
  pub queue : List ℕ
  pub timers : List Item
  pub exit_flag : Bool
  pub scheduled : List ℕ
  pub resumed : List ℕ
  pub fired : List Item

-- How an iteration of `run` ends: the thread waits on, the loop is left, or something was done.
pub data Turn : Type 0 where
  waits : Turn
  leaves : Turn
  resumes : ℕ → Dispatcher → Turn
  fires : Item → Dispatcher → Turn

abbrev pub is_empty {ℓ} : {A : Type ℓ} → List A → Bool
is_empty [] = true
is_empty (x ∷ xs) = false

-- `schedule` of a handle
unfoldable pub schedule_handle : ℕ → Dispatcher → Dispatcher
schedule_handle h d = record d { queue = d.queue ++ h ∷ []; scheduled = d.scheduled ++ h ∷ [] }

unfoldable pub quit : Dispatcher → Dispatcher
quit d = record d { exit_flag = true }

-- The front of the queue is taken.
unfoldable pub take_handle : ℕ → List ℕ → Dispatcher → Dispatcher
take_handle h rest d = record d { queue = rest; resumed = d.resumed ++ h ∷ [] }

unfoldable pub next_handle : List ℕ → Dispatcher → Turn
unfolding take_handle
next_handle [] d = waits
next_handle (h ∷ rest) d = resumes h (take_handle h rest d)

-- One round of the loop of `flush_queue`; `leaves`: the queue is empty.
unfoldable pub flush_turn : Dispatcher → Turn
unfolding next_handle
flush_turn d = if is_empty d.queue then leaves else next_handle d.queue d

-- `resume` of the policy; `none` in place of the dispatcher is one that is gone, and `none` as the
-- result the exception that its home thread has ended.
unfoldable pub policy_resume : ℕ → Option Dispatcher → Option Dispatcher
unfolding schedule_handle
policy_resume h l = do d ← l; some (schedule_handle h d)

-- `resume_handle`: on the thread of the dispatcher (`current`) the handle is resumed at once.
unfoldable pub resume_handle : Bool → ℕ → Option Dispatcher → Option (Dispatcher × ℕ)
unfolding schedule_handle
resume_handle current h l = do d ← l; some (if current then (d, h) else (schedule_handle h d, 0))

-- `resume_handle_next`; `leaves`: the handle is `noop_coroutine`.
unfoldable pub resume_handle_next : Bool → Option Dispatcher → Turn
unfolding next_handle
resume_handle_next current none = leaves
resume_handle_next current (some d) =
    if current then (if is_empty d.queue then leaves else next_handle d.queue d) else leaves

unfoldable pub create : Dispatcher
create = record {
  queue = [];
  timers = [];
  exit_flag = false;
  scheduled = [];
  resumed = [];
  fired = [];
}

module _ (push_heap pop_heap : List Item → List Item) where
  -- `schedule` of a promise; the handle that does nothing wakes the thread.
  unfoldable pub schedule_timer : Item → Dispatcher → Dispatcher
  unfolding schedule_handle
  schedule_timer x d =
      let d' = record d { timers = push_heap (d.timers ++ x ∷ []) } in
      if is_empty d.queue then schedule_handle 0 d' else d'

  unfoldable pub pop_timer : Item → List Item → Dispatcher → Dispatcher
  unfolding pop_item
  pop_timer x xs d = record d {
    timers = pop_item push_heap pop_heap (moved_away x ∷ xs);
    fired = d.fired ++ x ∷ [];
  }

  -- The wait on the condition ended without the predicate, at the time `now`.
  unfoldable pub time_out : ℕ → List Item → Dispatcher → Turn
  unfolding pop_timer
  time_out now [] d = waits
  time_out now (x ∷ xs) d = if leb x.tp now then fires x (pop_timer x xs d) else waits

  -- One iteration of `run`.
  unfoldable pub run_turn : ℕ → Dispatcher → Turn
  unfolding time_out next_handle
  run_turn now d =
      if not (is_empty d.queue) || d.exit_flag
      then (if d.exit_flag then leaves else next_handle d.queue d)
      else time_out now d.timers d

  -- What the threads do to a dispatcher: what a resumed coroutine does comes as further steps.
  pub data Step : Dispatcher → Dispatcher → Type 0 where
    handle : (h : ℕ) (d : Dispatcher) → Step d (schedule_handle h d)
    timer : (x : Item) (d : Dispatcher) → Step d (schedule_timer x d)
    quits : (d : Dispatcher) → Step d (quit d)
    resumed_one : (now h : ℕ) (d d' : Dispatcher) → run_turn now d ≡ resumes h d' → Step d d'
    fired_one : (now : ℕ) (x : Item) (d d' : Dispatcher) → run_turn now d ≡ fires x d' → Step d d'
    scheduled_by : (h : ℕ) (d d' : Dispatcher) → policy_resume h (some d) ≡ some d' → Step d d'
    handed_over :
        (current : Bool) (h k : ℕ) (d d' : Dispatcher)
        → resume_handle current h (some d) ≡ some (d', k)
        → Step d d'
    next_one :
        (current : Bool) (h : ℕ) (d d' : Dispatcher)
        → resume_handle_next current (some d) ≡ resumes h d'
        → Step d d'
    flushed_one : (h : ℕ) (d d' : Dispatcher) → flush_turn d ≡ resumes h d' → Step d d'

  pub data Steps : Dispatcher → Dispatcher → Type 0 where
    stop : (d : Dispatcher) → Steps d d
    go : (a b c : Dispatcher) → Step a b → Steps b c → Steps a c
