-- ===== src/Scheduler/Worker.antt =====
-- The worker of scheduler.h, `worker_coro`, beside the threads that schedule, cancel and stop.
--
-- A step of the worker is what it does between two places where other threads come in: where it has
-- released `_mx`, and just before it waits (the request to stop does not take the lock). `deadline` is
-- the time until which it waits, `none` the greatest one. `notified` says that the wait was notified.
pub mod Shrinks
pub mod Deadline
pub mod Stopping
pub mod Firing
mod Tests
use coroutines_classes.Prelude.{
  ℕ, ◌+◌, ◌≡◌, List, [], ◌∷◌, ◌++◌, Option, none, some, Bool, true, false, ◌==◌, ◌||◌,
  if◌then◌else◌, leb, ltb, ◌<◌, length,
}
use coroutines_classes.Scheduler.{
  Item, Scheduler, Expired, promise, until, forever, Outcome, ok, schedule, get_expired, cancel,
}

-- Where the worker stands: at the head of its loop with the lock, in `pause` without it, about to
-- wait with it, in the wait without it, or at the end.
pub data Place : Type 0 where
  looping : Place
  paused : Place
  deciding : Option ℕ → Place
  waiting : Option ℕ → Bool → Place
  ended : Place

pub record World : Type 0 where
  pub scheduler : Scheduler
  pub place : Place
  pub stop : Bool
  pub answered : List ℕ

-- The wait of the worker, if it is in one, is notified.
abbrev pub notify : Place → Place
notify (waiting d b) = waiting d true
notify looping = looping
notify paused = paused
notify (deciding d) = deciding d
notify ended = ended

-- Whether another thread can have the lock.
abbrev pub is_unlocked : Place → Bool
is_unlocked (waiting d b) = true
is_unlocked looping = false
is_unlocked paused = true
is_unlocked (deciding d) = false
is_unlocked ended = true

abbrev pub is_due : ℕ → Option ℕ → Bool
is_due now none = false
is_due now (some t) = leb t now

-- The worker as it is started, with no item.
unfoldable pub start : World
start = record {
  scheduler = record { scheduled = []; notified = 0; canceled = [] };
  place = looping;
  stop = false;
  answered = [];
}

-- `request_stop`, with the callback `stop_notify`.
unfoldable pub request_stop : World → World
request_stop w = record w { stop = true; place = notify w.place }

module _ (push_heap pop_heap : List Item → List Item) where
  -- `schedule` of another thread: it notifies if the new item is the first.
  unfoldable pub schedule_item : ℕ → ℕ → ℕ → World → World
  schedule_item id p tp w =
      let s = schedule push_heap pop_heap id p tp w.scheduler in
      record w {
        scheduler = s;
        place = if w.scheduler.notified == s.notified then w.place else notify w.place;
      }

  -- What is done with the result of `get_expired_lk`: `can_block` is that of the policy.
  unfoldable pub visit : Bool → Scheduler → Expired → World → World
  visit can_block s (promise p) w = record w {
    scheduler = s;
    place = looping;
    answered = w.answered ++ p ∷ [];
  }
  visit can_block s (until t) w = record w {
    scheduler = s;
    place = if can_block then deciding (some t) else looping;
  }
  visit can_block s forever w = record w {
    scheduler = s;
    place = if can_block then deciding none else looping;
  }

  -- The body of the loop, from `lk.lock()` to the visit.
  unfoldable pub work : ℕ → Bool → ℕ → World → Option World
  unfolding visit
  work fuel can_block now w = elim (get_expired push_heap pop_heap fuel now w.scheduler) [
    | none ↦ none
    | some (s, r) ↦ some (visit can_block s r w)
  ]

  -- One step of the worker; `none` is a wait that does not end yet.
  unfoldable pub worker_step : ℕ → Bool → ℕ → Place → World → Option World
  unfolding work
  worker_step fuel can_block now looping w =
      some (record w { place = if w.stop then ended else paused })
  worker_step fuel can_block now paused w =
      let done = work fuel can_block now w in
      if w.stop then some (record w { place = ended }) else done
  worker_step fuel can_block now (deciding d) w = some (record w { place = waiting d false })
  worker_step fuel can_block now (waiting d b) w =
      if b || is_due now d then some (record w { place = looping }) else none
  worker_step fuel can_block now ended w = some w

  unfoldable pub step_worker : ℕ → Bool → ℕ → World → Option World
  unfolding worker_step
  step_worker fuel can_block now w = worker_step fuel can_block now w.place w

  -- What the threads do: the worker with fuel above the number of items, and the others, where they
  -- have the lock or need none. A wait may end for no reason.
  pub data Step : World → World → Type 0 where
    schedules :
        (id p tp : ℕ) (w : World) → is_unlocked w.place ≡ true → Step w (schedule_item id p tp w)
    cancels :
        (fuel id e : ℕ) (w : World) (s : Scheduler) (found : Bool)
        → is_unlocked w.place ≡ true
        → cancel push_heap pop_heap fuel id e w.scheduler ≡ ok (s, found)
        → Step w (record w { scheduler = s })
    stops : (w : World) → Step w (request_stop w)
    works :
        (fuel now : ℕ) (can_block : Bool) (w w' : World)
        → length w.scheduler.scheduled < fuel
        → step_worker fuel can_block now w ≡ some w'
        → Step w w'
    wakes :
        (d : Option ℕ) (b : Bool) (w : World)
        → w.place ≡ waiting d b
        → Step w (record w { place = looping })

  pub data Steps : World → World → Type 0 where
    stay : (w : World) → Steps w w
    go : (u v w : World) → Step u v → Steps v w → Steps u w
