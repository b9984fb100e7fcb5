-- ===== src/Mutex/Repr.antt =====
-- What the pointers of a mutex stand for: a free lock, or a lock that is held, with those who wait.
use coroutines_classes.Prelude.{ℕ, ◌≡◌, refl, List, ◌∷◌, NotMem}
use coroutines_classes.Awaiter.{null}
use coroutines_classes.Awaiter.Segment.{Segment}
use coroutines_classes.Mutex.{Mutex, doorman, init}
use coroutines_classes.Mutex.Lists.{Apart}

-- The mutex is unlocked.
pub record Free (m : Mutex) : Type 0 where
  pub no_request : m.head ≡ null
  pub no_queue : m.queue ≡ null

-- The awaiter `a` has got the free lock by its subscription, and has not looked at its link yet; the
-- awaiters of `rs` have subscribed after it.
pub record Entering (m : Mutex) (a : ℕ) (rs : List ℕ) : Type 0 where
  pub no_queue : m.queue ≡ null
  pub requested : Segment m.next m.head rs a
  pub bottom : m.next a ≡ null
  pub real : NotMem null (a ∷ rs)
  pub visitors : NotMem doorman (a ∷ rs)

-- The mutex is locked; the awaiters of `qs` stand in the queue, those of `rs` in the stack of requests.
pub record Held (m : Mutex) (qs rs : List ℕ) : Type 0 where
  pub queued : Segment m.next m.queue qs null
  pub requested : Segment m.next m.head rs doorman
  pub apart : Apart rs qs
  pub real : NotMem null rs

pub Free-init : Free init
Free-init = record { no_request = refl; no_queue = refl }
