-- ===== src/QueuedPolicy.antt =====
-- src/coclasses/queued_resumption_policy.h: coroutines of one thread are resumed from a queue.
--
-- A coroutine is what it does until it is suspended again: it is recorded in `log`, and it calls
-- `queued::resume` for each of the coroutines it makes ready. It then stops, or transfers to
-- another one by the handle that its suspension returns (`resume_handle`), as a finished coroutine
-- does to the one that awaits it: that one skips the queue. `instance_set` says whether
-- `queued::instance` is set. `none` is a loop that ran out of its fuel.
pub mod Levels
mod Tests
use coroutines_classes.Prelude.{
  ℕ, zero, suc, ◌+◌, List, [], ◌∷◌, ◌++◌, Option, none, some, Bool, true, false, ◌||◌, not,
  if◌then◌else◌, ◌>>=◌,
}

mutual
  pub data Coro : Type 0 where
    coro : ℕ → Coros → Tail → Coro

  pub data Tail : Type 0 where
    stops : Tail
    transfers : Coro → Tail

  pub data Coros : Type 0 where
    nil : Coros
    cons : Coro → Coros → Coros

abbrev pub to_list : Coros → List Coro
to_list nil = []
to_list (cons c cs) = c ∷ to_list cs

pub record Queued : Type 0 where
  pub instance_set : Bool
  pub queue : List Coro
  pub log : List ℕ

-- What a coroutine does with the queue installed: each `queued::resume` pushes, and the coroutine
-- to which it transfers runs at once.
unfoldable mutual
  pub run_coro : Coro → Queued → Queued
  run_coro (coro id cs t) q =
      run_tail t (record q { log = q.log ++ id ∷ []; queue = q.queue ++ to_list cs })

  pub run_tail : Tail → Queued → Queued
  run_tail stops q = q
  run_tail (transfers c) q = run_coro c q

flush_loop : ℕ → List Coro → Queued → Option Queued
unfolding run_coro
flush_loop zero hs q = none
flush_loop (suc fuel) [] q = some q
flush_loop (suc fuel) (h ∷ hs) q =
    let q' = run_coro h (record q { queue = hs }) in flush_loop fuel q'.queue q'

unfoldable pub flush_queue : ℕ → Queued → Option Queued
unfolding flush_loop
flush_queue fuel q = flush_loop fuel q.queue q

unfoldable pub is_active : Queued → Bool
is_active q = q.instance_set

-- `install_queue_and_resume`: the trailer flushes the queue and restores `instance`.
unfoldable pub install_queue_and_resume : ℕ → Coro → Queued → Option Queued
unfolding run_coro flush_queue
install_queue_and_resume fuel h q = do
  q' ← flush_queue fuel (run_coro h (record q { instance_set = true }))
  some (record q' { instance_set = q.instance_set })

unfoldable pub resume : ℕ → Coro → Queued → Option Queued
unfolding install_queue_and_resume
resume fuel h q =
    let installed = install_queue_and_resume fuel h q in
    if q.instance_set then some (record q { queue = q.queue ++ h ∷ [] }) else installed

pop_next : List Coro → Queued → Queued × Option Coro
pop_next [] q = (q, none)
pop_next (h ∷ hs) q = (record q { queue = hs }, some h)

-- `none` is the coroutine that does nothing.
unfoldable pub resume_handle_next : Queued → Queued × Option Coro
unfolding pop_next
resume_handle_next q = if q.instance_set then pop_next q.queue q else (q, none)

is_empty : List Coro → Bool
is_empty [] = true
is_empty (h ∷ hs) = false

unfoldable pub can_block : Queued → Bool
unfolding is_empty
can_block q = not q.instance_set || is_empty q.queue
