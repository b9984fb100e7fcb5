-- ===== src/QueuedPolicy/Tests.antt =====
-- Examples for the queue of coroutines.
use coroutines_classes.Prelude.{suc, ◌≡◌, refl, [], ◌∷◌, ◌++◌, some, false, arith}
use coroutines_classes.QueuedPolicy.{stops, transfers, Coro, coro, nil, cons, Queued, resume}
use coroutines_classes.QueuedPolicy.Levels.{children, levels, total, kids, resume-levels}

-- The coroutine 1 makes 2 and 3 ready, 2 makes 4 ready and transfers to 6, and 3 makes 5 ready.
abbrev family : Coro
family =
    coro 1
      (cons (coro 2 (cons (coro 4 nil stops) nil) (transfers (coro 6 nil stops)))
        (cons (coro 3 (cons (coro 5 nil stops) nil) stops) nil))
      stops

abbrev quiet_thread : Queued
quiet_thread = record { instance_set = false; queue = []; log = [] }

resume-levels_example :
    resume 6 family quiet_thread
    ≡ some (record {
      instance_set = false;
      queue = [];
      log = [] ++ levels (suc (total (kids (family ∷ [])))) (family ∷ []);
    })
unfolding total children
resume-levels_example = resume-levels 6 family quiet_thread refl refl (omega arith)

resume-family :
    resume 6 family quiet_thread
    ≡ some (record { instance_set = false; queue = []; log = 1 ∷ 2 ∷ 6 ∷ 3 ∷ 4 ∷ 5 ∷ [] })
unfolding resume
resume-family = refl
