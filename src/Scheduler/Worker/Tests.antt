-- ===== src/Scheduler/Worker/Tests.antt =====
-- Examples for the worker of the scheduler.
use coroutines_classes.Scheduler.{Scheduler}
use coroutines_classes.Scheduler.Worker.Firing.{Fires, at_loop, about_to_wait, run_worker-Fires}
use coroutines_classes.Prelude.{[], ◌∷◌, ◌≡◌, refl, some, none, true, false, if◌then◌else◌, arith}
use coroutines_classes.Scheduler.{schedule, get_expired, expire, pop_item}
use coroutines_classes.Scheduler.Sorted.{push, pop, insert, IsSorted, IsSorted-HeapLaws}
use coroutines_classes.Scheduler.Worker.Shrinks.{Later}
use coroutines_classes.Scheduler.Worker.{
  World, looping, deciding, waiting, ended, start, is_due, request_stop, schedule_item, step_worker,
  worker_step, work, visit, schedules, works, Steps, stay, go,
}
use coroutines_classes.Scheduler.Worker.Deadline.{Steps-not_overslept}
use coroutines_classes.Scheduler.Worker.Stopping.{run_worker, request_stop-ends, request_stop-lost}

-- The worker pauses, an item for the time 8 is scheduled, and the worker finds it at the time 4.
decides : (w : World) × Steps push pop start w × (w.place ≡ deciding (some 8))
unfolding start step_worker worker_step work visit schedule_item schedule get_expired expire push
    pop insert pop_item
decides = (
  _,
  go _ _ _ (works 1 0 true _ _ (omega arith) refl) (
      go _ _ _ (schedules 1 21 8 _ refl)
        (go _ _ _ (works 2 4 true _ _ (omega arith) refl) (stay _))),
  refl,
)

waits : (w : World) × Steps push pop start w × (w.place ≡ waiting (some 8) false)
unfolding start step_worker worker_step work visit schedule_item schedule get_expired expire push
    pop insert pop_item
waits = (
  _,
  go _ _ _ (works 1 0 true _ _ (omega arith) refl) (
      go _ _ _ (schedules 1 21 8 _ refl) (
        go _ _ _ (works 2 4 true _ _ (omega arith) refl)
          (go _ _ _ (works 2 4 true _ _ (omega arith) refl) (stay _)))),
  refl,
)

Steps-not_overslept_example : Later (some 8) waits.0.scheduler.scheduled
Steps-not_overslept_example =
    Steps-not_overslept IsSorted push pop IsSorted-HeapLaws waits.0 (some 8) waits.1 waits.2

request_stop-ends_example :
    run_worker push pop 2 2 true 4 (request_stop waits.0)
    ≡ some (record waits.0 { place = ended; stop = true })
unfolding waits
request_stop-ends_example = request_stop-ends push pop 2 4 true waits.0 refl

request_stop-lost_example :
    (w : World) × Steps push pop start w
    × (w.scheduler ≡ decides.0.scheduler)
    × (w.stop ≡ true)
    × (w.place ≡ waiting (some 8) false)
    × (step_worker push pop 2 true 4 w
        ≡ (if is_due 4 (some 8) then some (record w { place = looping }) else none))
request_stop-lost_example =
    request_stop-lost push pop 2 4 true (some 8) decides.0 decides.1 decides.2

-- Three items, of which two are due at the time 6.
abbrev three_items : Scheduler
three_items = record {
  scheduled =
      record { tp = 2; p = 21; ident = 1 }
      ∷ record { tp = 5; p = 22; ident = 2 }
      ∷ record { tp = 9; p = 23; ident = 3 }
      ∷ [];
  notified = 0;
  canceled = [];
}

run_worker-Fires_example : Fires IsSorted push pop IsSorted-HeapLaws 4 6 three_items []
run_worker-Fires_example =
    run_worker-Fires IsSorted push pop IsSorted-HeapLaws 4 6 three_items [] (omega arith)
      ((omega arith, (omega arith, tt)), ((omega arith, tt), (tt, tt)))

two_fired :
    run_worker push pop 6 4 true 6 (at_loop three_items [])
    ≡ some (
        about_to_wait
          (some 9)
          (record three_items { scheduled = record { tp = 9; p = 23; ident = 3 } ∷ [] })
          (21 ∷ 22 ∷ []))
unfolding run_worker step_worker worker_step work visit get_expired expire pop_item push pop insert
two_fired = refl
