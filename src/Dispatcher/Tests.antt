-- ===== src/Dispatcher/Tests.antt =====
-- Examples for the dispatcher.
use coroutines_classes.Prelude.{◌≡◌, ◌++◌, refl}
use coroutines_classes.Scheduler.{Item, pop_item}
use coroutines_classes.Scheduler.Sorted.{push, pop, insert, IsSorted, IsSorted-HeapLaws}
use coroutines_classes.Dispatcher.{
  Dispatcher, create, schedule_handle, schedule_timer, take_handle, next_handle, time_out,
  pop_timer, run_turn, fires, Steps, stop, go, handle, timer, resumed_one,
}
use coroutines_classes.Dispatcher.Order.{Steps-handles_in_order}

abbrev early : Item
early = record { tp = 3; p = 21; ident = 0 }

abbrev later : Item
later = record { tp = 8; p = 22; ident = 0 }

-- Two timers and a handle are scheduled; the handle that wakes the thread, and the handle, are resumed.
both_resumed : (d : Dispatcher) × Steps push pop create d
unfolding create schedule_handle schedule_timer run_turn next_handle take_handle push insert
both_resumed = (
  _,
  go _ _ _ (timer later _) (
      go _ _ _ (timer early _) (
        go _ _ _ (handle 5 _)
          (go _ _ _ (resumed_one 4 0 _ _ refl) (go _ _ _ (resumed_one 4 5 _ _ refl) (stop _))))),
)

Steps-handles_in_order_example :
    both_resumed.0.scheduled ≡ both_resumed.0.resumed ++ both_resumed.0.queue
Steps-handles_in_order_example =
    Steps-handles_in_order IsSorted push pop IsSorted-HeapLaws both_resumed.0 both_resumed.1

first_fires : (d : Dispatcher) × (run_turn push pop 4 both_resumed.0 ≡ fires early d)
unfolding both_resumed run_turn time_out pop_timer pop_item push pop insert
first_fires = (_, refl)
