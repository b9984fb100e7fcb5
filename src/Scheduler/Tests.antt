-- ===== src/Scheduler/Tests.antt =====
-- Examples for the scheduler, with the heap of the standard library played by a sorted list.

use coroutines_classes.Prelude.{◌≡◌, refl, [], ◌∷◌, some, arith}
use coroutines_classes.Scheduler.{
  Item, Scheduler, promise, get_expired, remove, out_of_bounds, expire, pop_item,
}
use coroutines_classes.Scheduler.Heap.{times}
use coroutines_classes.Scheduler.Removal.{remove-out_of_bounds}
use coroutines_classes.Scheduler.Sorted.{push, pop, IsSorted, IsSorted-HeapLaws}

-- The item without a promise was moved away.
abbrev asleep : Scheduler
asleep = record {
  scheduled =
      record { tp = 3; p = 0; ident = 1 }
      ∷ record { tp = 5; p = 21; ident = 2 }
      ∷ record { tp = 9; p = 22; ident = 3 }
      ∷ [];
  notified = 0;
  canceled = [];
}

asleep-IsSorted : IsSorted (times asleep.scheduled)
asleep-IsSorted = ((omega arith, (omega arith, tt)), ((omega arith, tt), (tt, tt)))

get_expired_run :
    get_expired push pop 4 7 asleep
    ≡ some (record asleep { scheduled = record { tp = 9; p = 22; ident = 3 } ∷ [] }, promise 21)
unfolding get_expired expire pop_item pop
get_expired_run = refl

abbrev used_up : Item
used_up = record { tp = 3; p = 0; ident = 1 }

remove-out_of_bounds_example : remove push pop 2 1 (used_up ∷ []) ≡ out_of_bounds
remove-out_of_bounds_example =
    remove-out_of_bounds IsSorted push pop IsSorted-HeapLaws 2 1 used_up [] (omega arith) (tt, tt)
      ((refl, refl), tt)

abbrev live : Item
live = record { tp = 5; p = 21; ident = 2 }
