-- ===== src/Queue/Tests.antt =====
-- Examples for the queues.
use coroutines_classes.Prelude.{ℕ, ◌≡◌, refl, List, [], ◌∷◌, ◌++◌, false, arith, inl, inr}
use coroutines_classes.Queue.{value, exception, empty_queue, push, pop, unblock_pop}
use coroutines_classes.Queue.Order.{Op, pushes, pops, unblocks, run, received, received-run}
use coroutines_classes.Queue.Limited.{Limited}
use coroutines_classes.Queue.Limited
use coroutines_classes.Queue.Limited.Double.{push-stores_twice}
use coroutines_classes.Queue.Limited.Invariant.{IsBalanced}

-- Read 1 waits and is unblocked, read 2 waits and gets 10, read 3 gets 20 at once; 30 is left.
abbrev history : List (Op ℕ)
history =
    pops 1 ∷ pops 2 ∷ unblocks 7 ∷ pushes 10 ∷ pushes 20 ∷ pushes 30 ∷ pops 3 ∷ unblocks 8 ∷ []

run-history : run history empty_queue ≡ record {
  items = 30 ∷ [];
  awaiters = [];
  done = (1, exception 7) ∷ (2, value 10) ∷ (3, value 20) ∷ [];
}
unfolding run push pop unblock_pop
run-history = refl

received-run_example :
    received (run history empty_queue).done ++ (run history empty_queue).items ≡ 10 ∷ 20 ∷ 30 ∷ []
received-run_example = received-run history

abbrev one_left : Limited ℕ
one_left = record {
  queue = record { items = 5 ∷ []; awaiters = []; done = [] };
  blocked = [];
  released = [];
  limit = 2;
}

push-stores_twice_example :
    ((Limited.push 6 40 one_left).1 ≡ false)
    × ((Limited.push 6 40 one_left).0.items ≡ 5 ∷ 6 ∷ [])
    × ((x : ℕ) × (xs : List ℕ) × (◌≡◌ {A = List ℕ} (5 ∷ 6 ∷ []) (x ∷ xs))
        × ((Limited.pop 50 (Limited.push 6 40 one_left).0).items ≡ xs ++ 6 ∷ [])
        × ((Limited.pop 50 (Limited.push 6 40 one_left).0).done ≡ (50, value x) ∷ [])
        × ((Limited.pop 50 (Limited.push 6 40 one_left).0).released ≡ (40, value tt) ∷ []))
push-stores_twice_example = push-stores_twice 6 40 50 one_left refl refl (omega arith)

-- Two reads return the value that was pushed once.
read_twice :
    (Limited.pop 51 (
      Limited.pop 50
        (Limited.push 6 40 (record one_left { limit = 1; queue = empty_queue })).0)).done
    ≡ (50, value 6) ∷ (51, value 6) ∷ []
unfolding Limited.push Limited.pop
read_twice = refl

one_left-IsBalanced : IsBalanced one_left
one_left-IsBalanced = record { readers = inr refl; writers = inl refl }
