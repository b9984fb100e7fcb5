-- ===== src/PoolAlloc/Tests.antt =====
-- Examples for the block caches.
use coroutines_classes.Prelude.{
  ℕ, ◌+◌, ◌*◌, ◌≤◌, ◌<◌, ◌≡◌, ◌⊎◌, refl, List, [], ◌∷◌, ◌++◌, some, update, arith, Distinct,
}
use coroutines_classes.Awaiter.Segment.{Segment}
use mathlib.Core.List.{Permᴰ}
use coroutines_classes.PoolAlloc.{Cache, alloc, dealloc, destroy}
use coroutines_classes.PoolAlloc.Session.{
  Session, Step, Steps, start, allocate, IsPartition, Steps-IsPartition, Steps-destroyed,
}
use coroutines_classes.PoolAlloc.Sizes.{system, cached, route, route_bounds, max_levels}

-- The block 10 is asked for and given back, and 20 is asked for, when 10 is free.
abbrev one_used : Session
one_used = allocate 10 (start 4 (λ _. 0))

abbrev one_free : Session
one_free = record one_used { cache = dealloc 10 one_used.cache; used = [] }

abbrev used_again : Session
used_again = allocate 20 one_free

one_used-0 : one_used.used ≡ 10 ∷ []
unfolding alloc
one_used-0 = refl

to_used_again : Steps (start 4 (λ _. 0)) used_again
unfolding alloc
to_used_again = Steps.go _ one_used _ (Step.allocates 10 _ (omega arith) tt) (
    Steps.go _ one_free _ (Step.gives_back 10 [] [] _ refl (omega arith))
      (Steps.go _ used_again _ (Step.allocates 20 _ (omega arith) (omega arith)) (Steps.stay _)))

Steps-IsPartition_example : IsPartition used_again
Steps-IsPartition_example = Steps-IsPartition 4 (λ _. 0) used_again to_used_again

used_again_run : used_again.used ≡ 10 ∷ []
unfolding alloc dealloc
used_again_run = refl

to_one_free : Steps (start 4 (λ _. 0)) one_free
unfolding alloc
to_one_free =
    Steps.go _ one_used _ (Step.allocates 10 _ (omega arith) tt)
      (Steps.go _ one_free _ (Step.gives_back 10 [] [] _ refl (omega arith)) (Steps.stay _))

Steps-destroyed_example :
    (c : Cache) × (given left : List ℕ) × (destroy 5 one_free.cache ≡ some c)
    × (c.freed ≡ given)
    × Segment c.next c.chain left 0
    × (c.prepared ≡ 0)
    × (c.dropped ≡ 0)
    × Distinct one_free.obtained
    × Permᴰ one_free.obtained ([] ++ (given ++ left))
unfolding alloc
Steps-destroyed_example = Steps-destroyed 4 (λ _. 0) one_free to_one_free 5 (omega arith)

-- A cache of a level that may hold no block: the block 50 holds the word 7.
abbrev no_room : Cache
no_room = record {
  next = update (λ _. 0) 50 7;
  chain = 0;
  max_count = 0;
  prepared = 0;
  dropped = 0;
  count = 0;
  freed = [];
}

route_bounds_example :
    ((32 * max_levels < 100) × (route 32 100 ≡ system))
    ⊎ ((100 ≤ 32 * max_levels)
        × ((l : ℕ) × (route 32 100 ≡ cached l)
            × (1 ≤ l)
            × (l ≤ max_levels)
            × (100 ≤ 32 * l)
            × (32 * l < 100 + 32)))
route_bounds_example = route_bounds 32 100 (omega arith) (omega arith)

route_run : route 32 100 ≡ cached 4
unfolding route
route_run = refl
