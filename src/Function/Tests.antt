-- ===== src/Function/Tests.antt =====
-- Examples for the functions.
use coroutines_classes.Prelude.{ℕ, ◌≡◌, refl, List, [], ◌∷◌, none, some, Bool, ltb, arith}
use coroutines_classes.Function.{World, put, at}
use coroutines_classes.Function.Slots.{contents}
use coroutines_classes.Function.Owning.{Op, constructs, moves, assigns, IsOwned, run, run-IsOwned}

abbrev fits : ℕ → Bool
fits c = ltb c 5

abbrev two_functions : World
two_functions = record { functions = none ∷ none ∷ []; constructed = 0; destroyed = 0 }

-- A small callable is moved to the second function, a large one is made in the first, and replaced
-- by the small one.
abbrev some_ops : List Op
some_ops = constructs 0 3 ∷ moves 1 0 ∷ constructs 0 9 ∷ assigns 0 1 ∷ []

run-IsOwned_example :
    IsOwned (run fits some_ops two_functions)
    × (contents (run fits some_ops two_functions).functions ≡ some 3 ∷ none ∷ [])
unfolding put at
run-IsOwned_example =
    run-IsOwned fits some_ops two_functions
      (
        (omega arith, refl),
        (
          (omega arith, omega arith, omega arith, refl),
          ((omega arith, refl), ((omega arith, omega arith), tt)),
        ),
      )
      refl
