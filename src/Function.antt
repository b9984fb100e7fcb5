-- ===== src/Function.antt =====
-- The model of function.h: a function that owns its callable, in its own space or on the heap.
--
-- The functions stand at the positions of a list; one that is not alive or holds nothing is `none`.
-- A callable is a number, and `fits` says which of them have room in the space of a function. An
-- instance is what `_ptr` points to; `constructed` and `destroyed` count the instances.
pub mod Slots
pub mod Owning
mod Tests
use coroutines_classes.Prelude.{
  ℕ, zero, suc, ◌+◌, ◌==◌, List, [], ◌∷◌, Option, none, some, Bool, true, false, if◌then◌else◌,
}

pub record Instance : Type 0 where
  pub callable : ℕ
  pub small : Bool

pub record World : Type 0 where
  pub functions : List (Option Instance)
  pub constructed : ℕ
  pub destroyed : ℕ

-- The element of a position, and its update.
unfoldable pub at {ℓ} : {A : Type ℓ} → ℕ → List (Option A) → Option A
at i [] = none
at zero (x ∷ xs) = x
at (suc i) (x ∷ xs) = at i xs

unfoldable pub put {ℓ} : {A : Type ℓ} → ℕ → Option A → List (Option A) → List (Option A)
put i y [] = []
put zero y (x ∷ xs) = y ∷ xs
put (suc i) y (x ∷ xs) = x ∷ put i y xs

-- `delete _ptr`
unfoldable pub delete_ptr : Option Instance → World → World
delete_ptr none w = w
delete_ptr (some x) w = record w { destroyed = w.destroyed + 1 }

unfoldable pub set_ptr : ℕ → Option Instance → World → World
unfolding put
set_ptr i p w = record w { functions = put i p w.functions }

module _ (fits : ℕ → Bool) where
  -- `init`
  unfoldable pub init : ℕ → ℕ → World → World
  init i c w =
      set_ptr i (some (record { callable = c; small = fits c }))
        (record w { constructed = w.constructed + 1 })

  -- `FnInst::move` and `FnInstSmall::move`: an instance on the heap goes on as it is; one in the
  -- space of its function is made anew, and the old one is destroyed.
  unfoldable pub move_instance : Instance → World → Instance × World
  move_instance x w = (
    if x.small then record x { small = fits x.callable } else x,
    if x.small
        then record w { constructed = w.constructed + 1; destroyed = w.destroyed + 1 }
        else w,
  )

  -- The function `b` takes what `_ptr` of `a` points to; `b` has nothing of its own.
  unfoldable pub take_from : ℕ → ℕ → Option Instance → World → World
  take_from b a none w = set_ptr b none w
  take_from b a (some x) w =
      let (y, w') = move_instance x w in set_ptr a none (set_ptr b (some y) w')

  -- The constructor that moves.
  unfoldable pub move_construct : ℕ → ℕ → World → World
  move_construct b a w = take_from b a (at a w.functions) w

  -- The assignment that moves.
  unfoldable pub move_assign : ℕ → ℕ → World → World
  move_assign b a w =
      if b == a
      then w
      else take_from b a (at a w.functions) (set_ptr b none (delete_ptr (at b w.functions) w))

-- The destructor.
unfoldable pub destroy : ℕ → World → World
destroy a w = set_ptr a none (delete_ptr (at a w.functions) w)

-- The callable that is called; `none` is `std::bad_function_call`.
unfoldable pub call : ℕ → World → Option ℕ
call a w = elim (at a w.functions) [ none ↦ none | some x ↦ some x.callable ]
