-- ===== src/Queue/Single.antt =====
-- `single_item_queue` of queue.h: room for one item; a second one is an error.
use coroutines_classes.Prelude.{
  ℕ, ◌≡◌, refl, List, [], ◌∷◌, ◌++◌, Bool, true, false, Option, some, none, ◌==◌, if◌then◌else◌,
}

pub data Emplaced {ℓ} (A : Type ℓ) : Type ℓ where
  stored : Option A → Emplaced A
  full_error : Emplaced A

module _ {ℓ} {A : Type ℓ} where
  unfoldable pub empty : Option A → Bool
  empty none = true
  empty (some v) = false

  unfoldable pub emplace : A → Option A → Emplaced A
  emplace v none = stored (some v)
  emplace v (some w) = full_error

  unfoldable pub size : Option A → ℕ
  size none = 0
  size (some v) = 1

  unfoldable pub pop : Option A → Option A
  pop q = none

  unfoldable pub to_list : Option A → List A
  to_list none = []
  to_list (some v) = v ∷ []

  -- The contents after a try to store, and whether it failed.
  pub outcome : Option A → Emplaced A → List A × Bool
  unfolding to_list
  outcome q (stored q') = (to_list q', true)
  outcome q full_error = (to_list q, false)

  -- A store appends to the contents unless the queue holds one item, and then it fails and changes
  -- nothing.
  pub emplace-outcome :
      (v : A) (q : Option A)
      → outcome q (emplace v q)
        ≡ (if size q == 0 then (to_list q ++ v ∷ [], true) else (to_list q, false))
  unfolding outcome emplace to_list size
  emplace-outcome v none = refl
  emplace-outcome v (some w) = refl
