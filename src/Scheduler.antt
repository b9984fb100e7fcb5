-- ===== src/Scheduler.antt =====
-- src/coclasses/scheduler.h: the queue of sleeping promises of `scheduler`.
--
-- A promise is a number, and 0 is one that was moved away. `std::push_heap` and `std::pop_heap` are
-- parameters. `notified` counts the calls of `notify_all`, and `canceled` records the promises that
-- `cancel` resolves with an exception, by itself or through the pool. The lock of `_mx` covers each
-- operation.
pub mod Heap
pub mod Expiry
pub mod Removal
pub mod Sorted
pub mod Worker
mod Tests
use coroutines_classes.Prelude.{
  ℕ, zero, suc, ◌+◌, List, [], ◌∷◌, ◌++◌, Option, none, some, Bool, true, false, ◌==◌, ◌||◌, leb,
  ltb, if◌then◌else◌,
}

-- `SchItem`
pub record Item : Type 0 where
  pub tp : ℕ
  pub p : ℕ
  pub ident : ℕ

pub record Scheduler : Type 0 where
  pub scheduled : List Item
  pub notified : ℕ
  pub canceled : List (ℕ × ℕ)

-- The variant `expired`; `forever` is the greatest time point.
pub data Expired : Type 0 where
  promise : ℕ → Expired
  until : ℕ → Expired
  forever : Expired

-- The outcome of code that reads `_scheduled[0]` in a loop.
pub data Outcome {ℓ} (A : Type ℓ) : Type ℓ where
  ok : A → Outcome A
  out_of_bounds : Outcome A
  out_of_fuel : Outcome A

abbrev pub moved_away : Item → Item
moved_away x = record x { p = 0 }

abbrev pub drop_last {ℓ} : {A : Type ℓ} → List A → List A
drop_last [] = []
drop_last (x ∷ []) = []
drop_last (x ∷ y ∷ ys) = x ∷ drop_last (y ∷ ys)

-- Whether a new item is the first to expire.
abbrev pub is_first : ℕ → List Item → Bool
is_first tp [] = true
is_first tp (x ∷ xs) = ltb tp x.tp

-- `std::find_if` by the identity, and the move of the promise that was found.
unfoldable pub take_found : ℕ → List Item → List Item × ℕ
take_found id [] = ([], 0)
take_found id (x ∷ xs) =
    let (rest, p) = take_found id xs in
    if x.ident == id then (moved_away x ∷ xs, x.p) else (x ∷ rest, p)

module _ (push_heap pop_heap : List Item → List Item) where
  unfoldable pub schedule : ℕ → ℕ → ℕ → Scheduler → Scheduler
  schedule id p tp s =
      let ntf = is_first tp s.scheduled in
      let item : Item = record { tp = tp; p = p; ident = id } in
      record s {
        scheduled = push_heap (s.scheduled ++ item ∷ []);
        notified = if ntf then s.notified + 1 else s.notified;
      }

  unfoldable pub pop_item : List Item → List Item
  pop_item items = drop_last (pop_heap items)

  -- The loop of `get_expired_lk` on `_scheduled`.
  unfoldable pub expire : ℕ → ℕ → List Item → Option (List Item × Expired)
  unfolding pop_item
  expire zero now items = none
  expire (suc fuel) now [] = some ([], forever)
  expire (suc fuel) now (x ∷ xs) =
      let popped = pop_item (moved_away x ∷ xs) in
      let rest = expire fuel now popped in
      if leb x.tp now || x.p == 0
      then (if x.p == 0 then rest else some (popped, promise x.p))
      else some (x ∷ xs, until x.tp)

  unfoldable pub get_expired : ℕ → ℕ → Scheduler → Option (Scheduler × Expired)
  unfolding expire
  get_expired fuel now s = elim (expire fuel now s.scheduled) [
    | none ↦ none
    | some (items, r) ↦ some (record s { scheduled = items }, r)
  ]

  -- The loop of `remove`, and what follows it. The empty vector has no item 0.
  unfoldable pub remove_front : ℕ → ℕ → List Item → Outcome (List Item × ℕ)
  unfolding pop_item take_found
  remove_front zero id items = out_of_fuel
  remove_front (suc fuel) id [] = out_of_bounds
  remove_front (suc fuel) id (x ∷ xs) =
      let popped = pop_item (moved_away x ∷ xs) in
      let rest = remove_front fuel id popped in
      if x.ident == id
      then (if x.p == 0 then rest else ok (popped, x.p))
      else ok (take_found id (x ∷ xs))

  unfoldable pub remove : ℕ → ℕ → List Item → Outcome (List Item × ℕ)
  unfolding remove_front
  remove fuel id [] = ok ([], 0)
  remove fuel id (x ∷ xs) = remove_front fuel id (x ∷ xs)

  unfoldable pub cancel : ℕ → ℕ → ℕ → Scheduler → Outcome (Scheduler × Bool)
  unfolding remove
  cancel fuel id e s = elim (remove fuel id s.scheduled) [
    | out_of_bounds ↦ out_of_bounds
    | out_of_fuel ↦ out_of_fuel
    | ok (items, p) ↦
        let s' = record s { scheduled = items } in
        if p == 0
        then ok (s', false)
        else ok (record s' { canceled = s.canceled ++ (p, e) ∷ [] }, true)
  ]
