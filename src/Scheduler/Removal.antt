-- ===== src/Scheduler/Removal.antt =====
-- `remove` of scheduler.h.
use mathlib.Core.List.{Permᴰ}
use mathlib.Core.List.Permᴰ
use coroutines_classes.Prelude.{
  ℕ, zero, suc, ◌<◌, ◌≡◌, ◌≢◌, refl, List, [], ◌∷◌, ◌++◌, arith, All, length, ◌∙◌,
}
use coroutines_classes.Scheduler.{
  Item, ok, out_of_bounds, pop_item, moved_away, take_found, remove_front, remove,
}
use coroutines_classes.Scheduler.Heap.{HeapLaws, times, length-Perm, All-Perm}
use coroutines_classes.Scheduler.Expiry.{pop_item-Perm}

-- The item has the identity, and no promise any more.
abbrev pub IsUsedUp : ℕ → Item → Type 0
IsUsedUp id x = (x.ident ≡ id) × (x.p ≡ 0)

module _ (IsHeap : List ℕ → Type 0) (push_heap pop_heap : List Item → List Item)
    (laws : HeapLaws IsHeap push_heap pop_heap) where
  remove_front-used :
      (fuel id : ℕ) (x : Item) (xs : List Item)
      → IsUsedUp id x
      → remove_front push_heap pop_heap (suc fuel) id (x ∷ xs)
        ≡ remove_front push_heap pop_heap fuel id (pop_item push_heap pop_heap (moved_away x ∷ xs))
  unfolding remove_front
  remove_front-used fuel id x xs u = ground arith

  remove_front-nil :
      (fuel id : ℕ) → remove_front push_heap pop_heap (suc fuel) id [] ≡ out_of_bounds
  unfolding remove_front
  remove_front-nil fuel id = refl

  remove_front-used_up :
      (fuel id : ℕ) (items : List Item)
      → length items < fuel
      → IsHeap (times items)
      → All (IsUsedUp id) items
      → remove_front push_heap pop_heap fuel id items ≡ out_of_bounds
  remove_front-used_up zero id items lt h u = elim lt [ ]
  remove_front-used_up (suc fuel) id [] lt h u = remove_front-nil fuel id
  remove_front-used_up (suc fuel) id (x ∷ xs) lt h u =
      let (h', perm) = pop_item-Perm IsHeap push_heap pop_heap laws x xs h in
      remove_front-used fuel id x xs u.0
      ∙ remove_front-used_up fuel id _ (omega (arith, length-Perm perm)) h'
          (All-Perm (IsUsedUp id) (Permᴰ.symm perm) u.1)

  -- Where every item of a heap that is not empty has the identity asked for and no promise any more,
  -- `remove` reads the first item of an empty vector.
  pub remove-out_of_bounds :
      (fuel id : ℕ) (x : Item) (xs : List Item)
      → length (x ∷ xs) < fuel
      → IsHeap (times (x ∷ xs))
      → All (IsUsedUp id) (x ∷ xs)
      → remove push_heap pop_heap fuel id (x ∷ xs) ≡ out_of_bounds
  unfolding remove
  remove-out_of_bounds fuel id x xs lt h u = remove_front-used_up fuel id (x ∷ xs) lt h u

  -- The items before the one found have another identity.
  abbrev pub Others : ℕ → List Item → Type 0
  Others id = All (λ y. y.ident ≢ id)

  take_found-first :
      (id : ℕ) (xs : List Item) (y : Item) (zs : List Item)
      → Others id xs
      → y.ident ≡ id
      → take_found id (xs ++ y ∷ zs) ≡ (xs ++ moved_away y ∷ zs, y.p)
  unfolding take_found
  take_found-first id [] y zs o e = ground arith
  take_found-first id (x ∷ xs) y zs o e = ground (arith, take_found-first id xs y zs o.1 e)

  -- Where the front item has another identity, `remove` takes the promise of the first item that has
  -- the identity asked for, and leaves the item without one; if that item had none already, it
  -- returns none, whatever promises with the same identity stand behind it.
  pub remove-first_found :
      (fuel id : ℕ) (x : Item) (xs : List Item) (y : Item) (zs : List Item)
      → Others id (x ∷ xs)
      → y.ident ≡ id
      → remove push_heap pop_heap (suc fuel) id ((x ∷ xs) ++ y ∷ zs)
        ≡ ok ((x ∷ xs) ++ moved_away y ∷ zs, y.p)
  unfolding remove remove_front
  remove-first_found fuel id x xs y zs o e = ground (arith, take_found-first id (x ∷ xs) y zs o e)

  -- Where the front item has the identity and a promise, that promise is returned, and a heap of the
  -- other items is left.
  pub remove-front :
      (fuel id : ℕ) (x : Item) (xs : List Item)
      → IsHeap (times (x ∷ xs))
      → x.ident ≡ id
      → x.p ≢ 0
      → (rest : List Item) × (remove push_heap pop_heap (suc fuel) id (x ∷ xs) ≡ ok (rest, x.p))
        × IsHeap (times rest)
        × Permᴰ rest xs
  unfolding remove remove_front
  remove-front fuel id x xs h e n =
      let (h', perm) = pop_item-Perm IsHeap push_heap pop_heap laws x xs h in
      (pop_item push_heap pop_heap (moved_away x ∷ xs), ground arith, h', perm)
