-- ===== src/Scheduler/Sorted.antt =====
-- A heap for examples: `push_heap` and `pop_heap` of scheduler.h on a sorted list.
use mathlib.Core.List.{Permᴰ}
use mathlib.Core.List.Permᴰ
use native.Mathlib.Decide.{dec_le}
use coroutines_classes.Prelude.{
  ℕ, ◌≤◌, ◌≡◌, ◌⊎◌, inl, inr, refl, List, [], ◌∷◌, ◌++◌, arith, All, leb, if◌then◌else◌,
}
use coroutines_classes.Scheduler.{Item}
use coroutines_classes.Scheduler.Heap.{HeapLaws, times}

unfoldable pub insert : Item → List Item → List Item
insert x [] = x ∷ []
insert x (y ∷ ys) = let rest = insert x ys in if leb x.tp y.tp then x ∷ y ∷ ys else y ∷ rest

unfoldable pub push : List Item → List Item
unfolding insert
push [] = []
push (x ∷ xs) = insert x (push xs)

unfoldable pub pop : List Item → List Item
pop [] = []
pop (x ∷ xs) = xs ++ x ∷ []

abbrev pub IsSorted : List ℕ → Type 0
IsSorted [] = Unit
IsSorted (t ∷ ts) = All (λ u. t ≤ u) ts × IsSorted ts

insert-cases :
    (x y : Item) (ys : List Item)
    → ((x.tp ≤ y.tp) × (insert x (y ∷ ys) ≡ x ∷ y ∷ ys))
      ⊎ ((y.tp ≤ x.tp) × (insert x (y ∷ ys) ≡ y ∷ insert x ys))
unfolding insert
insert-cases x y ys = elim (dec_le x.tp y.tp) [
  | yes le ↦ inl (le, ground arith)
  | no n ↦ inr (omega arith, ground arith)
]

insert-Perm : (x : Item) (ys : List Item) → Permᴰ (insert x ys) (x ∷ ys)
unfolding insert
insert-Perm x [] = Permᴰ.refl (x ∷ [])
insert-Perm x (y ∷ ys) = elim (insert-cases x y ys) [
  | inl (le, e) ↦ rw e (Permᴰ.refl (x ∷ y ∷ ys))
  | inr (le, e) ↦ rw e (Permᴰ.trans (Permᴰ.cons refl (insert-Perm x ys)) (Permᴰ.swap refl refl))
]

push-Perm : (xs : List Item) → Permᴰ (push xs) xs
unfolding push
push-Perm [] = Permᴰ.nil
push-Perm (x ∷ xs) = Permᴰ.trans (insert-Perm x (push xs)) (Permᴰ.cons refl (push-Perm xs))

All-times : (t : ℕ) (xs : List Item) → All (λ u. t ≤ u) (times xs) → All (λ y. t ≤ y.tp) xs
All-times t [] h = tt
All-times t (x ∷ xs) h = (h.0, All-times t xs h.1)

All-le : (t u : ℕ) (xs : List ℕ) → t ≤ u → All (λ v. u ≤ v) xs → All (λ v. t ≤ v) xs
All-le t u [] le h = tt
All-le t u (v ∷ vs) le h = (omega (arith, h.0), All-le t u vs le h.1)

insert-All :
    (t : ℕ) (x : Item) (ys : List Item)
    → t ≤ x.tp
    → All (λ u. t ≤ u) (times ys)
    → All (λ u. t ≤ u) (times (insert x ys))
unfolding insert
insert-All t x [] le h = (le, tt)
insert-All t x (y ∷ ys) le h = elim (insert-cases x y ys) [
  | inl (_, e) ↦ rw e (le, h)
  | inr (_, e) ↦ rw e (h.0, insert-All t x ys le h.1)
]

insert-IsSorted : (x : Item) (ys : List Item) → IsSorted (times ys) → IsSorted (times (insert x ys))
unfolding insert
insert-IsSorted x [] h = (tt, tt)
insert-IsSorted x (y ∷ ys) h = elim (insert-cases x y ys) [
  | inl (le, e) ↦ rw e ((le, All-le x.tp y.tp (times ys) le h.0), h)
  | inr (le, e) ↦ rw e (insert-All y.tp x ys le h.0, insert-IsSorted x ys h.1)
]

push-IsSorted : (xs : List Item) → IsSorted (times (push xs))
unfolding push
push-IsSorted [] = tt
push-IsSorted (x ∷ xs) = insert-IsSorted x (push xs) (push-IsSorted xs)

pub IsSorted-HeapLaws : HeapLaws IsSorted push pop
unfolding pop
IsSorted-HeapLaws = record {
  none_held = tt;
  least = λ x xs h. All-times x.tp xs h.0;
  pushes = λ xs x h. (push-IsSorted (xs ++ x ∷ []), push-Perm (xs ++ x ∷ []));
  pops = λ x xs h. (xs, refl, h.1, Permᴰ.refl xs);
}
