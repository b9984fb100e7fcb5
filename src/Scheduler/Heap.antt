-- ===== src/Scheduler/Heap.antt =====
-- What scheduler.h relies on of `std::push_heap` and `std::pop_heap`, with `compare_item`, and facts
-- about permutations.
use mathlib.Core.List.{Permᴰ}
use coroutines_classes.Prelude.{
  ℕ, suc, ◌≤◌, ◌≡◌, refl, subst, ap, List, [], ◌∷◌, ◌++◌, All, length, map, ◌∙◌,
}
use coroutines_classes.Scheduler.{Item, drop_last}

abbrev pub times : List Item → List ℕ
times xs = map (λ x. x.tp) xs

-- `IsHeap` says of the times that they are in the order of a heap. A pushed item stands at the end
-- before the call, the popped one after it.
pub record HeapLaws (IsHeap : List ℕ → Type 0) (push_heap pop_heap : List Item → List Item)
    : Type 0 where
  pub none_held : IsHeap []
  pub least : (x : Item) (xs : List Item) → IsHeap (times (x ∷ xs)) → All (λ y. x.tp ≤ y.tp) xs
  pub pushes :
      (xs : List Item) (x : Item)
      → IsHeap (times xs)
      → IsHeap (times (push_heap (xs ++ x ∷ []))) × Permᴰ (push_heap (xs ++ x ∷ [])) (xs ++ x ∷ [])
  pub pops :
      (x : Item) (xs : List Item)
      → IsHeap (times (x ∷ xs))
      → (ys : List Item) × (pop_heap (x ∷ xs) ≡ ys ++ x ∷ []) × IsHeap (times ys) × Permᴰ ys xs

pub drop_last-append {ℓ} : {A : Type ℓ} (xs : List A) (x : A) → drop_last (xs ++ x ∷ []) ≡ xs
drop_last-append [] x = refl
drop_last-append (y ∷ []) x = refl
drop_last-append (y ∷ z ∷ zs) x = ap (◌∷◌ y) (drop_last-append (z ∷ zs) x)

module _ {ℓ} {A : Type ℓ} where
  pub length-Perm : {xs ys : List A} → Permᴰ xs ys → length xs ≡ length ys
  length-Perm Permᴰ.nil = refl
  length-Perm (Permᴰ.cons e p) = ap suc (length-Perm p)
  length-Perm (Permᴰ.swap e f) = refl
  length-Perm (Permᴰ.trans p q) = length-Perm p ∙ length-Perm q

  pub All-Perm {κ} : (P : A → Type κ) {xs ys : List A} → Permᴰ xs ys → All P xs → All P ys
  All-Perm P Permᴰ.nil h = h
  All-Perm P (Permᴰ.cons e p) h = (subst P e h.0, All-Perm P p h.1)
  All-Perm P (Permᴰ.swap e f) h = (subst P f h.1.0, (subst P e h.0, h.1.1))
  All-Perm P (Permᴰ.trans p q) h = All-Perm P q (All-Perm P p h)
