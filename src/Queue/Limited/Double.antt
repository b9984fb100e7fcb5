-- ===== src/Queue/Limited/Double.antt =====
-- What becomes of a value whose writer is blocked.
use coroutines_classes.Prelude.{
  ℕ, ◌+◌, ◌≤◌, ◌≡◌, refl, List, [], ◌∷◌, ◌++◌, false, length, arith, length-append, ap,
}
use coroutines_classes.Queue.{value, resolve}
use coroutines_classes.Queue.Limited.{Limited, push, pop}

module _ {ℓ} {A : Type ℓ} where
  abbrev first_of_items : A → List A → A
  first_of_items v [] = v
  first_of_items v (x ∷ xs) = x

  abbrev rest_of_items : A → List A → List A
  rest_of_items v [] = []
  rest_of_items v (x ∷ xs) = xs ++ v ∷ []

  append-first : (v : A) (xs : List A) → xs ++ v ∷ [] ≡ first_of_items v xs ∷ rest_of_items v xs
  append-first v [] = refl
  append-first v (x ∷ xs) = refl

  -- The queue after a write whose writer is blocked.
  abbrev blocked_on : A → ℕ → Limited A → Limited A
  blocked_on v b l = record l {
    queue = record l.queue { items = l.items ++ v ∷ [] };
    blocked = l.blocked ++ (v, b) ∷ [];
  }

  push-full :
      (v : A) (b : ℕ) (l : Limited A)
      → l.awaiters ≡ []
      → l.limit ≤ length l.items + 1
      → push v b l ≡ (blocked_on v b l, false)
  unfolding push
  push-full v b l a full = ground (arith, length-append l.items (v ∷ []))

  pop-blocked :
      (p : ℕ) (l : Limited A) (x : A) (xs : List A) (v : A) (b : ℕ)
      → l.items ≡ x ∷ xs
      → l.blocked ≡ (v, b) ∷ []
      → ((pop p l).items ≡ xs ++ v ∷ [])
        × ((pop p l).done ≡ l.done ++ (p, value x) ∷ [])
        × ((pop p l).released ≡ l.released ++ (b, value tt) ∷ [])
  unfolding pop resolve
  pop-blocked p l x xs v b e f = ground arith

  -- A write that fills the queue stores its value, and keeps it for the blocked writer too: the next
  -- read, which gets the oldest value, releases the writer and stores the value once more. (No reader
  -- waits and no other writer is blocked.)
  pub push-stores_twice :
      (v : A) (b p : ℕ) (l : Limited A)
      → l.awaiters ≡ []
      → l.blocked ≡ []
      → l.limit ≤ length l.items + 1
      → ((push v b l).1 ≡ false)
        × ((push v b l).0.items ≡ l.items ++ v ∷ [])
        × ((x : A) × (xs : List A) × (l.items ++ v ∷ [] ≡ x ∷ xs)
            × ((pop p (push v b l).0).items ≡ xs ++ v ∷ [])
            × ((pop p (push v b l).0).done ≡ l.done ++ (p, value x) ∷ [])
            × ((pop p (push v b l).0).released ≡ l.released ++ (b, value tt) ∷ []))
  push-stores_twice v b p l a e full =
      let x = first_of_items v l.items in
      let xs = rest_of_items v l.items in
      let split = append-first v l.items in
      let (kept, given, freed) =
        pop-blocked p (blocked_on v b l) x xs v b split (ap (λ bs. bs ++ (v, b) ∷ []) e) in
      rw (push-full v b l a full) (refl, refl, (x, xs, split, kept, given, freed))
