-- ===== src/Scheduler/Worker/Shrinks.antt =====
-- What `remove` and `cancel` of scheduler.h leave of the items.
use mathlib.Core.List.{Permᴰ}
use mathlib.Core.List.Permᴰ
use coroutines_classes.Prelude.{
  ℕ, zero, suc, ◌≤◌, ◌≡◌, refl, sym, ◌∙◌, ap, subst, List, [], ◌∷◌, ◌++◌, Option, none, some, Bool,
  true, false, ◌==◌, if◌then◌else◌, All, Bool-cases, inl, inr, cond_true, cond_false,
}
use coroutines_classes.Scheduler.{
  Item, Scheduler, Outcome, ok, out_of_bounds, out_of_fuel, cancel, remove, remove_front,
  take_found, moved_away, pop_item,
}
use coroutines_classes.Scheduler.Heap.{HeapLaws, times, All-Perm}
use coroutines_classes.Scheduler.Expiry.{pop_item-Perm}

-- No item expires before the deadline; with none, there is no item.
abbrev pub Later : Option ℕ → List Item → Type 0
Later none items = items ≡ []
Later (some t) items = All (λ y. t ≤ y.tp) items

All-times :
    (t : ℕ) (xs ys : List Item)
    → times xs ≡ times ys
    → All (λ y. t ≤ y.tp) xs
    → All (λ y. t ≤ y.tp) ys
All-times t [] [] e h = tt
All-times t [] (y ∷ ys) e h = absurd cc
All-times t (x ∷ xs) [] e h = absurd cc
All-times t (x ∷ xs) (y ∷ ys) e h =
    let head_time : x.tp ≡ y.tp = cc in
    let rest : times xs ≡ times ys = cc in
    (subst (λ n. t ≤ n) head_time h.0, All-times t xs ys rest h.1)

take_found-times : (id : ℕ) (xs : List Item) → times (take_found id xs).0 ≡ times xs
unfolding take_found
take_found-times id [] = refl
take_found-times id (x ∷ xs) = elim (Bool-cases (x.ident == id)) [
  | inl e ↦ rw e refl
  | inr e ↦ rw e (ap (◌∷◌ x.tp) (take_found-times id xs))
]

ok-same {ℓ κ} :
    {A : Type ℓ}
    → {B : Type κ} → (a a' : A) (b b' : B) → ◌≡◌ {A = Outcome (A × B)} (ok (a, b)) (ok (a', b'))
    → a ≡ a'
ok-same a a' b b' e = cc

module _ (IsHeap : List ℕ → Type 0) (push_heap pop_heap : List Item → List Item)
    (laws : HeapLaws IsHeap push_heap pop_heap) where
  -- What `remove` leaves is a heap, in which no item expires earlier than before.
  pub record Shrinks (items rest : List Item) : Type 0 where
    pub in_heap : IsHeap (times items) → IsHeap (times rest)
    pub later : (d : Option ℕ) → IsHeap (times items) → Later d items → Later d rest

  Shrinks-trans : (xs ys zs : List Item) → Shrinks xs ys → Shrinks ys zs → Shrinks xs zs
  Shrinks-trans xs ys zs f g = record {
    in_heap = λ h. g.in_heap (f.in_heap h);
    later = λ d h l. g.later d (f.in_heap h) (f.later d h l);
  }

  Shrinks-popped :
      (x : Item) (xs : List Item)
      → Shrinks (x ∷ xs) (pop_item push_heap pop_heap (moved_away x ∷ xs))
  Shrinks-popped x xs = record { in_heap = λ h. (popped h).0; later = later }
    where
      popped :
          IsHeap (times (x ∷ xs))
          → IsHeap (times (pop_item push_heap pop_heap (moved_away x ∷ xs)))
            × Permᴰ (pop_item push_heap pop_heap (moved_away x ∷ xs)) xs
      popped h = pop_item-Perm IsHeap push_heap pop_heap laws x xs h

      later :
          (d : Option ℕ)
          → IsHeap (times (x ∷ xs))
          → Later d (x ∷ xs)
          → Later d (pop_item push_heap pop_heap (moved_away x ∷ xs))
      later none h l = absurd cc
      later (some t) h l = All-Perm (λ y. t ≤ y.tp) (Permᴰ.symm (popped h).1) l.1

  Shrinks-times :
      (x : Item) (xs rest : List Item) → times rest ≡ times (x ∷ xs) → Shrinks (x ∷ xs) rest
  Shrinks-times x xs rest e = record { in_heap = subst IsHeap (sym e); later = later }
    where
      later : (d : Option ℕ) → IsHeap (times (x ∷ xs)) → Later d (x ∷ xs) → Later d rest
      later none h l = absurd cc
      later (some t) h l = All-times t (x ∷ xs) rest (sym e) l

  remove_front-Shrinks :
      (fuel id : ℕ) (items rest : List Item) (p : ℕ)
      → remove_front push_heap pop_heap fuel id items ≡ ok (rest, p)
      → Shrinks items rest
  unfolding remove_front
  remove_front-Shrinks zero id items rest p e = absurd cc
  remove_front-Shrinks (suc fuel) id [] rest p e = absurd cc
  remove_front-Shrinks (suc fuel) id (x ∷ xs) rest p e = elim (Bool-cases (x.ident == id)) [
    | inl found ↦ elim (Bool-cases (x.p == 0)) [
      | inl used ↦ Shrinks-trans (x ∷ xs) _ rest (Shrinks-popped x xs) (
          remove_front-Shrinks fuel id _ rest p
            (sym (cond_true _ _ _ found ∙ cond_true _ _ _ used) ∙ e))
      | inr live ↦
          subst (Shrinks (x ∷ xs))
            (ok-same _ rest _ p (sym (cond_true _ _ _ found ∙ cond_false _ _ _ live) ∙ e))
            (Shrinks-popped x xs)
    ]
    | inr other ↦ Shrinks-times x xs rest (
        ap times (sym (ok-same _ rest _ p (sym (cond_false _ _ _ other) ∙ e)))
        ∙ take_found-times id (x ∷ xs))
  ]

  Shrinks-refl : (xs : List Item) → Shrinks xs xs
  Shrinks-refl xs = record { in_heap = λ h. h; later = λ d h l. l }

  remove-Shrinks :
      (fuel id : ℕ) (items rest : List Item) (p : ℕ)
      → remove push_heap pop_heap fuel id items ≡ ok (rest, p)
      → Shrinks items rest
  unfolding remove
  remove-Shrinks fuel id [] rest p e = subst (Shrinks []) (ok-same [] rest 0 p e) (Shrinks-refl [])
  remove-Shrinks fuel id (x ∷ xs) rest p e = remove_front-Shrinks fuel id (x ∷ xs) rest p e

  pub cancel-Shrinks :
      (fuel id e : ℕ) (s s' : Scheduler) (b : Bool)
      → cancel push_heap pop_heap fuel id e s ≡ ok (s', b)
      → Shrinks s.scheduled s'.scheduled
  unfolding cancel
  cancel-Shrinks fuel id e s s' b run = go (remove push_heap pop_heap fuel id s.scheduled) refl run
    where
      go :
          (o : Outcome (List Item × ℕ))
          → remove push_heap pop_heap fuel id s.scheduled ≡ o
          → (elim o as (λ _. Outcome (Scheduler × Bool)) [
            | out_of_bounds ↦ out_of_bounds
            | out_of_fuel ↦ out_of_fuel
            | ok (items, p) ↦
                if p == 0
                then ok (record s { scheduled = items }, false)
                else ok (record s { scheduled = items; canceled = s.canceled ++ (p, e) ∷ [] }, true)
          ])
            ≡ ok (s', b)
          → Shrinks s.scheduled s'.scheduled
      go out_of_bounds f g = absurd cc
      go out_of_fuel f g = absurd cc
      go (ok (items, p)) f g = elim (Bool-cases (p == 0)) [
        | inl none_left ↦
            subst (λ z. Shrinks s.scheduled z.scheduled)
              (ok-same _ s' _ b (sym (cond_true _ _ _ none_left) ∙ g))
              (remove-Shrinks fuel id s.scheduled items p f)
        | inr found ↦
            subst (λ z. Shrinks s.scheduled z.scheduled)
              (ok-same _ s' _ b (sym (cond_false _ _ _ found) ∙ g))
              (remove-Shrinks fuel id s.scheduled items p f)
      ]
