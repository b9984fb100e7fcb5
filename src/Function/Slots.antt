-- ===== src/Function/Slots.antt =====
-- The positions at which the functions of function.h stand, and what they hold.
use coroutines_classes.Prelude.{
  ℕ, zero, suc, ◌+◌, ◌<◌, ◌≡◌, ◌≢◌, refl, sym, ap, List, [], ◌∷◌, Option, none, some, length, arith,
}
use coroutines_classes.Function.{Instance, at, put}

abbrev pub one {ℓ} : {A : Type ℓ} → Option A → ℕ
one none = 0
one (some x) = 1

abbrev pub holders {ℓ} : {A : Type ℓ} → List (Option A) → ℕ
holders [] = 0
holders (x ∷ xs) = one x + holders xs

abbrev pub held : Option Instance → Option ℕ
held none = none
held (some x) = some x.callable

-- Which callable each function holds.
abbrev pub contents : List (Option Instance) → List (Option ℕ)
contents [] = []
contents (x ∷ xs) = held x ∷ contents xs

module _ {ℓ} {A : Type ℓ} where
  pub length-put : (i : ℕ) (y : Option A) (xs : List (Option A)) → length (put i y xs) ≡ length xs
  unfolding put
  length-put i y [] = refl
  length-put zero y (x ∷ xs) = refl
  length-put (suc i) y (x ∷ xs) = ap suc (length-put i y xs)

  pub holders-put :
      (i : ℕ) (y : Option A) (xs : List (Option A))
      → i < length xs
      → holders (put i y xs) + one (at i xs) ≡ holders xs + one y
  unfolding put at
  holders-put i y [] lt = absurd (omega (arith, lt))
  holders-put zero y (x ∷ xs) lt = omega arith
  holders-put (suc i) y (x ∷ xs) lt = omega (arith, holders-put i y xs (omega (arith, lt)))

  pub at-put_other :
      (i j : ℕ) (y : Option A) (xs : List (Option A)) → i ≢ j → at i (put j y xs) ≡ at i xs
  unfolding put at
  at-put_other i j y [] n = refl
  at-put_other zero zero y (x ∷ xs) n = absurd (n refl)
  at-put_other zero (suc j) y (x ∷ xs) n = refl
  at-put_other (suc i) zero y (x ∷ xs) n = refl
  at-put_other (suc i) (suc j) y (x ∷ xs) n = at-put_other i j y xs (λ e. n (ap suc e))

  pub put-same : (i : ℕ) (y : Option A) (xs : List (Option A)) → at i xs ≡ y → put i y xs ≡ xs
  unfolding put at
  put-same i y [] e = refl
  put-same zero y (x ∷ xs) e = ap (λ z. z ∷ xs) (sym e)
  put-same (suc i) y (x ∷ xs) e = ap (λ z. x ∷ z) (put-same i y xs e)

  pub at-put_same : (i : ℕ) (xs : List (Option A)) → at i (put i none xs) ≡ none
  unfolding put at
  at-put_same i [] = refl
  at-put_same zero (x ∷ xs) = refl
  at-put_same (suc i) (x ∷ xs) = at-put_same i xs

  pub put-put : (i : ℕ) (x y : Option A) (xs : List (Option A)) → put i y (put i x xs) ≡ put i y xs
  unfolding put
  put-put i x y [] = refl
  put-put zero x y (z ∷ xs) = refl
  put-put (suc i) x y (z ∷ xs) = ap (λ l. z ∷ l) (put-put i x y xs)

pub contents-put :
    (i : ℕ) (y : Option Instance) (xs : List (Option Instance))
    → contents (put i y xs) ≡ put i (held y) (contents xs)
unfolding put
contents-put i y [] = refl
contents-put zero y (x ∷ xs) = refl
contents-put (suc i) y (x ∷ xs) = ap (λ z. held x ∷ z) (contents-put i y xs)

pub contents-at : (i : ℕ) (xs : List (Option Instance)) → at i (contents xs) ≡ held (at i xs)
unfolding at
contents-at i [] = refl
contents-at zero (x ∷ xs) = refl
contents-at (suc i) (x ∷ xs) = contents-at i xs

pub length-contents : (xs : List (Option Instance)) → length (contents xs) ≡ length xs
length-contents [] = refl
length-contents (x ∷ xs) = ap suc (length-contents xs)
