-- ===== src/Awaiter/Segment.antt =====
-- The list of awaiters that a chain of `_next` pointers stands for.
use coroutines_classes.Prelude.{
  ℕ, ◌<◌, ◌≡◌, refl, sym, ap, ◌≢◌, List, [], ◌∷◌, arith, length, NotMem, Distinct, update,
}

-- From `p`, the pointers lead through the awaiters of the list, and then to `stop`.
abbrev pub Segment : (ℕ → ℕ) → ℕ → List ℕ → ℕ → Type 0
Segment next p [] stop = p ≡ stop
Segment next p (x ∷ xs) stop = (p ≡ x) × (x ≢ stop) × Segment next (next x) xs stop

pub Segment-update :
    (next : ℕ → ℕ) (a v p : ℕ) (xs : List ℕ) (stop : ℕ)
    → NotMem a xs
    → Segment next p xs stop
    → Segment (update next a v) p xs stop
Segment-update next a v p [] stop h s = s
Segment-update next a v p (x ∷ xs) stop h s =
    ground (arith, Segment-update next a v (next x) xs stop)

-- A chain stands for one list only.
pub Segment-unique :
    (next : ℕ → ℕ) (p : ℕ) (xs ys : List ℕ) (stop : ℕ)
    → Segment next p xs stop
    → Segment next p ys stop
    → xs ≡ ys
Segment-unique next p [] [] stop h k = refl
Segment-unique next p [] (y ∷ ys) stop h k = ground arith
Segment-unique next p (x ∷ xs) [] stop h k = ground arith
Segment-unique next p (x ∷ xs) (y ∷ ys) stop h k =
    ground (arith, Segment-unique next (next x) xs ys stop)

Segment-NotMem :
    (next : ℕ → ℕ) (p : ℕ) (xs : List ℕ) (stop y : ℕ) (ys : List ℕ)
    → Segment next p xs stop
    → Segment next y ys stop
    → length xs < length ys
    → NotMem y xs
Segment-NotMem next p [] stop y ys h k lt = tt
Segment-NotMem next p (x ∷ xs) stop y ys h k lt = (
  λ e. absurd (omega (arith, ap length (Segment-unique next y (x ∷ xs) ys stop (e, h.1, h.2) k))),
  Segment-NotMem next (next x) xs stop y ys h.2 k (omega arith),
)

-- A chain that ends has no awaiter twice.
pub Segment-Distinct :
    (next : ℕ → ℕ) (p : ℕ) (xs : List ℕ) (stop : ℕ) → Segment next p xs stop → Distinct xs
Segment-Distinct next p [] stop h = tt
Segment-Distinct next p (x ∷ xs) stop h = (
  Segment-NotMem next (next x) xs stop x (x ∷ xs) h.2 (refl, h.1, h.2) (omega arith),
  Segment-Distinct next (next x) xs stop h.2,
)

-- The end is reached within the chain's length.
pub Segment-stop-NotMem :
    (next : ℕ → ℕ) (p : ℕ) (xs : List ℕ) (stop : ℕ) → Segment next p xs stop → NotMem stop xs
Segment-stop-NotMem next p [] stop h = tt
Segment-stop-NotMem next p (x ∷ xs) stop h =
    (λ e. h.1 (sym e), Segment-stop-NotMem next (next x) xs stop h.2)

-- A segment is kept where all links but that of one foreign awaiter are.
pub Segment-agree :
    (next next' : ℕ → ℕ) (a p : ℕ) (xs : List ℕ) (stop : ℕ)
    → ((q : ℕ) → q ≢ a → next' q ≡ next q)
    → NotMem a xs
    → Segment next p xs stop
    → Segment next' p xs stop
Segment-agree next next' a p [] stop f n s = s
Segment-agree next next' a p (x ∷ xs) stop f n s =
    (s.0, s.1, rw (f x (λ e. n.0 (sym e))) (Segment-agree next next' a (next x) xs stop f n.1 s.2))
