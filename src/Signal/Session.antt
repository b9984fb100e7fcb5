-- ===== src/Signal/Session.antt =====
-- The life of a signal of signal.h: it emits values, and is then destroyed.
use coroutines_classes.Prelude.{
  ℕ, ◌+◌, ◌<◌, ◌≤◌, none, ◌≡◌, refl, sym, ◌∙◌, ap, List, [], ◌∷◌, ◌++◌, Option, some, Bool, true,
  false, if◌then◌else◌, ◌>>=◌, length, arith, Bool-cases, inl, inr, ◌==◌,
}
use coroutines_classes.Awaiter.{Chains, null}
use coroutines_classes.Awaiter.Segment.{Segment}
use coroutines_classes.Awaiter.Subscribe.{honest}
use coroutines_classes.Signal.{State, emit, destroy, await_resume}
use coroutines_classes.Signal.Emission.{rejoin, emit-calls, destroy-calls}

abbrev pub count : ℕ → List ℕ → ℕ
count x [] = 0
count x (y ∷ ys) = (if x == y then 1 else 0) + count x ys

count-append : (x : ℕ) (xs ys : List ℕ) → count x (xs ++ ys) ≡ count x xs + count x ys
count-append x [] ys = omega arith
count-append x (z ∷ xs) ys = ground (arith, count-append x xs ys)

count-rejoin :
    (stays : ℕ → Bool) (x : ℕ) (xs ys : List ℕ)
    → count x (rejoin stays xs ys) ≡ (if stays x then count x xs else 0) + count x ys
count-rejoin stays x [] ys = ground arith
count-rejoin stays x (z ∷ xs) ys = elim (Bool-cases (x == z)) [
  | inl e ↦
      let same : x ≡ z = ground arith in
      rw (sym same) (ground (arith, count-rejoin stays x xs (if stays x then x ∷ ys else ys)))
  | inr e ↦ ground (arith, count-rejoin stays x xs (if stays z then z ∷ ys else ys))
]

kept :
    (stays : ℕ → Bool) (x : ℕ) (xs : List ℕ)
    → stays x ≡ true
    → count x (rejoin stays xs []) ≡ count x xs
kept stays x xs e = count-rejoin stays x xs [] ∙ rw e (omega arith)

gone : (stays : ℕ → Bool) (x : ℕ) (xs : List ℕ) → stays x ≡ false → count x (rejoin stays xs []) ≡ 0
gone stays x xs e = count-rejoin stays x xs [] ∙ rw e (omega arith)

length-rejoin :
    (stays : ℕ → Bool) (xs ys : List ℕ) → length (rejoin stays xs ys) ≤ length xs + length ys
length-rejoin stays [] ys = omega arith
length-rejoin stays (x ∷ xs) ys = elim (Bool-cases (stays x)) [
  | inl e ↦ rw e (omega (arith, length-rejoin stays xs (x ∷ ys)))
  | inr e ↦ rw e (omega (arith, length-rejoin stays xs ys))
]

-- What a listener is resumed with: each awaiter of `xs`, and what `await_resume` gives it.
abbrev pub given {ℓ} : {A : Type ℓ} → Option A → List ℕ → List (ℕ × Option A)
given o [] = []
given o (x ∷ xs) = (x, o) ∷ given o xs

-- What the listener `x` is resumed with, in order.
abbrev pub heard {ℓ} : {A : Type ℓ} → ℕ → List (ℕ × Option A) → List (Option A)
heard x [] = []
heard x ((y, o) ∷ t) = if x == y then o ∷ heard x t else heard x t

-- The values with which the function of a listener is called: it is not called where `await_resume`
-- throws, and the awaiter is then deleted.
abbrev pub values {ℓ} : {A : Type ℓ} → List (Option A) → List A
values [] = []
values (some v ∷ os) = v ∷ values os
values (none ∷ os) = values os

-- The elements of `ys` that are not those of `xs`, which it begins with.
abbrev pub since : List ℕ → List ℕ → List ℕ
since [] ys = ys
since (x ∷ xs) [] = []
since (x ∷ xs) (y ∷ ys) = since xs ys

since-append : (xs ys : List ℕ) → since xs (xs ++ ys) ≡ ys
since-append [] ys = refl
since-append (x ∷ xs) ys = since-append xs ys

-- The values that a function is to be called with: all until it does not stay.
abbrev pub takes {ℓ} : {A : Type ℓ} → (A → Bool) → List A → List A
takes f [] = []
takes f (v ∷ vs) = v ∷ (if f v then takes f vs else [])

-- What the awaiter of a listener is to be resumed with: these values, and, if it has stayed, the
-- end, where `await_resume` throws.
abbrev pub hears {ℓ} : {A : Type ℓ} → (A → Bool) → List A → List (Option A)
hears f [] = none ∷ []
hears f (v ∷ vs) = some v ∷ (if f v then hears f vs else [])

module _ {ℓ} {A : Type ℓ} (fn : ℕ → A → Bool) (rounds : List Bool) where
  -- The life of a signal: it emits the values and is destroyed. The result is the chain at the end,
  -- and what the awaiters were resumed with.
  unfoldable pub live : ℕ → List A → State A → Option (Chains × List (ℕ × Option A))
  unfolding emit destroy
  live fuel [] s = do
    c ← destroy fn rounds fuel s
    some (c, given (await_resume {A = A} none) (since s.chains.log c.log))
  live fuel (v ∷ vs) s = do
    s' ← emit fn rounds fuel v s
    (c, t) ← live fuel vs s'
    some (c, given (await_resume (some s')) (since s.chains.log s'.chains.log) ++ t)

module _ {ℓ} {A : Type ℓ} where
  heard-append : (x : ℕ) (t u : List (ℕ × Option A)) → heard x (t ++ u) ≡ heard x t ++ heard x u
  heard-append x [] u = refl
  heard-append x ((y, o) ∷ t) u = elim (Bool-cases (x == y)) [
    | inl e ↦ rw e (ap (λ z. o ∷ z) (heard-append x t u))
    | inr e ↦ rw e (heard-append x t u)
  ]

  heard-nothing : (x : ℕ) (o : Option A) (xs : List ℕ) → count x xs ≡ 0 → heard x (given o xs) ≡ []
  heard-nothing x o [] n = refl
  heard-nothing x o (y ∷ xs) n = elim (Bool-cases (x == y)) [
    | inl e ↦ absurd (ground (arith, n, e))
    | inr e ↦ rw e (heard-nothing x o xs (ground (arith, n, e)))
  ]

  heard-once : (x : ℕ) (o : Option A) (xs : List ℕ) → count x xs ≡ 1 → heard x (given o xs) ≡ o ∷ []
  heard-once x o [] n = absurd (omega (arith, n))
  heard-once x o (y ∷ xs) n = elim (Bool-cases (x == y)) [
    | inl e ↦ rw e (ap (λ z. o ∷ z) (heard-nothing x o xs (ground (arith, n, e))))
    | inr e ↦ rw e (heard-once x o xs (ground (arith, n, e)))
  ]

  values-hears : (f : A → Bool) (vs : List A) → values (hears f vs) ≡ takes f vs
  values-hears f [] = refl
  values-hears f (v ∷ vs) = elim (Bool-cases (f v)) [
    | inl e ↦ rw e (ap (λ z. v ∷ z) (values-hears f vs))
    | inr e ↦ rw e refl
  ]

-- The trace of a signal to which those of `xs` listen.
abbrev pub trace {ℓ} : {A : Type ℓ} → (ℕ → A → Bool) → List A → List ℕ → List (ℕ × Option A)
trace fn [] xs = given none xs
trace fn (v ∷ vs) xs = given (some v) xs ++ trace fn vs (rejoin (λ x. fn x v) xs [])

module _ {ℓ} {A : Type ℓ} (fn : ℕ → A → Bool) (rounds : List Bool)
    (enough : 2 ≤ honest rounds) where
  trace-nothing :
      (x : ℕ) (vs : List A) (xs : List ℕ) → count x xs ≡ 0 → heard x (trace fn vs xs) ≡ []
  trace-nothing x [] xs n = heard-nothing x none xs n
  trace-nothing x (v ∷ vs) xs n =
      heard-append x (given (some v) xs) _
      ∙ ap (λ z. z ++ heard x (trace fn vs (rejoin (λ y. fn y v) xs [])))
          (heard-nothing x (some v) xs n)
      ∙ trace-nothing x vs (rejoin (λ y. fn y v) xs []) (left v)
    where
      left : (v : A) → count x (rejoin (λ y. fn y v) xs []) ≡ 0
      left v = ground (arith, count-rejoin (λ y. fn y v) x xs [], n)

  trace-hears :
      (x : ℕ) (vs : List A) (xs : List ℕ)
      → count x xs ≡ 1
      → heard x (trace fn vs xs) ≡ hears (fn x) vs
  trace-hears x [] xs n = heard-once x none xs n
  trace-hears x (v ∷ vs) xs n =
      heard-append x (given (some v) xs) _
      ∙ ap (λ z. z ++ heard x (trace fn vs (rejoin (λ y. fn y v) xs [])))
          (heard-once x (some v) xs n)
      ∙ ap (λ z. some v ∷ z)
          (elim (Bool-cases (fn x v)) [
            | inl e ↦
                rw e (trace-hears x vs (rejoin (λ y. fn y v) xs []) (kept (λ y. fn y v) x xs e ∙ n))
            | inr e ↦
                rw e (trace-nothing x vs (rejoin (λ y. fn y v) xs []) (gone (λ y. fn y v) x xs e))
          ])

  live-trace :
      (fuel : ℕ) (vs : List A) (s : State A) (xs : List ℕ)
      → length xs < fuel
      → Segment s.chains.next s.chains.head xs null
      → (c : Chains) × (live fn rounds fuel vs s ≡ some (c, trace fn vs xs)) × (c.head ≡ null)
  unfolding live await_resume
  live-trace fuel [] s xs lt seg =
      let (c, run, log, nobody) = destroy-calls fn rounds enough fuel s xs lt seg in
      (c, rw (live, run, log, since-append s.chains.log xs) refl, nobody)
  live-trace fuel (v ∷ vs) s xs lt seg =
      let (s1, run1, cur, log1, seg1) = emit-calls fn rounds enough fuel v s xs lt seg in
      let (c, run, nobody) =
        live-trace fuel vs s1 (rejoin (λ x. fn x v) xs [])
          (omega (arith, length-rejoin (λ x. fn x v) xs [])) seg1 in
      (c, rw (live, run1, run, log1, since-append s.chains.log xs, cur) refl, nobody)

  -- The life of a signal to which those of `xs` listen, `x` among them once, with two rounds of
  -- each subscription that do not fail spuriously and fuel above the number of those who listen: it
  -- emits the values of `vs` and is destroyed. Both succeed, and nobody listens at the end. A
  -- function that was connected as `x` is called with the values in their order, each once, until
  -- it does not stay; it is not called for the end. An awaiter that has stayed after the last
  -- value is resumed once more, for the end, and `await_resume` then throws.
  pub live-turns :
      (fuel x : ℕ) (vs : List A) (s : State A) (xs : List ℕ)
      → length xs < fuel
      → Segment s.chains.next s.chains.head xs null
      → count x xs ≡ 1
      → (c : Chains) × (t : List (ℕ × Option A)) × (live fn rounds fuel vs s ≡ some (c, t))
        × (c.head ≡ null)
        × (heard x t ≡ hears (fn x) vs)
        × (values (heard x t) ≡ takes (fn x) vs)
  live-turns fuel x vs s xs lt seg n =
      let (c, run, nobody) = live-trace fuel vs s xs lt seg in
      let all = trace-hears x vs xs n in
      (c, trace fn vs xs, run, nobody, all, ap values all ∙ values-hears (fn x) vs)
