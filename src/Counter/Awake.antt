-- ===== src/Counter/Awake.antt =====
-- Threads that use a counter of counter.h at the same time: no awaiter is left behind.
use coroutines_classes.Prelude.{
  ℕ, suc, ◌+◌, ◌-◌, ◌^◌, ◌<◌, ◌≤◌, ◌≡◌, ◌≢◌, ◌⊎◌, inl, inr, refl, some, Bool, true, false, ◌==◌,
  List, arith, Bool-cases, Option-cases, ◌↔◌, add64, sub64, ◌∙◌, ap, sym, if◌then◌else◌,
}
use native.Mathlib.Decide.{ℕ_discrete}
use coroutines_classes.Awaiter.{Chains, null, resume_chain}
use coroutines_classes.Awaiter.Resume.{KeepsLinks, resume_chain_lk-head}
use coroutines_classes.Counter.{
  Counter, not_positive, initial, increment, count_down, add_difference, enter, release,
  check_count,
}

-- `checking` threads have subscribed and not looked at the count yet; `releasing` threads have
-- brought it to a value that is not positive, and are about to resume the chain.
pub record World : Type 0 where
  pub counter : Counter
  pub checking : ℕ
  pub releasing : ℕ

module _ (wake : ℕ → Chains → Chains) where
  -- One step of one thread. An increment is below the greatest `long`.
  pub data Step : World → World → Type 0 where
    increments :
        (w : World)
        → w.counter.count ≢ 2 ^ 63 - 1
        → Step w (record w { counter = (increment w.counter).0 })
    counts_down :
        (w : World)
        → Step w (record w {
          counter = (count_down w.counter).0;
          releasing = if (count_down w.counter).1 == 0 then w.releasing + 1 else w.releasing;
        })
    adds :
        (w : World) (diff : ℕ)
        → Step w (record w {
          counter = (add_difference diff w.counter).0;
          releasing = if (add_difference diff w.counter).1 then w.releasing + 1 else w.releasing;
        })
    enters :
        (w : World) (rounds : List Bool) (a : ℕ) (c : Counter)
        → enter rounds a w.counter ≡ some c
        → Step w (record w { counter = c; checking = w.checking + 1 })
    checks :
        (w : World) (fuel n : ℕ) (c : Counter)
        → w.checking ≡ suc n
        → check_count wake fuel w.counter ≡ some c
        → Step w (record w { counter = c; checking = n })
    releases :
        (w : World) (fuel n : ℕ) (c : Counter)
        → w.releasing ≡ suc n
        → release wake fuel w.counter ≡ some c
        → Step w (record w { counter = c; releasing = n })

  pub data Steps : World → World → Type 0 where
    done : (w : World) → Steps w w
    more : (w w1 w2 : World) → Step w w1 → Steps w1 w2 → Steps w w2

-- Nobody waits, or the count is positive, or a thread is on its way that resumes those who wait.
abbrev pub IsAwake : World → Type 0
IsAwake w =
    (w.counter.chains.head ≡ null)
    ⊎ ((not_positive w.counter.count ≡ false) ⊎ (1 ≤ w.checking + w.releasing))

pub positive_iff : (x : ℕ) → (not_positive x ≡ false) ↔ ((1 ≤ x) × (x < 2 ^ 63))
positive_iff x = (λ h. ground arith, λ h. ground arith)

some-Counter : (c c' : Counter) → some c ≡ some c' → c ≡ c'
some-Counter c c' e = cc

sub64-positive :
    (x : ℕ)
    → not_positive x ≡ false
    → (not_positive (sub64 x 1) ≡ false) ⊎ ((sub64 x 1 == 0) ≡ true)
sub64-positive x h =
    let (low, high) = (positive_iff x).0 h in
    elim (ℕ_discrete x 1) [
      | yes e ↦ inr (ground arith)
      | no n ↦ inl ((positive_iff (sub64 x 1)).1 (omega arith, omega arith))
    ]

add64-positive :
    (x : ℕ) → x ≢ 2 ^ 63 - 1 → not_positive x ≡ false → not_positive (add64 x 1) ≡ false
add64-positive x b h =
    let (low, high) = (positive_iff x).0 h in
    (positive_iff (add64 x 1)).1 (omega arith, omega arith)

module _ (wake : ℕ → Chains → Chains) (keeps : KeepsLinks wake)
    (still : (y : ℕ) (b : Chains) → (wake y b).head ≡ b.head) where
  pub release-empty :
      (fuel : ℕ) (c c' : Counter) → release wake fuel c ≡ some c' → c'.chains.head ≡ null
  unfolding release resume_chain
  release-empty fuel c c' e = elim (Option-cases (resume_chain wake fuel null c.chains)) [
    | inl f ↦ absurd (ground (arith, f))
    | inr ((n, b), f) ↦
        ap (λ (d : Counter). d.chains.head)
          (some-Counter c' (record c { chains = b }) (sym (rw f at e)))
        ∙ resume_chain_lk-head wake keeps still fuel c.chains.head null 0
            (record c.chains { head = null }) n b f
  ]

  check-empty :
      (fuel : ℕ) (c c' : Counter)
      → check_count wake fuel c ≡ some c'
      → (c'.chains.head ≡ null) ⊎ (not_positive c'.count ≡ false)
  unfolding check_count
  check-empty fuel c c' e = elim (Bool-cases (not_positive c.count)) [
    | inl low ↦ inl (release-empty fuel c c' ((rw low at e)))
    | inr high ↦
        inr (
          ap (λ (d : Counter). not_positive d.count) (some-Counter c' c (sym (rw high at e)))
          ∙ high)
  ]

  Step-IsAwake : (w w' : World) → Step wake w w' → IsAwake w → IsAwake w'
  unfolding increment count_down add_difference enter
  Step-IsAwake w w' (increments _ b) (inl h) = inl h
  Step-IsAwake w w' (increments _ b) (inr (inl h)) = inr (inl (add64-positive w.counter.count b h))
  Step-IsAwake w w' (increments _ b) (inr (inr h)) = inr (inr h)
  Step-IsAwake w w' (counts_down _) (inl h) = inl h
  Step-IsAwake w w' (counts_down _) (inr (inl h)) = elim (sub64-positive w.counter.count h) [
    | inl p ↦ inr (inl p)
    | inr z ↦ inr (inr (rw z (omega arith)))
  ]
  Step-IsAwake w w' (counts_down _) (inr (inr h)) = inr (inr (ground arith))
  Step-IsAwake w w' (adds _ diff) (inl h) = inl h
  Step-IsAwake w w' (adds _ diff) (inr h) =
      elim (Bool-cases (not_positive (add64 w.counter.count diff))) [
        | inl e ↦ inr (inr (rw e (omega arith)))
        | inr e ↦ inr (inl e)
      ]
  Step-IsAwake w w' (enters _ rounds a c e) h = inr (inr (omega arith))
  Step-IsAwake w w' (checks _ fuel n c e run) h = elim (check-empty fuel w.counter c run) [
    | inl p ↦ inl p
    | inr p ↦ inr (inl p)
  ]
  Step-IsAwake w w' (releases _ fuel n c e run) h = inl (release-empty fuel w.counter c run)

  Steps-IsAwake : (w w' : World) → Steps wake w w' → IsAwake w → IsAwake w'
  Steps-IsAwake w w' (done _) h = h
  Steps-IsAwake w w' (more _ w1 _ s rest) h = Steps-IsAwake w1 w' rest (Step-IsAwake w w1 s h)

  -- However the steps of the threads that count, set the value and wait are interleaved, from a
  -- counter on which nobody waits: when no thread is in the middle of an operation and the count is
  -- not positive, nobody waits. Increments do not go over the greatest `long`, and the resumed code
  -- leaves the head of the chain alone.
  pub Steps-nobody_left :
      (count : ℕ) (next : ℕ → ℕ) (w : World)
      → Steps wake (record { counter = initial count next; checking = 0; releasing = 0 }) w
      → w.checking + w.releasing ≡ 0
      → not_positive w.counter.count ≡ true
      → w.counter.chains.head ≡ null
  Steps-nobody_left count next w steps idle low = elim (Steps-IsAwake _ w steps (inl refl)) [
    | inl e ↦ e
    | inr (inl p) ↦ absurd (ground (arith, p, low))
    | inr (inr p) ↦ absurd (omega (arith, p, idle))
  ]
