-- ===== src/Barrier/Arrival.antt =====
-- An arrival at a barrier of barrier.h while no other thread comes between.
use coroutines_classes.Prelude.{
  ℕ, zero, suc, ◌+◌, ◌^◌, ◌<◌, ◌≤◌, ◌≡◌, ◌≢◌, ◌⊎◌, inl, inr, refl, sym, ap, subst, ◌∙◌, some, true,
  false, List, [], ◌∷◌, ◌++◌, length, arith, NotMem, ltb,
}
use native.Mathlib.Decide.{dec_lt}
use coroutines_classes.Awaiter.{Chains, null}
use coroutines_classes.Awaiter.Segment.{Segment, Segment-update, Segment-Distinct}
use coroutines_classes.Awaiter.Resume.{
  KeepsLinks, resume_chain_lk-loop, resume_chain_lk-head, woken-all,
}
use coroutines_classes.Barrier.{
  Barrier, add32, get_count, pick, put_back, release_picked, subscribe_awaiter, after_pick,
  subscribe_again,
}

get_count-Segment :
    (fuel x cnt : ℕ) (c : Chains) (xs : List ℕ)
    → length xs < fuel
    → cnt + length xs < 2 ^ 32
    → Segment c.next x xs null
    → get_count fuel x cnt c ≡ some (cnt + length xs)
unfolding get_count
get_count-Segment zero x cnt c xs lt w s = elim lt [ ]
get_count-Segment (suc fuel) x cnt c [] lt w s = ground arith
get_count-Segment (suc fuel) x cnt c (y ∷ ys) lt w s = ground (
  arith,
  get_count-Segment fuel (c.next x) (add32 cnt 1) c ys (omega arith) (omega arith) (rw s.0 s.2),
)

module _ (wake : ℕ → Chains → Chains) (keeps : KeepsLinks wake)
    (still : (y : ℕ) (c : Chains) → (wake y c).head ≡ c.head) where
  release_picked-all :
      (fuel x : ℕ) (b : Barrier) (xs : List ℕ)
      → length xs < fuel
      → Segment b.chains.next x xs null
      → (b' : Barrier) × (release_picked wake fuel x b ≡ some b')
        × (b'.chains.head ≡ b.chains.head)
        × (b'.chains.log ≡ b.chains.log ++ xs)
        × (b'.count ≡ b.count)
  unfolding release_picked
  release_picked-all fuel x b xs lt s =
      let (c, run, log) =
        resume_chain_lk-loop wake keeps fuel x null 0 b.chains xs lt
          (Segment-Distinct b.chains.next x xs null s) s in
      (
        record b { chains = c },
        rw run refl,
        resume_chain_lk-head wake keeps still fuel x null 0 b.chains _ c run,
        log ∙ ap (◌++◌ b.chains.log) (woken-all wake keeps b.chains.next x xs s),
        refl,
      )

  after_pick-few :
      (fuel aw x n : ℕ) (b b' : Barrier)
      → get_count fuel x 0 b.chains ≡ some n
      → ltb (add32 n 1) b.count ≡ true
      → subscribe_again wake fuel (put_back aw x b).1 (put_back aw x b).0 ≡ some b'
      → after_pick wake (suc fuel) aw x b ≡ some (b', true)
  unfolding after_pick
  after_pick-few fuel aw x n b b' counted few run = rw (counted, few, run) refl

  after_pick-many :
      (fuel aw x n : ℕ) (b b' : Barrier)
      → get_count fuel x 0 b.chains ≡ some n
      → ltb (add32 n 1) b.count ≡ false
      → release_picked wake fuel x b ≡ some b'
      → after_pick wake (suc fuel) aw x b ≡ some (b', false)
  unfolding after_pick
  after_pick-many fuel aw x n b b' counted many run = rw (counted, many, run) refl

  subscribe_awaiter-after_pick :
      (fuel aw : ℕ) (b : Barrier)
      → subscribe_awaiter wake (suc fuel) aw b ≡ after_pick wake fuel aw b.chains.head (pick aw b).0
  unfolding subscribe_awaiter pick
  subscribe_awaiter-after_pick fuel aw b = refl

  subscribe_again-null : (fuel : ℕ) (b : Barrier) → subscribe_again wake (suc fuel) null b ≡ some b
  unfolding subscribe_again
  subscribe_again-null fuel b = refl

  -- An awaiter comes to a barrier where those of `xs` wait, and no thread comes between. If it does not
  -- bring their number up to the count, it waits in front of them; else it goes on, and each of them is
  -- resumed once. Fuel above the number of those who wait is enough, but for a constant. The resumed
  -- code may change only the link of its own awaiter.
  pub subscribe_awaiter-alone :
      (fuel aw : ℕ) (b : Barrier) (xs : List ℕ)
      → length xs + 3 < fuel
      → length xs + 1 < 2 ^ 32
      → aw ≢ null
      → NotMem aw xs
      → Segment b.chains.next b.chains.head xs null
      → (b' : Barrier) × (b'.count ≡ b.count)
        × (((length xs + 1 < b.count)
              × (subscribe_awaiter wake fuel aw b ≡ some (b', true))
              × Segment b'.chains.next b'.chains.head (aw ∷ xs) null
              × (b'.chains.log ≡ b.chains.log))
            ⊎ ((b.count ≤ length xs + 1)
                × (subscribe_awaiter wake fuel aw b ≡ some (b', false))
                × (b'.chains.head ≡ null)
                × (b'.chains.log ≡ b.chains.log ++ xs)))
  unfolding pick put_back
  subscribe_awaiter-alone zero aw b xs lt w n new s = absurd (omega arith)
  subscribe_awaiter-alone (suc zero) aw b xs lt w n new s = absurd (omega arith)
  subscribe_awaiter-alone (suc (suc zero)) aw b xs lt w n new s = absurd (omega arith)
  subscribe_awaiter-alone (suc (suc (suc fuel))) aw b xs lt w n new s =
      let x = b.chains.head in
      let b1 : Barrier = (pick aw b).0 in
      let b2 : Barrier = (put_back aw x b1).0 in
      let picked = Segment-update b.chains.next aw null x xs null new s in
      let placed = Segment-update b1.chains.next aw x x xs null new picked in
      let counted : get_count (suc fuel) x 0 b1.chains ≡ some (length xs) =
        get_count-Segment (suc fuel) x 0 b1.chains xs (omega arith) (omega arith) picked
        ∙ ap (λ (k : ℕ). some k) (omega arith) in
      let here : b2.chains.next aw ≡ x = ground arith in
      let (b3, run, head, log, same) = release_picked-all (suc fuel) x b1 xs (omega arith) picked in
      elim (dec_lt (length xs + 1) b.count) [
        | yes few ↦ (
          b2,
          refl,
          inl (
            few,
            subscribe_awaiter-after_pick (suc (suc fuel)) aw b
                ∙ after_pick-few (suc fuel) aw x (length xs) b1 b2 counted (ground arith)
                    (subscribe_again-null fuel b2),
            (refl, n, subst (λ p. Segment b2.chains.next p xs null) (sym here) placed),
            refl,
          ),
        )
        | no many ↦ (
          b3,
          same,
          inr (
            omega arith,
            subscribe_awaiter-after_pick (suc (suc fuel)) aw b
                ∙ after_pick-many (suc fuel) aw x (length xs) b1 b3 counted (ground arith) run,
            head,
            log,
          ),
        )
      ]
