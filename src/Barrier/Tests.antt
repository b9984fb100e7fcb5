-- ===== src/Barrier/Tests.antt =====
-- Examples for the barrier.
use coroutines_classes.Prelude.{
  ℕ, ◌+◌, ◌<◌, ◌≤◌, ◌≡◌, ◌⊎◌, refl, [], ◌∷◌, ◌++◌, some, true, false, arith, update,
}
use coroutines_classes.Awaiter.{Chains, null, resume_chain_lk}
use coroutines_classes.Awaiter.Segment.{Segment}
use coroutines_classes.Awaiter.Resume.{KeepsLinks}
use coroutines_classes.Barrier.{Barrier, subscribe_awaiter, pick, after_pick}
use coroutines_classes.Barrier.Arrival.{subscribe_awaiter-alone}

-- An awaiter whose `resume` does nothing to the chains.
abbrev inert : ℕ → Chains → Chains
inert y c = c

inert-KeepsLinks : KeepsLinks inert
inert-KeepsLinks = record { links = λ y c q n. refl; quiet = λ y c. refl }

inert-head : (y : ℕ) (c : Chains) → (inert y c).head ≡ c.head
inert-head y c = refl

-- A barrier for three, at which 11 and 10 wait.
abbrev two_wait : Barrier
two_wait = record {
  count = 3;
  chains = record { next = update (λ _. null) 11 10; head = 11; log = [] };
}

subscribe_awaiter-alone_example :
    (b : Barrier) × (b.count ≡ two_wait.count)
    × (((2 + 1 < two_wait.count)
          × (subscribe_awaiter inert 6 12 two_wait ≡ some (b, true))
          × Segment b.chains.next b.chains.head (12 ∷ 11 ∷ 10 ∷ []) null
          × (b.chains.log ≡ two_wait.chains.log))
        ⊎ ((two_wait.count ≤ 2 + 1)
            × (subscribe_awaiter inert 6 12 two_wait ≡ some (b, false))
            × (b.chains.head ≡ null)
            × (b.chains.log ≡ two_wait.chains.log ++ 11 ∷ 10 ∷ [])))
subscribe_awaiter-alone_example =
    subscribe_awaiter-alone inert inert-KeepsLinks inert-head 6 12 two_wait (11 ∷ 10 ∷ [])
      (omega arith) (omega arith) (omega arith) (omega arith) (omega arith)

-- Two awaiters come to a barrier for two. The first takes the empty chain; the second comes and waits;
-- the first goes on, subscribes the second again, and both are resumed.
abbrev for_two : Barrier
for_two = record { count = 2; chains = record { next = λ _. null; head = null; log = [] } }

subscribe_awaiter-overlap :
    (b1 b2 : Barrier) × (subscribe_awaiter inert 5 21 (pick 20 for_two).0 ≡ some (b1, true))
    × (after_pick inert 9 20 null b1 ≡ some (b2, true))
    × (b2.chains.log ≡ 20 ∷ 21 ∷ [])
unfolding subscribe_awaiter resume_chain_lk
subscribe_awaiter-overlap = (_, _, refl, refl, refl)
