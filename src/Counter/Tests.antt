-- ===== src/Counter/Tests.antt =====
-- Examples for the counter.
use coroutines_classes.Prelude.{ℕ, ◌≡◌, refl, [], ◌∷◌, some, false, arith, update}
use coroutines_classes.Awaiter.{Chains, null, resume_chain, subscribe}
use coroutines_classes.Awaiter.Resume.{KeepsLinks}
use coroutines_classes.Counter.{Counter, initial, enter, release, check_count, count_down}
use coroutines_classes.Counter.Awake.{
  Steps, done, more, enters, checks, counts_down, releases, Steps-nobody_left,
}
use coroutines_classes.Counter.Whole.{
  Tally, decrements, Implements, use_counter, use_counter-Implements,
}

-- An awaiter whose `resume` does nothing to the chains.
abbrev inert : ℕ → Chains → Chains
inert y c = c

inert-KeepsLinks : KeepsLinks inert
inert-KeepsLinks = record { links = λ y c q n. refl; quiet = λ y c. refl }

inert-head : (y : ℕ) (b : Chains) → (inert y b).head ≡ b.head
inert-head y b = refl

abbrev nothing : ℕ → ℕ
nothing x = null

-- The awaiter 10 subscribes, another thread counts down from one to zero, the awaiter looks at the
-- count, and the other thread resumes the chain, which is empty by then.
abbrev entered : Counter
entered = record { count = 1; chains = record { next = nothing; head = 10; log = [] } }

abbrev left : Counter
left = record {
  count = 0;
  chains = record { next = update nothing 10 null; head = null; log = 10 ∷ [] };
}

overlapping :
    Steps inert
      (record { counter = initial 1 nothing; checking = 0; releasing = 0 })
      (record { counter = left; checking = 0; releasing = 0 })
unfolding enter subscribe count_down check_count release resume_chain
overlapping = more _ _ _ (enters _ (false ∷ []) 10 entered refl) (
    more _ _ _ (counts_down _) (
      more _ _ _ (checks _ 2 0 left refl refl)
        (more _ _ _ (releases _ 1 0 left refl refl) (done _))))

Steps-nobody_left_example : left.chains.head ≡ null
Steps-nobody_left_example =
    Steps-nobody_left inert inert-KeepsLinks inert-head 1 nothing
      (record { counter = left; checking = 0; releasing = 0 }) overlapping refl refl

abbrev two_wait : Counter
two_wait = record {
  count = 1;
  chains = record { next = update nothing 11 10; head = 11; log = [] };
}

abbrev two_tally : Tally
two_tally = record { count = 1; line = 11 ∷ 10 ∷ []; resumed = [] }

two_wait-Implements : Implements two_wait two_tally
two_wait-Implements = record { counted = refl; chained = omega arith; logged = refl }

use_counter-Implements_example :
    (c : Counter) × (use_counter inert (false ∷ false ∷ []) 4 decrements two_wait ≡ some c)
    × Implements c (record { count = 0; line = []; resumed = 11 ∷ 10 ∷ [] })
use_counter-Implements_example =
    use_counter-Implements inert inert-KeepsLinks inert-head (false ∷ false ∷ []) 4 decrements
      two_wait two_tally (omega arith) (omega arith) tt two_wait-Implements
