-- ===== src/Awaiter/Tests.antt =====
-- Examples for the chains of awaiters.
use coroutines_classes.Prelude.{
  ℕ, ◌≡◌, ◌≢◌, refl, List, [], ◌∷◌, Option, some, Bool, true, false, update, arith,
}
use coroutines_classes.Awaiter.{Chains, null, disabled_addr, subscribe, resume_chain}
use coroutines_classes.Awaiter.Segment.{Segment}
use coroutines_classes.Awaiter.Resume.{KeepsLinks}

-- A chain of the awaiters 11 and 10.
abbrev two : Chains
two = record { next = update (λ _. null) 11 10; head = 11; log = [] }

two-Segment : Segment two.next two.head (11 ∷ 10 ∷ []) null
two-Segment = omega arith

abbrev closed : Chains
closed = record { next = λ _. null; head = disabled_addr; log = [] }

abbrev bumpy : List Bool
bumpy = false ∷ true ∷ true ∷ false ∷ []

-- The first round stores the head, two fail spuriously, the last one wins.
subscribe_run : (c : Chains) × (subscribe bumpy 12 two ≡ some c) × (c.head ≡ 12) × (c.next 12 ≡ 11)
unfolding subscribe
subscribe_run = (_, refl, refl, refl)

subscribe_short : subscribe (false ∷ []) 12 two ≡ Option.none
unfolding subscribe
subscribe_short = refl

-- An awaiter whose `resume` does nothing to the chains.
abbrev inert : ℕ → Chains → Chains
inert y c = c

inert-KeepsLinks : KeepsLinks inert
inert-KeepsLinks = record { links = λ y c q n. refl; quiet = λ y c. refl }

resume_run : (c : Chains) × (resume_chain inert 3 10 two ≡ some (2, c)) × (c.log ≡ 11 ∷ [])
unfolding resume_chain
resume_run = (_, refl, refl)

-- An awaiter that subscribes again as soon as it is resumed.
abbrev greedy : ℕ → Chains → Chains
greedy y c = record c { next = update c.next y c.head; head = y }

greedy-links : (y : ℕ) (c : Chains) (q : ℕ) → q ≢ y → (greedy y c).next q ≡ c.next q
greedy-links y c q n = ground arith

greedy-KeepsLinks : KeepsLinks greedy
greedy-KeepsLinks = record { links = greedy-links; quiet = λ y c. refl }
