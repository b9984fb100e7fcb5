-- ===== src/Mutex/Race.antt =====
-- The window in `subscribe_awaiter` of mutex.h, between the subscription and the look at `_next`:
-- what other threads do there.
use coroutines_classes.Prelude.{
  ℕ, ◌≡◌, ◌≢◌, ◌≤◌, ◌<◌, refl, sym, ◌∙◌, ap, List, [], ◌∷◌, ◌++◌, NotMem, Option, some, arith, Bool,
  false, length, append-nil, zero, suc, update,
}
use coroutines_classes.Awaiter.{null}
use coroutines_classes.Awaiter.Subscribe.{honest, subscribe-Subscribed}
use coroutines_classes.Mutex.{
  Mutex, doorman, subscribe_request, check_request, unlock, ◌>>=◌, move_requests, build_queue,
  resume_first,
}
use coroutines_classes.Mutex.Repr.{Free, Held, Entering}
use coroutines_classes.Mutex.Steps.{
  subscribe_request-Free, subscribe_request-Entering, check_request-Entering,
}
use coroutines_classes.Mutex.Lists.{turn_onto, turn_onto-turn_onto, length-turn_onto}

-- Awaiters that subscribe one after the other.
pub visit : List Bool → List ℕ → Mutex → Option Mutex
visit rounds [] m = some m
visit rounds (b ∷ bs) m = subscribe_request rounds b m >>= visit rounds bs

-- None of them is a sentinel, `a`, or among `rs`, and none comes twice.
abbrev pub Visitors : ℕ → List ℕ → List ℕ → Type 0
Visitors a [] rs = Unit {0}
Visitors a (b ∷ bs) rs = (b ≢ null) × (b ≢ doorman) × NotMem b (a ∷ rs) × Visitors a bs (b ∷ rs)

visit-Entering :
    (rounds : List Bool) (bs : List ℕ) (a : ℕ) (m : Mutex) (rs : List ℕ)
    → 2 ≤ honest rounds
    → Visitors a bs rs
    → Entering m a rs
    → (m' : Mutex) × (visit rounds bs m ≡ some m')
      × Entering m' a (turn_onto bs rs)
      × (m'.log ≡ m.log)
unfolding visit
visit-Entering rounds [] a m rs h v en = (m, refl, en, refl)
visit-Entering rounds (b ∷ bs) a m rs h (n, d, nm, v) en =
    let (m1, run1, en1, log1) = subscribe_request-Entering rounds b a m rs h n d nm en in
    let (m2, run2, en2, log2) = visit-Entering rounds bs a m1 (b ∷ rs) h v en1 in
    (m2, rw run1 run2, en2, log2 ∙ log1)

length-turned : (bs : List ℕ) → length (turn_onto bs []) ≡ length bs
length-turned bs = omega (arith, length-turn_onto bs [])

turned-twice : (bs : List ℕ) → turn_onto (turn_onto bs []) [] ≡ bs
turned-twice bs = turn_onto-turn_onto bs [] [] ∙ append-nil bs

-- An awaiter that subscribes to a free mutex has the lock, also when others subscribe before it looks
-- at its link: it then finds that it is not to wait, nobody is resumed, and the others stand in the
-- queue in the order in which they came.
pub enter-Visitors :
    (rounds : List Bool) (fuel a : ℕ) (bs : List ℕ) (m : Mutex)
    → 2 ≤ honest rounds
    → length bs < fuel
    → a ≢ null
    → a ≢ doorman
    → Visitors a bs []
    → Free m
    → (m1 m2 m3 : Mutex) × (subscribe_request rounds a m ≡ some m1)
      × (visit rounds bs m1 ≡ some m2)
      × (check_request fuel a m2 ≡ some (m3, false))
      × Held m3 bs []
      × (m3.log ≡ m.log)
enter-Visitors rounds fuel a bs m h lt n d v f =
    let (m1, run1, en1, log1) = subscribe_request-Free rounds a m h n d f in
    let (m2, run2, en2, log2) = visit-Entering rounds bs a m1 [] h v en1 in
    let (m3, run3, hd, log3) =
      check_request-Entering fuel a m2 (turn_onto bs []) (rw (length-turned bs) lt) en2 in
    (m1, m2, m3, run1, run2, run3, rw (turned-twice bs) at hd, log3 ∙ log2 ∙ log1)

-- The mutex after `a`, the only one who waits, was resumed by `unlock`.
abbrev handed_over : ℕ → Mutex → Mutex
handed_over a m = record m {
  chains = record m.chains {
    next = update (update m.next a null) a null;
    head = doorman;
    log = m.log ++ a ∷ [];
  };
  queue = null;
}

unlock-only :
    (fuel a : ℕ) (m : Mutex)
    → 2 ≤ fuel
    → a ≢ null
    → a ≢ doorman
    → m.queue ≡ null
    → m.head ≡ a
    → m.next a ≡ doorman
    → unlock fuel m ≡ some (handed_over a m)
unfolding unlock build_queue move_requests resume_first
unlock-only zero a m lt n d q h e = absurd (omega arith)
unlock-only (suc zero) a m lt n d q h e = absurd (omega arith)
unlock-only (suc (suc fuel)) a m lt n d q h e = ground arith

check-stale :
    (fuel a : ℕ) (m : Mutex)
    → 2 ≤ fuel
    → a ≢ doorman
    → m.next a ≡ null
    → m.head ≡ doorman
    → m.next doorman ≡ null
    → (m' : Mutex) × (check_request fuel a m ≡ some (m', false)) × (m'.queue ≡ doorman)
unfolding check_request build_queue move_requests
check-stale zero a m lt d e h f = absurd (omega arith)
check-stale (suc zero) a m lt d e h f = absurd (omega arith)
check-stale (suc (suc fuel)) a m lt d e h f = (
  record m {
    chains = record m.chains { next = update m.next doorman m.queue; head = doorman };
    queue = doorman;
  },
  ground arith,
  refl,
)

-- A lost race: somebody holds the mutex and nobody waits; `a` subscribes, and the holder unlocks before
-- `a` looks at its link. `unlock` resumes `a`, and `a` itself finds that it is not to wait: it runs
-- twice, and the sentinel has got into the queue.
pub check_request-resumed_twice :
    (rounds : List Bool) (fuel a : ℕ) (m : Mutex)
    → 2 ≤ honest rounds
    → 2 ≤ fuel
    → a ≢ null
    → a ≢ doorman
    → m.next doorman ≡ null
    → Held m [] []
    → (m1 m2 m3 : Mutex) × (subscribe_request rounds a m ≡ some m1)
      × (unlock fuel m1 ≡ some m2)
      × (m2.log ≡ m.log ++ a ∷ [])
      × (check_request fuel a m2 ≡ some (m3, false))
      × (m3.queue ≡ doorman)
unfolding subscribe_request
check_request-resumed_twice rounds fuel a m h lt n d f hd =
    let (c', run, s) = subscribe-Subscribed rounds a m.chains h in
    let m1 : Mutex = record m { chains = c' } in
    let m2 : Mutex = handed_over a m1 in
    let (m3, run3, bad) =
      check-stale fuel a m2 lt d (ground arith) refl
        (ground (arith, s.others doorman (λ e. d (sym e)))) in
    (
      m1,
      m2,
      m3,
      ground (arith, run),
      unlock-only fuel a m1 lt n d hd.queued s.top (s.linked ∙ hd.requested),
      ap (λ l. l ++ a ∷ []) s.quiet,
      run3,
      bad,
    )
