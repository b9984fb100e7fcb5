-- ===== src/ThreadPool/Cases.antt =====
-- What a worker of thread_pool.h does when it gets the lock.
use coroutines_classes.Prelude.{
  ℕ, ◌≡◌, refl, ◌⊎◌, inl, inr, List, [], ◌∷◌, ◌++◌, some, true, false, if_true, if_false,
  Bool-cases, ◌||◌, not, arith, set,
}
use coroutines_classes.ThreadPool.{
  running, ended, ThreadPool, worker_take, take_front, worker_wait, asleep, is_empty,
}

pub some-ThreadPool : (p q : ThreadPool) → some p ≡ some q → p ≡ q
some-ThreadPool p q e = cc

abbrev pub leaves : ℕ → ThreadPool → ThreadPool
leaves i p = record p { threads = set p.threads i ended }

abbrev pub begins : ℕ → ℕ → List ℕ → ThreadPool → ThreadPool
begins i t ts p = record p {
  queue = ts;
  threads = set p.threads i (running t true);
  started = p.started ++ t ∷ [];
}

take_front-cases :
    (q : List ℕ) (i : ℕ) (p p' : ThreadPool)
    → take_front q i p ≡ some p'
    → (t : ℕ) × (ts : List ℕ) × (q ≡ t ∷ ts) × (begins i t ts p ≡ p')
unfolding take_front
take_front-cases [] i p p' e = absurd cc
take_front-cases (t ∷ ts) i p p' e = (t, ts, refl, some-ThreadPool _ p' e)

pub worker_take-cases :
    (i : ℕ) (p p' : ThreadPool)
    → worker_take i p ≡ some p'
    → ((p.exit ≡ true) × (leaves i p ≡ p'))
      ⊎ ((t : ℕ) × (ts : List ℕ) × (p.exit ≡ false) × (p.queue ≡ t ∷ ts) × (begins i t ts p ≡ p'))
unfolding worker_take
worker_take-cases i p p' e = elim (Bool-cases p.exit) [
  | inl x ↦ inl (x, some-ThreadPool _ p' (if_true p.exit _ _ x e))
  | inr x ↦
      let (t, ts, f, r) = take_front-cases p.queue i p p' (if_false p.exit _ _ x e) in
      inr (t, ts, x, f, r)
]

-- What a thread that goes to sleep has seen.
pub worker_wait-cases :
    (i : ℕ) (p p' : ThreadPool)
    → worker_wait i p ≡ some p'
    → (p.exit ≡ false) × (p.queue ≡ []) × (record p { threads = set p.threads i asleep } ≡ p')
unfolding worker_wait is_empty
worker_wait-cases i p p' e = elim (Bool-cases p.exit) [
  | inl x ↦ absurd (ground (arith, x))
  | inr x ↦ elim (empty-cases p.queue) [
    | inl f ↦ (
      x,
      f,
      some-ThreadPool _ p' (if_false (p.exit || not (is_empty p.queue)) _ _ (rw (x, f) refl) e),
    )
    | inr f ↦ absurd (ground (arith, x, f))
  ]
]
  where
    empty-cases : (q : List ℕ) → (q ≡ []) ⊎ (is_empty q ≡ false)
    empty-cases [] = inl refl
    empty-cases (t ∷ ts) = inr refl
