-- ===== src/Mutex/Session.antt =====
-- Whole histories of a mutex of mutex.h: the calls of `lock` and `unlock` of any number of coroutines.
use coroutines_classes.Prelude.{
  ℕ, suc, ◌+◌, ◌≡◌, ◌≢◌, refl, sym, ap, ◌∙◌, List, [], ◌∷◌, ◌++◌, Option, some, Bool, if◌then◌else◌,
  ◌>>=◌, ◌≤◌, ◌<◌, NotMem, length, arith, append-nil, append_assoc, length-append,
}
use coroutines_classes.Awaiter.{null}
use coroutines_classes.Awaiter.Subscribe.{honest}
use coroutines_classes.Mutex.{Mutex, doorman, lock, unlock}
use coroutines_classes.Mutex.Repr.{Free}
use coroutines_classes.Mutex.Fifo.{
  Lock, free, held, Implements, line, lock_spec, unlock_spec, lock-Implements, unlock-Implements,
}

pub data Op : Type 0 where
  locks : List Bool → ℕ → Op
  unlocks : ℕ → Op

-- The mutex, and those that got the lock, in order.
pub record Session : Type 0 where
  pub mutex : Mutex
  pub entered : List ℕ

-- What one operation resumes stands in the log of the mutex, which is emptied before it.
abbrev pub quiet : Mutex → Mutex
quiet m = record m { chains = record m.chains { log = [] } }

-- A coroutine that need not wait has the lock, and so has one that is resumed.
unfoldable pub step : ℕ → Op → Session → Option Session
step fuel (locks rounds a) s = do
  (m, waits) ← lock rounds fuel a (quiet s.mutex)
  some (record { mutex = m; entered = if waits then s.entered else s.entered ++ a ∷ [] })
step fuel (unlocks n) s = do
  m ← unlock n (quiet s.mutex)
  some (record { mutex = m; entered = s.entered ++ m.log })

unfoldable pub run : ℕ → List Op → Session → Option Session
run fuel [] s = some s
run fuel (op ∷ ops) s = do s' ← step fuel op s; run fuel ops s'

abbrev pub requests : List Op → List ℕ
requests [] = []
requests (locks rounds a ∷ ops) = a ∷ requests ops
requests (unlocks n ∷ ops) = requests ops

abbrev pub releases : List Op → ℕ
releases [] = 0
releases (locks rounds a ∷ ops) = releases ops
releases (unlocks n ∷ ops) = suc (releases ops)

abbrev pub owners : Lock → ℕ
owners free = 0
owners (held ws) = 1

-- Who locks is a real awaiter that does not wait, and who unlocks has the lock. Each operation has
-- enough rounds and fuel.
pub data Allowed : Lock → List Op → Lock → Type 0 where
  stay : (l : Lock) → Allowed l [] l
  then_lock :
      (rounds : List Bool) (a : ℕ) (l l' : Lock) (ops : List Op)
      → 2 ≤ honest rounds
      → a ≢ null
      → a ≢ doorman
      → NotMem a (line l)
      → Allowed (lock_spec a l).0 ops l'
      → Allowed l (locks rounds a ∷ ops) l'
  then_unlock :
      (n : ℕ) (ws : List ℕ) (l' : Lock) (ops : List Op)
      → length ws < n
      → Allowed (unlock_spec ws).0 ops l'
      → Allowed (held ws) (unlocks n ∷ ops) l'

quiet-Implements : (m : Mutex) (l : Lock) → Implements m l → Implements (quiet m) l
quiet-Implements m free f = record { no_request = f.no_request; no_queue = f.no_queue }
quiet-Implements m (held ws) (qs, rs, h, e) = (
  qs,
  rs,
  record { queued = h.queued; requested = h.requested; apart = h.apart; real = h.real },
  e,
)

-- From `s` and `l` the operations lead to `s'` and `l'`.
pub record Leads (fuel : ℕ) (ops : List Op) (s : Session) (l l' : Lock) : Type 0 where
  pub session : Session
  pub runs : run fuel ops s ≡ some session
  pub stands : Implements session.mutex l'
  pub order : session.entered ++ line l' ≡ (s.entered ++ line l) ++ requests ops
  pub balance : length session.entered + owners l ≡ length s.entered + releases ops + owners l'

step-lock :
    (fuel a : ℕ) (rounds : List Bool) (s : Session) (l : Lock)
    → 2 ≤ honest rounds
    → a ≢ null
    → a ≢ doorman
    → NotMem a (line l)
    → Implements s.mutex l
    → (s' : Session) × (step fuel (locks rounds a) s ≡ some s')
      × Implements s'.mutex (lock_spec a l).0
      × (s'.entered ++ line (lock_spec a l).0 ≡ (s.entered ++ line l) ++ a ∷ [])
      × (length s'.entered + owners l ≡ length s.entered + 1)
unfolding step
step-lock fuel a rounds s free enough n d nm h =
    let (m', run, h', _) =
      lock-Implements rounds fuel a (quiet s.mutex) free enough n d nm
        (quiet-Implements s.mutex free h) in
    (
      record { mutex = m'; entered = s.entered ++ a ∷ [] },
      rw run refl,
      h',
      append-nil _ ∙ ap (λ z. z ++ a ∷ []) (sym (append-nil s.entered)),
      omega (arith, length-append s.entered (a ∷ [])),
    )
step-lock fuel a rounds s (held ws) enough n d nm h =
    let (m', run, h', _) =
      lock-Implements rounds fuel a (quiet s.mutex) (held ws) enough n d nm
        (quiet-Implements s.mutex (held ws) h) in
    (
      record { mutex = m'; entered = s.entered },
      rw run refl,
      h',
      sym (append_assoc s.entered ws (a ∷ [])),
      refl,
    )

step-unlock :
    (fuel n : ℕ) (s : Session) (ws : List ℕ)
    → length ws < n
    → Implements s.mutex (held ws)
    → (s' : Session) × (step fuel (unlocks n) s ≡ some s')
      × Implements s'.mutex (unlock_spec ws).0
      × (s'.entered ++ line (unlock_spec ws).0 ≡ s.entered ++ ws)
      × (length s'.entered ≡ length s.entered + owners (unlock_spec ws).0)
unfolding step
step-unlock fuel n s [] lt h =
    let (m', run, h', log) =
      unlock-Implements n (quiet s.mutex) [] lt (quiet-Implements s.mutex (held []) h) in
    (
      record { mutex = m'; entered = s.entered ++ m'.log },
      rw run refl,
      h',
      append-nil _ ∙ ap (λ z. s.entered ++ z) log,
      omega (arith, length-append s.entered m'.log, ap length log),
    )
step-unlock fuel n s (w ∷ ws) lt h =
    let (m', run, h', log) =
      unlock-Implements n (quiet s.mutex) (w ∷ ws) lt
        (quiet-Implements s.mutex (held (w ∷ ws)) h) in
    (
      record { mutex = m'; entered = s.entered ++ m'.log },
      rw run refl,
      h',
      ap (λ z. (s.entered ++ z) ++ ws) log ∙ append_assoc s.entered (w ∷ []) ws,
      omega (arith, length-append s.entered m'.log, ap length log),
    )

owners-lock : (a : ℕ) (l : Lock) → owners (lock_spec a l).0 ≡ 1
owners-lock a free = refl
owners-lock a (held ws) = refl

run-Leads :
    (fuel : ℕ) (ops : List Op) (s : Session) (l l' : Lock)
    → Allowed l ops l'
    → Implements s.mutex l
    → Leads fuel ops s l l'
unfolding run
run-Leads fuel _ s _ _ (stay l) h = record {
  session = s;
  runs = refl;
  stands = h;
  order = sym (append-nil _);
  balance = omega arith;
}
run-Leads fuel _ s _ l' (then_lock rounds a l _ ops enough n d nm later) h =
    let (s1, go, h1, o1, b1) = step-lock fuel a rounds s l enough n d nm h in
    let rest = run-Leads fuel ops s1 (lock_spec a l).0 l' later h1 in
    record {
      session = rest.session;
      runs = rw (run, go) rest.runs;
      stands = rest.stands;
      order =
          rest.order
          ∙ ap (λ z. z ++ requests ops) o1
          ∙ append_assoc (s.entered ++ line l) (a ∷ []) (requests ops);
      balance = omega (arith, rest.balance, b1, owners-lock a l);
    }
run-Leads fuel _ s _ l' (then_unlock n ws _ ops lt later) h =
    let (s1, go, h1, o1, b1) = step-unlock fuel n s ws lt h in
    let rest = run-Leads fuel ops s1 (unlock_spec ws).0 l' later h1 in
    record {
      session = rest.session;
      runs = rw (run, go) rest.runs;
      stands = rest.stands;
      order = rest.order ∙ ap (λ z. z ++ requests ops) o1;
      balance = omega (arith, rest.balance, b1);
    }

-- Mutual exclusion and order, over whole histories. From a mutex that is free, in each allowed
-- history: every call succeeds; those who got the lock, and after them those who wait, are those
-- who asked for it, in the order in which they asked; and those who got it are as many as were
-- released, and one more while the lock is held, so no two have it at once.
pub run-fair :
    (fuel : ℕ) (ops : List Op) (m : Mutex) (l : Lock)
    → Free m
    → Allowed free ops l
    → (s : Session) × (run fuel ops (record { mutex = m; entered = [] }) ≡ some s)
      × Implements s.mutex l
      × (s.entered ++ line l ≡ requests ops)
      × (length s.entered ≡ releases ops + owners l)
run-fair fuel ops m l f allowed =
    let life = run-Leads fuel ops (record { mutex = m; entered = [] }) free l allowed f in
    (life.session, life.runs, life.stands, life.order, omega (arith, life.balance))
