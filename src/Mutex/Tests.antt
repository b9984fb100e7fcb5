-- ===== src/Mutex/Tests.antt =====
-- Examples for the mutex.
use coroutines_classes.Prelude.{
  ◌++◌, length, ◌+◌, ◌≡◌, refl, List, [], ◌∷◌, some, Bool, true, false, update, arith,
}
use coroutines_classes.Awaiter.{null}
use coroutines_classes.Mutex.{Mutex, doorman, init, lock, unlock, subscribe_request, check_request}
use coroutines_classes.Mutex.Repr.{Held, Free-init}
use coroutines_classes.Mutex.Fifo.{free, held, Implements, lock-Implements, unlock-Implements}
use coroutines_classes.Mutex.Session.{
  Op, locks, unlocks, Session, run, Allowed, stay, then_lock, then_unlock, run-fair,
}
use coroutines_classes.Mutex.Race.{check_request-resumed_twice}

abbrev calm : List Bool
calm = false ∷ false ∷ []

-- Locked, and nobody waits.
abbrev locked : Mutex
locked = record { chains = record { next = λ _. null; head = doorman; log = [] }; queue = null }

locked-Held : Held locked [] []
locked-Held = record { queued = refl; requested = refl; apart = tt; real = tt }

-- Locked; 10 came first and 11 after it.
abbrev two_wait : Mutex
two_wait = record {
  chains = record { next = update (update (λ _. null) 11 10) 10 doorman; head = 11; log = [] };
  queue = null;
}

two_wait-Held : Held two_wait [] (11 ∷ 10 ∷ [])
two_wait-Held = record {
  queued = refl;
  requested = omega arith;
  apart = (tt, (tt, tt));
  real = omega arith;
}

-- 10 and 11 wait for the holder, which hands the lock to 10.
unlock_run :
    (m : Mutex) × (unlock 3 two_wait ≡ some m)
    × (m.queue ≡ 11)
    × (m.head ≡ doorman)
    × (m.log ≡ 10 ∷ [])
unfolding unlock
unlock_run = (_, refl, refl, refl, refl)

lock_run : (m : Mutex) × (lock calm 1 10 init ≡ some (m, false)) × (m.head ≡ doorman)
unfolding lock
lock_run = (_, refl, refl)

lock-Implements_example :
    (m : Mutex) × (lock calm 3 12 two_wait ≡ some (m, true))
    × Implements m (held (10 ∷ 11 ∷ 12 ∷ []))
    × (m.log ≡ [])
lock-Implements_example =
    lock-Implements calm 3 12 two_wait (held (10 ∷ 11 ∷ [])) (omega arith) (omega arith)
      (omega arith) (omega arith) ([], 11 ∷ 10 ∷ [], two_wait-Held, refl)

unlock-Implements_example :
    (m : Mutex) × (unlock 3 two_wait ≡ some m) × Implements m (held (11 ∷ [])) × (m.log ≡ 10 ∷ [])
unlock-Implements_example =
    unlock-Implements 3 two_wait (10 ∷ 11 ∷ []) (omega arith)
      ([], 11 ∷ 10 ∷ [], two_wait-Held, refl)

check_request-resumed_twice_example :
    (m1 m2 m3 : Mutex) × (subscribe_request calm 10 locked ≡ some m1)
    × (unlock 2 m1 ≡ some m2)
    × (m2.log ≡ 10 ∷ [])
    × (check_request 2 10 m2 ≡ some (m3, false))
    × (m3.queue ≡ doorman)
check_request-resumed_twice_example =
    check_request-resumed_twice calm 2 10 locked (omega arith) (omega arith) (omega arith)
      (omega arith) refl locked-Held

-- 10, 11 and 12 ask for the lock, it is released, 13 asks for it, and it is released twice.
abbrev session_ops : List Op
session_ops =
    locks calm 10
    ∷ locks calm 11
    ∷ locks calm 12
    ∷ unlocks 3
    ∷ locks calm 13
    ∷ unlocks 3
    ∷ unlocks 3
    ∷ []

session-Allowed : Allowed free session_ops (held [])
session-Allowed = then_lock _ 10 _ _ _ (omega arith) (omega arith) (omega arith) tt (
    then_lock _ 11 _ _ _ (omega arith) (omega arith) (omega arith) tt (
      then_lock _ 12 _ _ _ (omega arith) (omega arith) (omega arith) (omega arith, tt)
        (then_unlock 3 _ _ _ (omega arith) (
          then_lock _ 13 _ _ _ (omega arith) (omega arith) (omega arith) (omega arith, tt)
            (then_unlock 3 _ _ _ (omega arith) (then_unlock 3 _ _ _ (omega arith) (stay _)))))))

run-fair_example :
    (s : Session) × (run 1 session_ops (record { mutex = init; entered = [] }) ≡ some s)
    × Implements s.mutex (held [])
    × (s.entered ++ [] ≡ 10 ∷ 11 ∷ 12 ∷ 13 ∷ [])
    × (length s.entered ≡ 3 + 1)
run-fair_example = run-fair 1 session_ops init (held []) Free-init session-Allowed
