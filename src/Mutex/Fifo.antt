-- ===== src/Mutex/Fifo.antt =====
-- The contract of mutex.h: a lock that is free, or held with a line of waiting awaiters, and that is
-- handed over in the order of arrival. The pointers of the mutex implement it.

use coroutines_classes.Prelude.{
  ℕ, ◌≡◌, ◌≢◌, refl, List, [], ◌∷◌, ◌++◌, NotMem, arith, ◌≤◌, ◌<◌, Bool, true, false, some, length,
  ◌∙◌, ap, sym, append-nil,
}
use coroutines_classes.Awaiter.{null}
use coroutines_classes.Awaiter.Subscribe.{honest}
use coroutines_classes.Mutex.{
  Mutex, doorman, is_ready, lock, unlock, subscribe_awaiter, subscribe_request,
}
use coroutines_classes.Mutex.Lists.{waiting, waiting-request, NotMem-waiting, length-requests}
use coroutines_classes.Mutex.Repr.{Free, Held}
use coroutines_classes.Mutex.Steps.{
  is_ready-Free, is_ready-Held, subscribe_request-Held, check_request-linked, unlock-Free,
  unlock-Held,
}

pub data Lock : Type 0 where
  free : Lock
  held : List ℕ → Lock

-- The pointers stand for the abstract lock.
abbrev pub Implements : Mutex → Lock → Type 0
Implements m free = Free m
Implements m (held ws) = (qs rs : List ℕ) × Held m qs rs × (waiting qs rs ≡ ws)

-- Who waits.
abbrev pub line : Lock → List ℕ
line free = []
line (held ws) = ws

abbrev pub lock_spec : ℕ → Lock → Lock × Bool
lock_spec a free = (held [], false)
lock_spec a (held ws) = (held (ws ++ a ∷ []), true)

abbrev pub unlock_spec : List ℕ → Lock × List ℕ
unlock_spec [] = (free, [])
unlock_spec (w ∷ ws) = (held ws, w ∷ [])

is_ready-log : (m : Mutex) → (is_ready m).0.log ≡ m.log
unfolding is_ready
is_ready-log m = ground arith

lock-ready :
    (rounds : List Bool) (fuel a : ℕ) (m : Mutex)
    → (is_ready m).1 ≡ true
    → lock rounds fuel a m ≡ some ((is_ready m).0, false)
unfolding lock
lock-ready rounds fuel a m e = ground arith

lock-slow :
    (rounds : List Bool) (fuel a : ℕ) (m m' : Mutex)
    → is_ready m ≡ (m, false)
    → subscribe_request rounds a m ≡ some m'
    → m'.next a ≢ null
    → lock rounds fuel a m ≡ some (m', true)
unfolding lock subscribe_awaiter
lock-slow rounds fuel a m m' e run n = ground (arith, check_request-linked fuel a m' n)

-- `co_await lock()` of an awaiter that does not wait yet does what the contract says: the lock is taken
-- at once if it is free, and otherwise the awaiter goes to the end of the line and is suspended.
-- Nobody is resumed.
pub lock-Implements :
    (rounds : List Bool) (fuel a : ℕ) (m : Mutex) (l : Lock)
    → 2 ≤ honest rounds
    → a ≢ null
    → a ≢ doorman
    → NotMem a (line l)
    → Implements m l
    → (m' : Mutex) × (lock rounds fuel a m ≡ some (m', (lock_spec a l).1))
      × Implements m' (lock_spec a l).0
      × (m'.log ≡ m.log)
lock-Implements rounds fuel a m free h n d nm f =
    let (yes_ready, hd) = is_ready-Free m f in
    ((is_ready m).0, lock-ready rounds fuel a m yes_ready, ([], [], hd, refl), is_ready-log m)
lock-Implements rounds fuel a m (held ws) h n d nm (qs, rs, hd, e) =
    let (nq, nr) = NotMem-waiting a qs rs (rw e nm) in
    let (m', run, hd', log, link) = subscribe_request-Held rounds a m qs rs h n d nq nr hd in
    (
      m',
      lock-slow rounds fuel a m m' (is_ready-Held m qs rs hd) run link,
      (qs, a ∷ rs, hd', waiting-request qs rs a ∙ ap (λ l. l ++ a ∷ []) e),
      log,
    )

unlock-nobody :
    (fuel : ℕ) (m : Mutex) (qs rs : List ℕ)
    → Held m qs rs
    → waiting qs rs ≡ []
    → (m' : Mutex) × (unlock fuel m ≡ some m') × Free m' × (m'.log ≡ m.log)
unlock-nobody fuel m [] [] hd e = unlock-Free fuel m hd
unlock-nobody fuel m [] (r ∷ rs) hd e =
    absurd (omega (arith, ap length e, length-requests [] (r ∷ rs)))
unlock-nobody fuel m (q ∷ qs) rs hd e = cc

-- `unlock` of a held mutex does what the contract says: with nobody in line the mutex is free and
-- nobody is resumed; otherwise the first in line, and only that one, is resumed and has the lock.
-- Fuel above the number of those in line is enough.
pub unlock-Implements :
    (fuel : ℕ) (m : Mutex) (ws : List ℕ)
    → length ws < fuel
    → Implements m (held ws)
    → (m' : Mutex) × (unlock fuel m ≡ some m')
      × Implements m' (unlock_spec ws).0
      × (m'.log ≡ m.log ++ (unlock_spec ws).1)
unlock-Implements fuel m [] lt (qs, rs, hd, e) =
    let (m', run, f, log) = unlock-nobody fuel m qs rs hd e in
    (m', run, f, log ∙ sym (append-nil m.log))
unlock-Implements fuel m (w ∷ ws) lt (qs, rs, hd, e) =
    let (m', qs', rs', run, hd', order, log) =
      unlock-Held fuel m qs rs w ws (omega (arith, length-requests qs rs, ap length e)) hd e in
    (m', run, (qs', rs', hd', order), log)
