-- ===== src/ThreadPool/Waking.antt =====
-- The wait of the workers of thread_pool.h: which of them are blocked, and which are awake.
use coroutines_classes.Prelude.{
  ℕ, zero, suc, ◌+◌, ◌≤◌, ◌≡◌, refl, sym, ◌∙◌, ap, subst, ◌⊎◌, inl, inr, List, [], ◌∷◌, ◌++◌,
  length, length-append, Option, none, some, Bool, true, false, Bool-cases, Option-cases, arith,
  get_elem?, set, if◌then◌else◌, ◌==◌,
}
use coroutines_classes.ThreadPool.{
  Thread, idle, asleep, running, ended, ThreadPool, Stop, enqueue, worker_return, stop_begin,
  stop_end, join_all, is_caller, disown, has_ended, notify_one, notify_all, wake_thread, all_idle,
}
use coroutines_classes.ThreadPool.World.{
  World, Step, Steps, enqueues, waits, wakes_up, takes, returns, stops, ends, done, more, start,
  total, sleeps, is_ready, asleep_threads, idle_threads,
}
use coroutines_classes.ThreadPool.Cases.{some-ThreadPool, worker_take-cases, worker_wait-cases}
use coroutines_classes.ThreadPool.Order.{join_all-SameTasks}

some-Thread : (a b : Thread) → some a ≡ some b → a ≡ b
some-Thread a b e = cc

total-set :
    (f : Thread → ℕ) (ts : List Thread) (i : ℕ) (a b : Thread)
    → get_elem? ts i ≡ some a
    → total f (set ts i b) + f a ≡ total f ts + f b
total-set f [] i a b e = absurd (ground arith)
total-set f (th ∷ ts) zero a b e = omega (arith, ap f (some-Thread th a e))
total-set f (th ∷ ts) (suc i) a b e = omega (arith, total-set f ts i a b e)

total-notify_all : (ts : List Thread) → asleep_threads (notify_all ts) ≡ 0
unfolding notify_all
total-notify_all [] = refl
total-notify_all (idle ∷ ts) = omega (arith, total-notify_all ts)
total-notify_all (asleep ∷ ts) = omega (arith, total-notify_all ts)
total-notify_all (running t own ∷ ts) = omega (arith, total-notify_all ts)
total-notify_all (ended ∷ ts) = omega (arith, total-notify_all ts)

-- Once `_exit` is set nobody is asleep, and while somebody is, an awake thread is there for each task.
abbrev pub IsWoken : ThreadPool → Type 0
IsWoken p =
    ((p.exit ≡ false) ⊎ (asleep_threads p.threads ≡ 0))
    × ((asleep_threads p.threads ≡ 0) ⊎ (length p.queue ≤ idle_threads p.threads))

-- A thread changes its state, and another task may stand in the queue.
set-IsWoken :
    (p : ThreadPool) (q : List ℕ) (i : ℕ) (a b : Thread)
    → get_elem? p.threads i ≡ some a
    → sleeps b ≤ sleeps a
    → length q + is_ready a ≤ length p.queue + is_ready b
    → IsWoken p
    → IsWoken (record p { threads = set p.threads i b; queue = q })
set-IsWoken p q i a b e s r h =
    let n = total-set sleeps p.threads i a b e in
    let m = total-set is_ready p.threads i a b e in
    (
      elim h.0 [ inl x ↦ inl x | inr x ↦ inr (omega (arith, n, s, x)) ],
      elim h.1 [ inl x ↦ inl (omega (arith, n, s, x)) | inr x ↦ inr (omega (arith, m, r, x)) ],
    )

wake_thread-none :
    (o : Option Thread) (i : ℕ) (ts : List Thread)
    → get_elem? ts i ≡ o
    → asleep_threads ts ≡ 0
    → wake_thread o i ts ≡ ts
unfolding wake_thread
wake_thread-none none i ts e z = refl
wake_thread-none (some idle) i ts e z = refl
wake_thread-none (some (running t own)) i ts e z = refl
wake_thread-none (some ended) i ts e z = refl
wake_thread-none (some asleep) i ts e z =
    absurd (omega (arith, total-set sleeps ts i asleep idle e, z))

enqueue-IsWoken :
    (p : ThreadPool) (i t : ℕ)
    → (get_elem? p.threads i ≡ some asleep) ⊎ (asleep_threads p.threads ≡ 0)
    → IsWoken p
    → IsWoken (enqueue i t p)
unfolding enqueue notify_one wake_thread
enqueue-IsWoken p i t k h = elim (Bool-cases p.exit) [
  | inl e ↦ rw e (rw e at h)
  | inr e ↦ elim k [
    | inl a ↦
        let h' =
          set-IsWoken p (p.queue ++ t ∷ []) i asleep idle a (omega arith)
            (omega (arith, length-append p.queue (t ∷ []))) h in
        rw (e, a) (inl refl, h'.1)
    | inr z ↦ rw (e, wake_thread-none (get_elem? p.threads i) i p.threads refl z) (inl refl, inl z)
  ]
]

disown-total :
    (f : Thread → ℕ) (o : Option Thread) (i : ℕ) (ts : List Thread)
    → ((t : ℕ) (own : Bool) → f (running t own) ≡ f (running t false))
    → get_elem? ts i ≡ o
    → total f (disown o i ts) ≡ total f ts
unfolding disown
disown-total f none i ts s e = refl
disown-total f (some idle) i ts s e = refl
disown-total f (some asleep) i ts s e = refl
disown-total f (some ended) i ts s e = refl
disown-total f (some (running t own)) i ts s e =
    omega (arith, total-set f ts i (running t own) (running t false) e, s t own)

join_all-total :
    (f : Thread → ℕ) (me : Option ℕ) (is : List ℕ) (p p' : ThreadPool)
    → ((t : ℕ) (own : Bool) → f (running t own) ≡ f (running t false))
    → join_all me is p ≡ some p'
    → total f p'.threads ≡ total f p.threads
unfolding join_all
join_all-total f me [] p p' s e = ap (λ q. total f q.threads) (sym (some-ThreadPool p p' e))
join_all-total f me (i ∷ is) p p' s e = elim (Bool-cases (is_caller me i)) [
  | inl own ↦
      join_all-total f me is (record p { threads = disown (get_elem? p.threads i) i p.threads }) p'
        s (rw own at e)
      ∙ disown-total f (get_elem? p.threads i) i p.threads s refl
  | inr other ↦ elim (Bool-cases (has_ended (get_elem? p.threads i))) [
    | inl over ↦ join_all-total f me is p p' s (rw (other, over) at e)
    | inr busy ↦ absurd (ground (arith, other, busy))
  ]
]

stop_end-IsWoken : (s : Stop) (p p' : ThreadPool) → stop_end s p ≡ some p' → IsWoken p → IsWoken p'
unfolding stop_end
stop_end-IsWoken s p p' run h = elim (Option-cases (join_all s.caller s.tmp p)) [
  | inl f ↦ absurd (ground (arith, f))
  | inr (q, f) ↦
      let same = join_all-SameTasks s.caller s.tmp p q f in
      let n = join_all-total sleeps s.caller s.tmp p q (λ t own. refl) f in
      let m = join_all-total is_ready s.caller s.tmp p q (λ t own. refl) f in
      let r : record q { discarded = q.discarded ++ s.q } ≡ p' =
        some-ThreadPool _ p' (rw f at run) in
      subst IsWoken r (rw (same.exit, same.queue, n, m) h)
]

Step-IsWoken : (w w' : World) → Step w w' → IsWoken w.pool → IsWoken w'.pool
unfolding worker_return stop_begin
Step-IsWoken w w' (enqueues _ i t k) h = enqueue-IsWoken w.pool i t k h
Step-IsWoken w w' (waits _ i p free run) h =
    let (x, f, r) = worker_wait-cases i w.pool p run in
    subst IsWoken r (inl x, inr (omega (arith, ap length f)))
Step-IsWoken w w' (wakes_up _ i e) h =
    set-IsWoken w.pool w.pool.queue i asleep idle e (omega arith) (omega arith) h
Step-IsWoken w w' (takes _ i p free run) h = elim (worker_take-cases i w.pool p run) [
  | inl (x, r) ↦
      let z : asleep_threads w.pool.threads ≡ 0 = elim h.0 [
        | inl o ↦ absurd (ground (arith, o, x))
        | inr z ↦ z
      ] in
      let n = total-set sleeps w.pool.threads i idle ended free in
      subst IsWoken r (inr (omega (arith, n, z)), inl (omega (arith, n, z)))
  | inr (t, ts, x, f, r) ↦ subst IsWoken r (
      set-IsWoken w.pool ts i idle (running t true) free (omega arith) (omega (arith, ap length f))
        h)
]
Step-IsWoken w w' (returns _ i t true busy) h =
    set-IsWoken w.pool w.pool.queue i (running t true) idle busy (omega arith) (omega arith) h
Step-IsWoken w w' (returns _ i t false busy) h =
    set-IsWoken w.pool w.pool.queue i (running t false) ended busy (omega arith) (omega arith) h
Step-IsWoken w w' (stops _ me) h =
    (inr (total-notify_all w.pool.threads), inl (total-notify_all w.pool.threads))
Step-IsWoken w w' (ends _ before s after p e run) h = stop_end-IsWoken s w.pool p run h

all_awake : (n : ℕ) → asleep_threads (all_idle n) ≡ 0
all_awake zero = refl
all_awake (suc n) = omega (arith, all_awake n)

Steps-IsWoken : (w w' : World) → Steps w w' → IsWoken w.pool → IsWoken w'.pool
Steps-IsWoken w w' (done _) h = h
Steps-IsWoken w w' (more _ w1 _ s rest) h = Steps-IsWoken w1 w' rest (Step-IsWoken w w1 s h)

-- No wake-up is lost, however the threads that enqueue, work and stop are interleaved: once `stop`
-- has set `_exit` no worker is blocked in `_cond.wait`, so each leaves when it next has the lock;
-- and while a worker is blocked there, at least as many others as there are tasks in the queue are
-- about to look into it. `notify_one` wakes any one blocked thread, and threads may also wake up by
-- themselves.
pub Steps-woken :
    (cores n : ℕ) (w : World)
    → Steps (start cores n) w
    → ((w.pool.exit ≡ false) ⊎ (asleep_threads w.pool.threads ≡ 0))
      × ((asleep_threads w.pool.threads ≡ 0) ⊎ (length w.pool.queue ≤ idle_threads w.pool.threads))
Steps-woken cores n w steps =
    let z = all_awake (if n == 0 then cores else n) in
    Steps-IsWoken (start cores n) w steps (inl refl, inl z)
