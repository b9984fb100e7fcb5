-- ===== src/QueuedPolicy/Levels.antt =====
-- The order in which the queue of queued_resumption_policy.h resumes coroutines: level by level.
use coroutines_classes.Prelude.{
  ℕ, zero, suc, ◌-◌, ◌+◌, ◌≤◌, ◌<◌, ◌≡◌, refl, ◌∙◌, ap, List, [], ◌∷◌, ◌++◌, append_assoc,
  append-nil, cond_false, Option, some, true, false, arith, length, ◌>>=◌,
}
use coroutines_classes.QueuedPolicy.{
  Tail, stops, transfers, run_tail, Coro, Coros, coro, nil, cons, to_list, Queued, run_coro,
  flush_loop, flush_queue, install_queue_and_resume, resume,
}

-- A coroutine with those that follow it by transfers, and what they make ready.
unfoldable mutual
  pub chain : Coro → List ℕ
  chain (coro id cs t) = id ∷ chain_tail t

  pub chain_tail : Tail → List ℕ
  chain_tail stops = []
  chain_tail (transfers c) = chain c

unfoldable mutual
  pub children : Coro → List Coro
  children (coro id cs t) = to_list cs ++ children_tail t

  pub children_tail : Tail → List Coro
  children_tail stops = []
  children_tail (transfers c) = children c

abbrev pub ids : List Coro → List ℕ
ids [] = []
ids (h ∷ hs) = chain h ++ ids hs

abbrev pub kids : List Coro → List Coro
kids [] = []
kids (h ∷ hs) = children h ++ kids hs

-- The coroutines in the order of their distance from those of the list, `n` levels deep.
unfoldable pub levels : ℕ → List Coro → List ℕ
levels zero hs = []
levels (suc n) [] = []
levels (suc n) (h ∷ hs) = ids (h ∷ hs) ++ levels n (kids (h ∷ hs))

unfoldable mutual
  pub size : Coro → ℕ
  size (coro id cs t) = suc (size_coros cs + size_tail t)

  pub size_coros : Coros → ℕ
  size_coros nil = 0
  size_coros (cons c cs) = size c + size_coros cs

  pub size_tail : Tail → ℕ
  size_tail stops = 0
  size_tail (transfers c) = size c

-- How many coroutines there are.
unfoldable pub total : List Coro → ℕ
unfolding size
total [] = 0
total (h ∷ hs) = size h + total hs

total-append : (hs ks : List Coro) → total (hs ++ ks) ≡ total hs + total ks
unfolding total
total-append [] ks = omega arith
total-append (h ∷ hs) ks = omega (arith, total-append hs ks)

total-to_list : (cs : Coros) → total (to_list cs) ≡ size_coros cs
unfolding total size
total-to_list nil = refl
total-to_list (cons c cs) = omega (arith, total-to_list cs)

mutual
  unfolding size total children

  size-children : (h : Coro) → suc (total (children h)) ≤ size h
  size-children (coro id cs t) =
      omega (arith, total-append (to_list cs) (children_tail t), total-to_list cs, size-tail t)

  size-tail : (t : Tail) → total (children_tail t) ≤ size_tail t
  size-tail stops = omega arith
  size-tail (transfers c) = omega (arith, size-children c)

total-kids : (hs : List Coro) → length hs + total (kids hs) ≤ total hs
unfolding total
total-kids [] = omega arith
total-kids (h ∷ hs) =
    omega (arith, size-children h, total-kids hs, total-append (children h) (kids hs))

-- What a coroutine does, with those to which it transfers.
mutual
  unfolding run_coro chain children

  run_coro-chain :
      (c : Coro) (q : Queued)
      → run_coro c q ≡ record q { log = q.log ++ chain c; queue = q.queue ++ children c }
  run_coro-chain (coro id cs t) q =
      run_tail-chain t (record q { log = q.log ++ id ∷ []; queue = q.queue ++ to_list cs })
      ∙ rw
          (
            append_assoc q.log (id ∷ []) (chain_tail t),
            append_assoc q.queue (to_list cs) (children_tail t),
          )
          refl

  run_tail-chain :
      (t : Tail) (q : Queued)
      → run_tail t q ≡ record q { log = q.log ++ chain_tail t; queue = q.queue ++ children_tail t }
  run_tail-chain stops q = rw (append-nil q.log, append-nil q.queue) refl
  run_tail-chain (transfers c) q = run_coro-chain c q

-- The thread while it flushes: what stands in the queue, and what has run.
abbrev at_work : Queued → List Coro → List ℕ → Queued
at_work q hs log = record q { queue = hs; log = log }

-- The coroutines `hs` at the front of the queue are resumed, and their children stand at its end.
flush_loop-front :
    (n fuel : ℕ) (hs ks : List Coro) (q : Queued) (log : List ℕ)
    → n ≡ length hs + fuel
    → flush_loop n (hs ++ ks) (at_work q (hs ++ ks) log)
      ≡ flush_loop fuel (ks ++ kids hs) (at_work q (ks ++ kids hs) (log ++ ids hs))
unfolding flush_loop run_coro
flush_loop-front n fuel [] ks q log e =
    let e' : n ≡ fuel = omega (arith, e) in rw (e', append-nil ks, append-nil log) refl
flush_loop-front zero fuel (h ∷ hs) ks q log e = absurd (omega (arith, e))
flush_loop-front (suc n) fuel (h ∷ hs) ks q log e =
    ap (λ (z : Queued). flush_loop n z.queue z) (run_coro-chain h (at_work q (hs ++ ks) log))
    ∙ ap (λ l. flush_loop n l (at_work q l (log ++ chain h))) (append_assoc hs ks (children h))
    ∙ rw (append_assoc ks (children h) (kids hs), append_assoc log (chain h) (ids hs)) at
        (flush_loop-front n fuel hs (ks ++ children h) q (log ++ chain h) (omega (arith, e)))

levels-nil : (d : ℕ) → levels d [] ≡ []
unfolding levels
levels-nil zero = refl
levels-nil (suc d) = refl

flush_loop-levels :
    (d n : ℕ) (hs : List Coro) (q : Queued) (log : List ℕ)
    → total hs ≤ d
    → total hs < n
    → flush_loop n hs (at_work q hs log) ≡ some (at_work q [] (log ++ levels d hs))
unfolding flush_loop total levels
flush_loop-levels d zero [] q log h k = elim k [ ]
flush_loop-levels d (suc n) [] q log h k = rw (levels-nil d, append-nil log) refl
flush_loop-levels zero n (x ∷ hs) q log h k = absurd (omega (arith, total-kids (x ∷ hs), h))
flush_loop-levels (suc d) n (x ∷ hs) q log h k =
    let now = x ∷ hs in
    let front =
      flush_loop-front n (n - length now) now [] q log (omega (arith, total-kids now, k)) in
    let below =
      flush_loop-levels d (n - length now) (kids now) q (log ++ ids now)
        (omega (arith, total-kids now, h)) (omega (arith, total-kids now, k)) in
    (rw (append-nil now) at front) ∙ rw (append_assoc log (ids now) (levels d (kids now))) at below

-- A coroutine that is resumed on a thread without a queue: every coroutine that becomes ready, directly
-- or through others, is resumed exactly once, level by level: the first one, then those made ready by
-- it, then those made ready by these, and so on, each level in order. A coroutine to which another
-- transfers skips the queue: it stands directly behind that one, on its level. The queue is empty in
-- the end, and `instance` is reset. Fuel above the number of the coroutines is enough.
pub resume-levels :
    (fuel : ℕ) (h : Coro) (q : Queued)
    → q.instance_set ≡ false
    → q.queue ≡ []
    → total (kids (h ∷ [])) < fuel
    → resume fuel h q
      ≡ some (record {
        instance_set = false;
        queue = [];
        log = q.log ++ levels (suc (total (kids (h ∷ [])))) (h ∷ []);
      })
unfolding resume install_queue_and_resume flush_queue levels
resume-levels fuel h q off none lt =
    let hs = kids (h ∷ []) in
    let run =
      flush_loop-levels (total hs) fuel hs (record q { instance_set = true })
        (q.log ++ ids (h ∷ [])) (omega arith) lt in
    let begun : run_coro h (record q { instance_set = true })
        ≡ at_work (record q { instance_set = true }) hs (q.log ++ ids (h ∷ [])) =
      run_coro-chain h (record q { instance_set = true })
      ∙ rw (none, append-nil (children h), append-nil (chain h)) refl in
    cond_false q.instance_set _ _ off
    ∙ ap (λ (o : Option Queued). o >>= λ q'. some (record q' { instance_set = q.instance_set }))
        (ap (λ (z : Queued). flush_loop fuel z.queue z) begun ∙ run)
    ∙ rw (off, append_assoc q.log (ids (h ∷ [])) (levels (total hs) hs)) refl
