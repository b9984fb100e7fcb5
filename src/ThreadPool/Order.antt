-- ===== src/ThreadPool/Order.antt =====
-- In which order the tasks of a pool of thread_pool.h start, and what becomes of each.
use coroutines_classes.Prelude.{
  ℕ, ◌+◌, ◌≡◌, refl, sym, ◌∙◌, ap, subst, inl, inr, List, [], ◌∷◌, ◌++◌, append_assoc, append-nil,
  Option, some, true, false, Bool-cases, Option-cases, arith, get_elem?, set,
}
use coroutines_classes.ThreadPool.{
  Thread, ended, ThreadPool, Stop, enqueue, worker_return, stop_begin, stop_end, asleep, idle,
  join_all, is_caller, disown, has_ended,
}
use coroutines_classes.ThreadPool.Cases.{
  some-ThreadPool, begins, worker_take-cases, worker_wait-cases,
}
use coroutines_classes.ThreadPool.World.{
  World, Step, Steps, enqueues, takes, returns, waits, wakes_up, stops, ends, done, more, start,
  count, held,
}

count-append : (t : ℕ) (xs ys : List ℕ) → count t (xs ++ ys) ≡ count t xs + count t ys
count-append t [] ys = omega arith
count-append t (x ∷ xs) ys = omega (arith, count-append t xs ys)

held-append : (t : ℕ) (ss rs : List Stop) → held t (ss ++ rs) ≡ held t ss + held t rs
held-append t [] rs = omega arith
held-append t (s ∷ ss) rs = omega (arith, held-append t ss rs)

pub record IsOrdered (w : World) : Type 0 where
  -- The tasks that started are the first of those accepted, and before a stop the queue is the others.
  pub rest : List ℕ
  pub in_order : w.pool.accepted ≡ w.pool.started ++ (w.pool.queue ++ rest)
  pub none_lost : w.pool.exit ≡ false → rest ≡ []
  pub emptied : w.pool.exit ≡ true → w.pool.queue ≡ []
  pub conserved :
      (t : ℕ)
      → count t w.pool.accepted
        ≡ count t w.pool.started + count t w.pool.queue + held t w.stops + count t w.pool.discarded

-- Two pools that differ in their threads only.
pub record SameTasks (p p' : ThreadPool) : Type 0 where
  pub queue : p'.queue ≡ p.queue
  pub exit : p'.exit ≡ p.exit
  accepted : p'.accepted ≡ p.accepted
  started : p'.started ≡ p.started
  discarded : p'.discarded ≡ p.discarded

SameTasks-refl : (p : ThreadPool) → SameTasks p p
SameTasks-refl p = record {
  queue = refl;
  exit = refl;
  accepted = refl;
  started = refl;
  discarded = refl;
}

pub join_all-SameTasks :
    (me : Option ℕ) (is : List ℕ) (p p' : ThreadPool) → join_all me is p ≡ some p' → SameTasks p p'
unfolding join_all
join_all-SameTasks me [] p p' e = subst (SameTasks p) (some-ThreadPool p p' e) (SameTasks-refl p)
join_all-SameTasks me (i ∷ is) p p' e = elim (Bool-cases (is_caller me i)) [
  | inl own ↦
      let s =
        join_all-SameTasks me is (record p { threads = disown (get_elem? p.threads i) i p.threads })
          p' (rw own at e) in
      record {
        queue = s.queue;
        exit = s.exit;
        accepted = s.accepted;
        started = s.started;
        discarded = s.discarded;
      }
  | inr other ↦ elim (Bool-cases (has_ended (get_elem? p.threads i))) [
    | inl over ↦ join_all-SameTasks me is p p' (rw (other, over) at e)
    | inr busy ↦ absurd (ground (arith, other, busy))
  ]
]

init-IsOrdered : (cores n : ℕ) → IsOrdered (start cores n)
init-IsOrdered cores n = record {
  rest = [];
  in_order = refl;
  none_lost = λ e. refl;
  emptied = λ e. refl;
  conserved = λ t. refl;
}

enqueue-IsOrdered :
    (w : World) (i t : ℕ) → IsOrdered w → IsOrdered (record w { pool = enqueue i t w.pool })
unfolding enqueue
enqueue-IsOrdered w i t h = elim (Bool-cases w.pool.exit) [
  | inl e ↦ rw e (record {
    rest = h.rest;
    in_order = h.in_order;
    none_lost = λ f. absurd (ground arith);
    emptied = λ f. h.emptied e;
    conserved = h.conserved;
  })
  | inr e ↦
      let q = w.pool.queue in
      let all : w.pool.accepted ≡ w.pool.started ++ q =
        h.in_order
        ∙ ap (λ r. w.pool.started ++ (q ++ r)) (h.none_lost e)
        ∙ ap (◌++◌ w.pool.started) (append-nil q) in
      rw e (record {
        rest = [];
        in_order =
            ap (λ l. l ++ t ∷ []) all
            ∙ append_assoc w.pool.started q (t ∷ [])
            ∙ ap (◌++◌ w.pool.started) (sym (append-nil (q ++ t ∷ [])));
        none_lost = λ f. refl;
        emptied = λ f. absurd (ground arith);
        conserved = λ u. omega (
          arith,
          h.conserved u,
          count-append u w.pool.accepted (t ∷ []),
          count-append u q (t ∷ []),
        );
      })
]

-- The threads play no part in the order.
threads-IsOrdered :
    (w : World) (ts : List Thread)
    → IsOrdered w
    → IsOrdered (record w { pool = record w.pool { threads = ts } })
threads-IsOrdered w ts h = record {
  rest = h.rest;
  in_order = h.in_order;
  none_lost = h.none_lost;
  emptied = h.emptied;
  conserved = h.conserved;
}

begins-IsOrdered :
    (w : World) (i t : ℕ) (ts : List ℕ)
    → w.pool.exit ≡ false
    → w.pool.queue ≡ t ∷ ts
    → IsOrdered w
    → IsOrdered (record w { pool = begins i t ts w.pool })
begins-IsOrdered w i t ts e f h = record {
  rest = h.rest;
  in_order =
      h.in_order
      ∙ ap (λ q. w.pool.started ++ (q ++ h.rest)) f
      ∙ sym (append_assoc w.pool.started (t ∷ []) (ts ++ h.rest));
  none_lost = h.none_lost;
  emptied = λ g. absurd (ground (arith, e, g));
  conserved =
      λ u. omega (arith, h.conserved u, ap (count u) f, count-append u w.pool.started (t ∷ []));
}

stop_begin-IsOrdered :
    (w : World) (me : Option ℕ)
    → IsOrdered w
    → IsOrdered
        (record { pool = (stop_begin me w.pool).0; stops = (stop_begin me w.pool).1 ∷ w.stops })
unfolding stop_begin
stop_begin-IsOrdered w me h = record {
  rest = w.pool.queue ++ h.rest;
  in_order = h.in_order;
  none_lost = λ e. absurd cc;
  emptied = λ e. refl;
  conserved = λ t. omega (arith, h.conserved t);
}

stop_end-IsOrdered :
    (w : World) (before : List Stop) (s : Stop) (after : List Stop) (p : ThreadPool)
    → w.stops ≡ before ++ s ∷ after
    → stop_end s w.pool ≡ some p
    → IsOrdered w
    → IsOrdered (record { pool = p; stops = before ++ after })
unfolding stop_end
stop_end-IsOrdered w before s after p e run h =
    elim (Option-cases (join_all s.caller s.tmp w.pool)) [
      | inl f ↦ absurd (ground (arith, f))
      | inr (p', f) ↦
          let same = join_all-SameTasks s.caller s.tmp w.pool p' f in
          let r : record p' { discarded = p'.discarded ++ s.q } ≡ p =
            some-ThreadPool _ p (rw f at run) in
          subst (λ z. IsOrdered (record { pool = z; stops = before ++ after })) r
            (record {
              rest = h.rest;
              in_order = rw (same.accepted, same.started, same.queue) h.in_order;
              none_lost = λ g. h.none_lost (sym same.exit ∙ g);
              emptied = λ g. same.queue ∙ h.emptied (sym same.exit ∙ g);
              conserved = λ t. omega (
                arith,
                h.conserved t,
                ap (held t) e,
                held-append t before (s ∷ after),
                held-append t before after,
                count-append t p'.discarded s.q,
                ap (count t) same.accepted,
                ap (count t) same.started,
                ap (count t) same.queue,
                ap (count t) same.discarded,
              );
            })
    ]

Step-IsOrdered : (w w' : World) → Step w w' → IsOrdered w → IsOrdered w'
unfolding worker_return
Step-IsOrdered w w' (enqueues _ i t _) h = enqueue-IsOrdered w i t h
Step-IsOrdered w w' (waits _ i p _ run) h =
    let (_, _, r) = worker_wait-cases i w.pool p run in
    subst (λ z. IsOrdered (record w { pool = z })) r
      (threads-IsOrdered w (set w.pool.threads i asleep) h)
Step-IsOrdered w w' (wakes_up _ i _) h = threads-IsOrdered w (set w.pool.threads i idle) h
Step-IsOrdered w w' (takes _ i p free run) h = elim (worker_take-cases i w.pool p run) [
  | inl (x, r) ↦
      subst (λ z. IsOrdered (record w { pool = z })) r
        (threads-IsOrdered w (set w.pool.threads i ended) h)
  | inr (t, ts, x, f, r) ↦
      subst (λ z. IsOrdered (record w { pool = z })) r (begins-IsOrdered w i t ts x f h)
]
Step-IsOrdered w w' (returns _ i t own busy) h = threads-IsOrdered w _ h
Step-IsOrdered w w' (stops _ me) h = stop_begin-IsOrdered w me h
Step-IsOrdered w w' (ends _ before s after p e run) h =
    stop_end-IsOrdered w before s after p e run h

Steps-IsOrdered : (w w' : World) → Steps w w' → IsOrdered w → IsOrdered w'
Steps-IsOrdered w w' (done _) h = h
Steps-IsOrdered w w' (more _ w1 _ s rest) h = Steps-IsOrdered w1 w' rest (Step-IsOrdered w w1 s h)

-- However the threads that enqueue, work and stop are interleaved: the tasks that have started are the
-- first of those accepted, in the order of acceptance; until `stop` is called the others stand in the
-- queue; and each task accepted stands once in one place: it has started, or waits in the queue, or is
-- held by a call of `stop`, or was discarded by one.
pub Steps-in_order :
    (cores n : ℕ) (w : World)
    → Steps (start cores n) w
    → ((rest : List ℕ) × (w.pool.accepted ≡ w.pool.started ++ (w.pool.queue ++ rest))
        × (w.pool.exit ≡ false → rest ≡ []))
      × ((t : ℕ)
          → count t w.pool.accepted
            ≡ count t w.pool.started
              + count t w.pool.queue
              + held t w.stops
              + count t w.pool.discarded)
Steps-in_order cores n w steps =
    let h = Steps-IsOrdered (start cores n) w steps (init-IsOrdered cores n) in
    ((h.rest, h.in_order, h.none_lost), h.conserved)
