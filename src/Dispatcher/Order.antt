-- ===== src/Dispatcher/Order.antt =====
-- In which order a dispatcher of dispatcher.h resumes coroutines and fires timers.
use mathlib.Core.List.Permᴰ
use coroutines_classes.Prelude.{
  ℕ, ◌≤◌, ◌≡◌, refl, sym, ◌∙◌, ap, subst, List, [], ◌∷◌, ◌++◌, Bool, true, false, some, ◌||◌, not,
  if◌then◌else◌, leb, All, append_assoc, arith, Bool-cases, inl, inr,
}
use coroutines_classes.Scheduler.{Item}
use coroutines_classes.Scheduler.Heap.{HeapLaws, times, All-Perm}
use coroutines_classes.Scheduler.Expiry.{pop_item-Perm}
use coroutines_classes.Dispatcher.{
  policy_resume, resume_handle, resume_handle_next, scheduled_by, handed_over, next_one, Dispatcher,
  Turn, waits, leaves, resumes, fires, is_empty, schedule_handle, schedule_timer, quit, create,
  take_handle, pop_timer, time_out, next_handle, run_turn, flush_turn, Step, handle, timer, quits,
  resumed_one, fired_one, flushed_one, Steps, stop, go,
}

module _ (IsHeap : List ℕ → Type 0) (push_heap pop_heap : List Item → List Item)
    (laws : HeapLaws IsHeap push_heap pop_heap) where
  record IsOrdered (d : Dispatcher) : Type 0 where
    in_order : d.scheduled ≡ d.resumed ++ d.queue
    in_heap : IsHeap (times d.timers)

  -- What a turn says of the dispatcher before it.
  abbrev Turns : ℕ → Dispatcher → Turn → Type 0
  Turns now d waits = Unit
  Turns now d leaves = Unit
  Turns now d (resumes h d') = (rest : List ℕ) × (d.queue ≡ h ∷ rest) × (d' ≡ take_handle h rest d)
  Turns now d (fires x d') =
      (xs : List Item) × (d.timers ≡ x ∷ xs)
      × (d.queue ≡ [])
      × (x.tp ≤ now)
      × (d' ≡ pop_timer push_heap pop_heap x xs d)

  next_handle-Turns :
      (now : ℕ) (q : List ℕ) (d : Dispatcher) → d.queue ≡ q → Turns now d (next_handle q d)
  unfolding next_handle
  next_handle-Turns now [] d e = tt
  next_handle-Turns now (h ∷ rest) d e = (rest, e, refl)

  time_out-Turns :
      (now : ℕ) (xs : List Item) (d : Dispatcher)
      → d.timers ≡ xs
      → d.queue ≡ []
      → Turns now d (time_out push_heap pop_heap now xs d)
  unfolding time_out
  time_out-Turns now [] d e q = tt
  time_out-Turns now (x ∷ xs) d e q = elim (Bool-cases (leb x.tp now)) [
    | inl le ↦ rw le (xs, e, q, ground arith, refl)
    | inr gt ↦ rw gt tt
  ]

  run_turn-Turns : (now : ℕ) (d : Dispatcher) → Turns now d (run_turn push_heap pop_heap now d)
  unfolding run_turn
  run_turn-Turns now d = turns d.queue d.exit_flag refl
    where
      turns :
          (q : List ℕ) (b : Bool)
          → d.queue ≡ q
          → Turns now d (
              if not (is_empty q) || b
              then (if b then leaves else next_handle q d)
              else time_out push_heap pop_heap now d.timers d)
      turns [] true e = tt
      turns [] false e = time_out-Turns now d.timers d refl e
      turns (h ∷ rest) true e = tt
      turns (h ∷ rest) false e = next_handle-Turns now (h ∷ rest) d e

  flush_turn-Turns : (d : Dispatcher) → Turns 0 d (flush_turn d)
  unfolding flush_turn
  flush_turn-Turns d = turns d.queue refl
    where
      turns :
          (q : List ℕ) → d.queue ≡ q → Turns 0 d (if is_empty q then leaves else next_handle q d)
      turns [] e = tt
      turns (h ∷ rest) e = next_handle-Turns 0 (h ∷ rest) d e

  resume_handle_next-Turns :
      (current : Bool) (d : Dispatcher) → Turns 0 d (resume_handle_next current (some d))
  unfolding resume_handle_next flush_turn
  resume_handle_next-Turns true d = flush_turn-Turns d
  resume_handle_next-Turns false d = tt

  schedule_handle-IsOrdered :
      (h : ℕ) (d : Dispatcher) → IsOrdered d → IsOrdered (schedule_handle h d)
  unfolding schedule_handle
  schedule_handle-IsOrdered h d o = record {
    in_order = ap (λ l. l ++ h ∷ []) o.in_order ∙ append_assoc d.resumed d.queue (h ∷ []);
    in_heap = o.in_heap;
  }

  schedule_timer-IsOrdered :
      (x : Item) (d : Dispatcher) → IsOrdered d → IsOrdered (schedule_timer push_heap pop_heap x d)
  unfolding schedule_timer
  schedule_timer-IsOrdered x d o =
      let d' : Dispatcher = record d { timers = push_heap (d.timers ++ x ∷ []) } in
      let o' : IsOrdered d' = record {
        in_order = o.in_order;
        in_heap = (laws.pushes d.timers x o.in_heap).0;
      } in
      elim (Bool-cases (is_empty d.queue)) [
        | inl e ↦ rw e (schedule_handle-IsOrdered 0 d' o')
        | inr e ↦ rw e o'
      ]

  resumes-IsOrdered :
      (now h : ℕ) (d d' : Dispatcher) → Turns now d (resumes h d') → IsOrdered d → IsOrdered d'
  unfolding take_handle
  resumes-IsOrdered now h d d' (rest, e, same) o = subst IsOrdered (sym same) (record {
    in_order = o.in_order ∙ ap (λ l. d.resumed ++ l) e ∙ sym (append_assoc d.resumed (h ∷ []) rest);
    in_heap = o.in_heap;
  })

  fires-IsOrdered :
      (now : ℕ) (x : Item) (d d' : Dispatcher)
      → Turns now d (fires x d')
      → IsOrdered d
      → IsOrdered d' × All (λ y. x.tp ≤ y.tp) d'.timers
  unfolding pop_timer
  fires-IsOrdered now x d d' (xs, e, q, le, same) o =
      let h : IsHeap (times (x ∷ xs)) = subst (λ l. IsHeap (times l)) e o.in_heap in
      let (h', perm) = pop_item-Perm IsHeap push_heap pop_heap laws x xs h in
      subst (λ z. IsOrdered z × All (λ y. x.tp ≤ y.tp) z.timers) (sym same)
        (
          record { in_order = o.in_order; in_heap = h' },
          All-Perm (λ y. x.tp ≤ y.tp) (Permᴰ.symm perm) (laws.least x xs h),
        )

  policy_resume-IsOrdered :
      (h : ℕ) (d d' : Dispatcher) → policy_resume h (some d) ≡ some d' → IsOrdered d → IsOrdered d'
  unfolding policy_resume
  policy_resume-IsOrdered h d d' e o =
      let same : schedule_handle h d ≡ d' = cc in
      subst IsOrdered same (schedule_handle-IsOrdered h d o)

  resume_handle-IsOrdered :
      (current : Bool) (h k : ℕ) (d d' : Dispatcher)
      → resume_handle current h (some d) ≡ some (d', k)
      → IsOrdered d
      → IsOrdered d'
  unfolding resume_handle
  resume_handle-IsOrdered true h k d d' e o = let same : d ≡ d' = cc in subst IsOrdered same o
  resume_handle-IsOrdered false h k d d' e o =
      let same : schedule_handle h d ≡ d' = cc in
      subst IsOrdered same (schedule_handle-IsOrdered h d o)

  Step-IsOrdered : (d d' : Dispatcher) → Step push_heap pop_heap d d' → IsOrdered d → IsOrdered d'
  unfolding quit
  Step-IsOrdered d d' (handle h _) o = schedule_handle-IsOrdered h d o
  Step-IsOrdered d d' (timer x _) o = schedule_timer-IsOrdered x d o
  Step-IsOrdered d d' (quits _) o = record { in_order = o.in_order; in_heap = o.in_heap }
  Step-IsOrdered d d' (resumed_one now h _ _ e) o =
      resumes-IsOrdered now h d d' (subst (Turns now d) e (run_turn-Turns now d)) o
  Step-IsOrdered d d' (fired_one now x _ _ e) o =
      (fires-IsOrdered now x d d' (subst (Turns now d) e (run_turn-Turns now d)) o).0
  Step-IsOrdered d d' (scheduled_by h _ _ e) o = policy_resume-IsOrdered h d d' e o
  Step-IsOrdered d d' (handed_over current h k _ _ e) o =
      resume_handle-IsOrdered current h k d d' e o
  Step-IsOrdered d d' (next_one current h _ _ e) o =
      resumes-IsOrdered 0 h d d' (subst (Turns 0 d) e (resume_handle_next-Turns current d)) o
  Step-IsOrdered d d' (flushed_one h _ _ e) o =
      resumes-IsOrdered 0 h d d' (subst (Turns 0 d) e (flush_turn-Turns d)) o

  Steps-IsOrdered : (d d' : Dispatcher) → Steps push_heap pop_heap d d' → IsOrdered d → IsOrdered d'
  Steps-IsOrdered d d' (stop _) o = o
  Steps-IsOrdered d d' (go _ b _ s rest) o = Steps-IsOrdered b d' rest (Step-IsOrdered d b s o)

  create-IsOrdered : IsOrdered create
  unfolding create
  create-IsOrdered = record { in_order = refl; in_heap = laws.none_held }

  -- Whatever the threads do to a dispatcher, the handles are resumed in the order in which they were
  -- scheduled, none twice, and none is left out but those that wait in the queue.
  pub Steps-handles_in_order :
      (d : Dispatcher) → Steps push_heap pop_heap create d → d.scheduled ≡ d.resumed ++ d.queue
  Steps-handles_in_order d steps = (Steps-IsOrdered create d steps create-IsOrdered).in_order

  -- Whatever the threads have done to a dispatcher, a timer that fires in a turn of `run` is due,
  -- no handle waits in the queue, and none of the timers left expires before it.
  pub run_turn-fires :
      (now : ℕ) (x : Item) (d d' : Dispatcher)
      → Steps push_heap pop_heap create d
      → run_turn push_heap pop_heap now d ≡ fires x d'
      → (d.queue ≡ []) × (x.tp ≤ now) × All (λ y. x.tp ≤ y.tp) d'.timers
  run_turn-fires now x d d' steps e =
      let o = Steps-IsOrdered create d steps create-IsOrdered in
      let t = subst (Turns now d) e (run_turn-Turns now d) in
      (t.2, t.3, (fires-IsOrdered now x d d' t o).1)
