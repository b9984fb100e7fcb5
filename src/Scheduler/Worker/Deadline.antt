-- ===== src/Scheduler/Worker/Deadline.antt =====
-- The worker of scheduler.h does not sleep past an item, whatever the other threads schedule and
-- cancel.
use mathlib.Core.List.{Permᴰ}
use mathlib.Core.List.Permᴰ
use coroutines_classes.Prelude.{
  ℕ, ◌<◌, ◌≤◌, ◌≡◌, refl, sym, ◌∙◌, subst, List, [], ◌∷◌, ◌++◌, Option, none, some, Bool, true,
  false, ◌==◌, ◌||◌, if◌then◌else◌, arith, All, Bool-cases, inl, inr, length, cond_true, cond_false,
  All-append,
}
use coroutines_classes.Scheduler.{Item, Scheduler, Expired, promise, until, forever, schedule}
use coroutines_classes.Scheduler.Heap.{HeapLaws, times, All-Perm}
use coroutines_classes.Scheduler.Expiry.{Expires, get_expired-Expires, schedule-Perm}
use coroutines_classes.Scheduler.Worker.{
  World, Place, start, is_due, looping, paused, deciding, waiting, ended, notify, is_unlocked,
  request_stop, schedule_item, visit, work, worker_step, step_worker, Step, schedules, cancels,
  stops, works, wakes, Steps, stay, go,
}
use coroutines_classes.Scheduler.Worker.Shrinks.{Later, Shrinks, cancel-Shrinks}

-- A wait that has not been notified is not too long for the items.
abbrev pub Sleeps : Place → List Item → Type 0
Sleeps (deciding d) items = Later d items
Sleeps (waiting d false) items = Later d items
Sleeps (waiting d true) items = Unit
Sleeps looping items = Unit
Sleeps paused items = Unit
Sleeps ended items = Unit

notify-Sleeps : (p : Place) (items : List Item) → Sleeps p items → Sleeps (notify p) items
notify-Sleeps looping items h = tt
notify-Sleeps paused items h = tt
notify-Sleeps (deciding d) items h = h
notify-Sleeps (waiting d b) items h = tt
notify-Sleeps ended items h = tt

module _ (IsHeap : List ℕ → Type 0) (push_heap pop_heap : List Item → List Item)
    (laws : HeapLaws IsHeap push_heap pop_heap) where
  pub record IsSound (w : World) : Type 0 where
    pub in_heap : IsHeap (times w.scheduler.scheduled)
    pub sleeps : Sleeps w.place w.scheduler.scheduled

  unlocked-Shrinks :
      (p : Place) (items rest : List Item)
      → IsHeap (times items)
      → Shrinks IsHeap push_heap pop_heap laws items rest
      → Sleeps p items
      → Sleeps p rest
  unlocked-Shrinks looping items rest h s l = tt
  unlocked-Shrinks paused items rest h s l = tt
  unlocked-Shrinks (deciding d) items rest h s l = s.later d h l
  unlocked-Shrinks (waiting d true) items rest h s l = tt
  unlocked-Shrinks (waiting d false) items rest h s l = s.later d h l
  unlocked-Shrinks ended items rest h s l = tt

  -- The item of a `schedule` that does not notify leaves the deadline valid.
  schedule-Later :
      (d : Option ℕ) (id q tp : ℕ) (s : Scheduler)
      → IsHeap (times s.scheduled)
      → Later d s.scheduled
      → (s.notified == (schedule push_heap pop_heap id q tp s).notified) ≡ true
      → Later d (schedule push_heap pop_heap id q tp s).scheduled
  schedule-Later d id q tp s h l e =
      let (h', perm, why) = schedule-Perm IsHeap push_heap pop_heap laws id q tp s h in
      elim why [
        | inl (all, n) ↦ absurd (ground (arith, e, n))
        | inr (x, xs, f, le, n) ↦ behind d x xs f le perm l
      ]
    where
      behind :
          (d : Option ℕ) (x : Item) (xs : List Item)
          → s.scheduled ≡ x ∷ xs
          → x.tp ≤ tp
          → Permᴰ
              (schedule push_heap pop_heap id q tp s).scheduled
              (s.scheduled ++ record { tp = tp; p = q; ident = id } ∷ [])
          → Later d s.scheduled
          → Later d (schedule push_heap pop_heap id q tp s).scheduled
      behind none x xs f le perm l = absurd cc
      behind (some t) x xs f le perm l =
          let first : All (λ y. t ≤ y.tp) (x ∷ xs) = subst (All (λ y. t ≤ y.tp)) f l in
          All-Perm (λ y. t ≤ y.tp) (Permᴰ.symm perm)
            (All-append (λ y. t ≤ y.tp) s.scheduled (record { tp = tp; p = q; ident = id } ∷ []) l
              (omega (arith, first.0, le), tt))

  schedule-Sleeps :
      (p : Place) (id q tp : ℕ) (s : Scheduler)
      → IsHeap (times s.scheduled)
      → (s.notified == (schedule push_heap pop_heap id q tp s).notified) ≡ true
      → Sleeps p s.scheduled
      → Sleeps p (schedule push_heap pop_heap id q tp s).scheduled
  schedule-Sleeps looping id q tp s h e l = tt
  schedule-Sleeps paused id q tp s h e l = tt
  schedule-Sleeps (deciding d) id q tp s h e l = schedule-Later d id q tp s h l e
  schedule-Sleeps (waiting d true) id q tp s h e l = tt
  schedule-Sleeps (waiting d false) id q tp s h e l = schedule-Later d id q tp s h l e
  schedule-Sleeps ended id q tp s h e l = tt

  woken-Sleeps : (p : Place) (items : List Item) → is_unlocked p ≡ true → Sleeps (notify p) items
  woken-Sleeps looping items e = tt
  woken-Sleeps paused items e = tt
  woken-Sleeps (deciding d) items e = absurd cc
  woken-Sleeps (waiting d b) items e = tt
  woken-Sleeps ended items e = tt

  schedule_item-IsSound :
      (id q tp : ℕ) (w : World)
      → is_unlocked w.place ≡ true
      → IsSound w
      → IsSound (schedule_item push_heap pop_heap id q tp w)
  unfolding schedule_item
  schedule_item-IsSound id q tp w free h =
      let s = schedule push_heap pop_heap id q tp w.scheduler in
      let (h', _, _) = schedule-Perm IsHeap push_heap pop_heap laws id q tp w.scheduler h.in_heap in
      elim (Bool-cases (w.scheduler.notified == s.notified)) [
        | inl same ↦ record {
          in_heap = h';
          sleeps =
              subst (λ p. Sleeps p s.scheduled) (sym (cond_true _ _ _ same))
                (schedule-Sleeps w.place id q tp w.scheduler h.in_heap same h.sleeps);
        }
        | inr more ↦ record {
          in_heap = h';
          sleeps =
              subst (λ p. Sleeps p s.scheduled) (sym (cond_false _ _ _ more))
                (woken-Sleeps w.place s.scheduled free);
        }
      ]

  -- What the worker decides fits what `get_expired_lk` left.
  visit-Sleeps :
      (can_block : Bool) (now : ℕ) (s : Scheduler) (r : Expired) (w : World) (before : List Item)
      → Expires now before s.scheduled r
      → Sleeps (visit push_heap pop_heap can_block s r w).place s.scheduled
  unfolding visit
  visit-Sleeps can_block now s (promise p) w before ex = tt
  visit-Sleeps false now s (until t) w before ex = tt
  visit-Sleeps true now s (until t) w before (_, x, xs, _, e, _, f, _, all, _) =
      subst (All (λ y. t ≤ y.tp)) (sym e) (omega (arith, f), all)
  visit-Sleeps false now s forever w before ex = tt
  visit-Sleeps true now s forever w before (_, e) = e

  visit-scheduler :
      (can_block : Bool) (s : Scheduler) (r : Expired) (w : World)
      → (visit push_heap pop_heap can_block s r w).scheduler ≡ s
  unfolding visit
  visit-scheduler can_block s (promise p) w = refl
  visit-scheduler can_block s (until t) w = refl
  visit-scheduler can_block s forever w = refl

  work-IsSound :
      (fuel now : ℕ) (can_block : Bool) (w : World)
      → length w.scheduler.scheduled < fuel
      → IsSound w
      → (w' : World) × (work push_heap pop_heap fuel can_block now w ≡ some w') × IsSound w'
  unfolding work
  work-IsSound fuel now can_block w lt h =
      let (s, r, run, h', ex) =
        get_expired-Expires IsHeap push_heap pop_heap laws fuel now w.scheduler lt h.in_heap in
      let w' = visit push_heap pop_heap can_block s r w in
      let same = visit-scheduler can_block s r w in
      (
        w',
        rw (work, run) refl,
        record {
          in_heap = subst (λ z. IsHeap (times z.scheduled)) (sym same) h';
          sleeps =
              subst (λ z. Sleeps w'.place z.scheduled) (sym same)
                (visit-Sleeps can_block now s r w w.scheduler.scheduled ex);
        },
      )

  some-world : (a b : World) → some a ≡ some b → a ≡ b
  some-world a b e = cc

  worker_step-IsSound :
      (fuel now : ℕ) (can_block : Bool) (p : Place) (w w' : World)
      → w.place ≡ p
      → length w.scheduler.scheduled < fuel
      → IsSound w
      → worker_step push_heap pop_heap fuel can_block now p w ≡ some w'
      → IsSound w'
  unfolding worker_step
  worker_step-IsSound fuel now can_block looping w w' e lt h run =
      subst IsSound (some-world _ w' run) (record { in_heap = h.in_heap; sleeps = awake w.stop })
    where
      awake : (b : Bool) → Sleeps (if b then ended else paused) w.scheduler.scheduled
      awake true = tt
      awake false = tt
  worker_step-IsSound fuel now can_block paused w w' e lt h run = elim (Bool-cases w.stop) [
    | inl b ↦
        subst IsSound (some-world _ w' (sym (cond_true _ _ _ b) ∙ run))
          (record { in_heap = h.in_heap; sleeps = tt })
    | inr b ↦
        let (w1, done, h1) = work-IsSound fuel now can_block w lt h in
        subst IsSound (some-world w1 w' (sym done ∙ sym (cond_false _ _ _ b) ∙ run)) h1
  ]
  worker_step-IsSound fuel now can_block (deciding d) w w' e lt h run =
      subst IsSound (some-world _ w' run) (record {
        in_heap = h.in_heap;
        sleeps = subst (λ p. Sleeps p w.scheduler.scheduled) e h.sleeps;
      })
  worker_step-IsSound fuel now can_block (waiting d b) w w' e lt h run =
      elim (Bool-cases (b || is_due now d)) [
        | inl c ↦
            subst IsSound (some-world _ w' (sym (cond_true _ _ _ c) ∙ run))
              (record { in_heap = h.in_heap; sleeps = tt })
        | inr c ↦ let never : none ≡ some w' = sym (cond_false _ _ _ c) ∙ run in absurd cc
      ]
  worker_step-IsSound fuel now can_block ended w w' e lt h run =
      subst IsSound (some-world w w' run) h

  Step-IsSound : (w w' : World) → Step push_heap pop_heap w w' → IsSound w → IsSound w'
  unfolding request_stop step_worker
  Step-IsSound w w' (schedules id p tp _ free) h = schedule_item-IsSound id p tp w free h
  Step-IsSound w w' (cancels fuel id e _ s found free run) h =
      let gone = cancel-Shrinks IsHeap push_heap pop_heap laws fuel id e w.scheduler s found run in
      record {
        in_heap = gone.in_heap h.in_heap;
        sleeps = unlocked-Shrinks w.place w.scheduler.scheduled s.scheduled h.in_heap gone h.sleeps;
      }
  Step-IsSound w w' (stops _) h = record {
    in_heap = h.in_heap;
    sleeps = notify-Sleeps w.place w.scheduler.scheduled h.sleeps;
  }
  Step-IsSound w w' (works fuel now can_block _ _ lt run) h =
      worker_step-IsSound fuel now can_block w.place w w' refl lt h run
  Step-IsSound w w' (wakes d b _ e) h = record { in_heap = h.in_heap; sleeps = tt }

  Steps-IsSound : (w w' : World) → Steps push_heap pop_heap w w' → IsSound w → IsSound w'
  Steps-IsSound w w' (stay _) h = h
  Steps-IsSound w w' (go _ v _ s rest) h = Steps-IsSound v w' rest (Step-IsSound w v s h)

  -- The worker does not oversleep. From its start, whatever the threads schedule, cancel and stop:
  -- where the worker waits and has not been notified, no item expires before the time until which
  -- it waits, and if it waits without a time, there is no item.
  pub Steps-not_overslept :
      (w : World) (d : Option ℕ)
      → Steps push_heap pop_heap start w
      → w.place ≡ waiting d false
      → Later d w.scheduler.scheduled
  unfolding start
  Steps-not_overslept w d steps e =
      let h = Steps-IsSound start w steps (record { in_heap = laws.none_held; sleeps = tt }) in
      subst (λ p. Sleeps p w.scheduler.scheduled) e h.sleeps
