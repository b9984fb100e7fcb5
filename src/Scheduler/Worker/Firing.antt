-- ===== src/Scheduler/Worker/Firing.antt =====
-- The worker of scheduler.h fires what is due, where no other thread comes in.
use mathlib.Core.List.{Permᴰ}
use mathlib.Core.List.Permᴰ
use coroutines_classes.Prelude.{
  ℕ, zero, suc, ◌<◌, ◌≤◌, ◌≡◌, ◌≢◌, ◌⊎◌, inl, inr, refl, sym, ◌∙◌, ap, subst, List, [], ◌∷◌, ◌++◌,
  append_assoc, append-nil, Option, none, some, true, false, ◌==◌, if◌then◌else◌, ◌>>=◌, arith, All,
  length, length-append, All-append,
}
use coroutines_classes.Scheduler.{Item, Scheduler, Expired, promise, until, forever, get_expired}
use coroutines_classes.Scheduler.Heap.{HeapLaws, times, length-Perm}
use coroutines_classes.Scheduler.Expiry.{IsDead, Expires, get_expired-Expires}
use coroutines_classes.Scheduler.Worker.{
  World, looping, paused, deciding, visit, work, worker_step, step_worker,
}
use coroutines_classes.Scheduler.Worker.Shrinks.{Later}
use coroutines_classes.Scheduler.Worker.Stopping.{run_worker}

-- The worker at the head of its loop, with no request to stop.
abbrev pub at_loop : Scheduler → List ℕ → World
at_loop s r = record { scheduler = s; place = looping; stop = false; answered = r }

abbrev pub about_to_wait : Option ℕ → Scheduler → List ℕ → World
about_to_wait d s r = record { scheduler = s; place = deciding d; stop = false; answered = r }

-- The promises of the items that have one, in order.
abbrev pub promises : List Item → List ℕ
promises [] = []
promises (x ∷ xs) = if x.p == 0 then promises xs else x.p ∷ promises xs

abbrev pub IsFuture : ℕ → Option ℕ → Type 0
IsFuture now none = Unit
IsFuture now (some t) = now < t

-- The items of `gone` left the queue, with nothing but what is due among them.
abbrev pub IsDeadOrDue : ℕ → Item → Type 0
IsDeadOrDue now x = IsDead x ⊎ (x.tp ≤ now)

promises-dead : (ds xs : List Item) → All IsDead ds → promises (ds ++ xs) ≡ promises xs
promises-dead [] xs a = refl
promises-dead (d ∷ ds) xs (e, a) = ground (arith, e, promises-dead ds xs a)

promises-none : (ds : List Item) → All IsDead ds → promises ds ≡ []
promises-none [] a = refl
promises-none (d ∷ ds) (e, a) = ground (arith, e, promises-none ds a)

nothing-fired : (r : List ℕ) (ds : List Item) → All IsDead ds → r ≡ r ++ promises ds
nothing-fired r ds a = sym (append-nil r) ∙ ap (λ z. r ++ z) (sym (promises-none ds a))

promises-live : (x : Item) (xs : List Item) → x.p ≢ 0 → promises (x ∷ xs) ≡ x.p ∷ promises xs
promises-live x xs n = ground (arith, n)

dead-due : (now : ℕ) (ds : List Item) → All IsDead ds → All (IsDeadOrDue now) ds
dead-due now [] a = tt
dead-due now (d ∷ ds) (e, a) = (inl e, dead-due now ds a)

module _ (IsHeap : List ℕ → Type 0) (push_heap pop_heap : List Item → List Item)
    (laws : HeapLaws IsHeap push_heap pop_heap) where
  -- The end of a run of the worker that fires what is due.
  pub record Fires (fuel now : ℕ) (s : Scheduler) (r : List ℕ) : Type 0 where
    pub turns : ℕ
    pub rest : Scheduler
    pub deadline : Option ℕ
    pub gone : List Item
    pub runs :
        run_worker push_heap pop_heap turns fuel true now (at_loop s r)
        ≡ some (about_to_wait deadline rest (r ++ promises gone))
    pub due : All (IsDeadOrDue now) gone
    pub kept : Permᴰ s.scheduled (gone ++ rest.scheduled)
    pub later : Later deadline rest.scheduled
    pub future : IsFuture now deadline

  abbrev pub at_pause : Scheduler → List ℕ → World
  at_pause s r = record { scheduler = s; place = paused; stop = false; answered = r }

  work-visit :
      (fuel now : ℕ) (s s' : Scheduler) (r : List ℕ) (e : Expired)
      → get_expired push_heap pop_heap fuel now s ≡ some (s', e)
      → work push_heap pop_heap fuel true now (at_pause s r)
        ≡ some (visit push_heap pop_heap true s' e (at_pause s r))
  unfolding work
  work-visit fuel now s s' r e run = rw (work, run) refl

  -- Two steps of the worker: it pauses, and does its work.
  turn :
      (n fuel now : ℕ) (s s' : Scheduler) (r : List ℕ) (e : Expired)
      → get_expired push_heap pop_heap fuel now s ≡ some (s', e)
      → run_worker push_heap pop_heap (suc (suc n)) fuel true now (at_loop s r)
        ≡ run_worker push_heap pop_heap n fuel true now
            (visit push_heap pop_heap true s' e (at_pause s r))
  unfolding run_worker step_worker worker_step
  turn n fuel now s s' r e run =
      ap (λ z. z >>= run_worker push_heap pop_heap n fuel true now)
        (work-visit fuel now s s' r e run)

  last-Fires :
      (fuel now : ℕ) (s s' : Scheduler) (r : List ℕ) (e : Expired)
      → get_expired push_heap pop_heap fuel now s ≡ some (s', e)
      → Expires now s.scheduled s'.scheduled e
      → ((p : ℕ) → e ≢ promise p)
      → Fires fuel now s r
  unfolding visit run_worker
  last-Fires fuel now s s' r (promise p) run ex n = absurd (n p refl)
  last-Fires fuel now s s' r (until t) run (dead, x, xs, ds, e, live, f, lt, all, perm) n = record {
    turns = 2;
    rest = s';
    deadline = some t;
    gone = dead;
    runs =
        turn 0 fuel now s s' r (until t) run
        ∙ ap (λ z. some (about_to_wait (some t) s' z)) (nothing-fired r dead ds);
    due = dead-due now dead ds;
    kept = perm;
    later = subst (All (λ y. t ≤ y.tp)) (sym e) (omega (arith, f), all);
    future = lt;
  }
  last-Fires fuel now s s' r forever run (ds, e) n = record {
    turns = 2;
    rest = s';
    deadline = none;
    gone = s.scheduled;
    runs =
        turn 0 fuel now s s' r forever run
        ∙ ap (λ z. some (about_to_wait none s' z)) (nothing-fired r s.scheduled ds);
    due = dead-due now s.scheduled ds;
    kept =
        subst (λ z. Permᴰ s.scheduled (s.scheduled ++ z)) (sym e)
          (Permᴰ.symm (Permᴰ.append-nil s.scheduled));
    later = e;
    future = tt;
  }

  first-Fires :
      (fuel now : ℕ) (s s' : Scheduler) (r : List ℕ) (e : Expired)
      → ((s2 : Scheduler) (r2 : List ℕ)
          → length s2.scheduled < length s.scheduled
          → IsHeap (times s2.scheduled)
          → Fires fuel now s2 r2)
      → get_expired push_heap pop_heap fuel now s ≡ some (s', e)
      → IsHeap (times s'.scheduled)
      → Expires now s.scheduled s'.scheduled e
      → Fires fuel now s r
  unfolding visit
  first-Fires fuel now s s' r (promise p) next run h (dead, x, ds, px, n, le, all, perm) =
      let shorter : length s'.scheduled < length s.scheduled =
        omega (arith, length-Perm perm, length-append dead (x ∷ s'.scheduled)) in
      let rest = next s' (r ++ p ∷ []) shorter h in
      let fired : promises (dead ++ x ∷ rest.gone) ≡ p ∷ promises rest.gone =
        promises-dead dead (x ∷ rest.gone) ds
        ∙ promises-live x rest.gone (λ z. n (sym px ∙ z))
        ∙ ap (λ z. z ∷ promises rest.gone) px in
      record {
        turns = suc (suc rest.turns);
        rest = rest.rest;
        deadline = rest.deadline;
        gone = dead ++ x ∷ rest.gone;
        runs =
            turn rest.turns fuel now s s' r (promise p) run
            ∙ rest.runs
            ∙ ap (λ z. some (about_to_wait rest.deadline rest.rest z))
                (append_assoc r (p ∷ []) (promises rest.gone) ∙ ap (λ z. r ++ z) (sym fired));
        due =
            All-append (IsDeadOrDue now) dead (x ∷ rest.gone) (dead-due now dead ds)
              (inr le, rest.due);
        kept =
            subst (Permᴰ s.scheduled) (sym (append_assoc dead (x ∷ rest.gone) rest.rest.scheduled))
              (Permᴰ.trans perm (Permᴰ.append_left dead (Permᴰ.cons refl rest.kept)));
        later = rest.later;
        future = rest.future;
      }
  first-Fires fuel now s s' r (until t) next run h ex =
      last-Fires fuel now s s' r (until t) run ex (λ p e. cc)
  first-Fires fuel now s s' r forever next run h ex =
      last-Fires fuel now s s' r forever run ex (λ p e. cc)

  within-Fires :
      (k fuel now : ℕ) (s : Scheduler) (r : List ℕ)
      → length s.scheduled ≤ k
      → length s.scheduled < fuel
      → IsHeap (times s.scheduled)
      → Fires fuel now s r
  within-Fires zero fuel now s r le lt h =
      let (s', e, run, h', ex) =
        get_expired-Expires IsHeap push_heap pop_heap laws fuel now s lt h in
      first-Fires fuel now s s' r e (λ s2 r2 less h2. absurd (omega (arith, less, le))) run h' ex
  within-Fires (suc k) fuel now s r le lt h =
      let (s', e, run, h', ex) =
        get_expired-Expires IsHeap push_heap pop_heap laws fuel now s lt h in
      first-Fires fuel now s s' r e
        (λ s2 r2 less h2.
          within-Fires k fuel now s2 r2 (omega (arith, less, le)) (omega (arith, less, lt)) h2)
        run h' ex

  -- The worker fires all that is due. At the head of its loop, with no request to stop and no other
  -- thread, with fuel above the number of items and a policy that can block: after some turns it is
  -- about to wait, it has resolved, one after the other, the promises of the items that are gone;
  -- only such items are gone as are due or were canceled, all others are still in the queue, and
  -- none of these is due, since it waits for a time in the future that is not after any of them, or
  -- has no item left.
  pub run_worker-Fires :
      (fuel now : ℕ) (s : Scheduler) (r : List ℕ)
      → length s.scheduled < fuel
      → IsHeap (times s.scheduled)
      → Fires fuel now s r
  run_worker-Fires fuel now s r lt h =
      within-Fires (length s.scheduled) fuel now s r (omega arith) lt h
