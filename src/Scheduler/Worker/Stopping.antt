-- ===== src/Scheduler/Worker/Stopping.antt =====
-- A request to stop the worker of scheduler.h: where it ends the worker, and where it is lost.
use coroutines_classes.Scheduler.Worker.{start, Steps, stay, go, Step, stops, works}
use coroutines_classes.Prelude.{
  ℕ, zero, suc, ◌≡◌, refl, ap, ◌∙◌, List, Option, none, some, Bool, true, false, if◌then◌else◌,
  ◌>>=◌, length, arith,
}
use coroutines_classes.Scheduler.{Item, Scheduler}
use coroutines_classes.Scheduler.Worker.{
  World, Place, looping, paused, deciding, waiting, ended, is_due, request_stop, worker_step,
  step_worker,
}

abbrev pub is_deciding : Place → Bool
is_deciding (deciding d) = true
is_deciding looping = false
is_deciding paused = false
is_deciding (waiting d b) = false
is_deciding ended = false

module _ (push_heap pop_heap : List Item → List Item) where
  -- The steps of the worker, one after the other.
  unfoldable pub run_worker : ℕ → ℕ → Bool → ℕ → World → Option World
  run_worker zero fuel can_block now w = some w
  run_worker (suc n) fuel can_block now w = do
    w' ← step_worker push_heap pop_heap fuel can_block now w
    run_worker n fuel can_block now w'

  place-ends :
      (fuel now : ℕ) (can_block : Bool) (p : Place) (s : Scheduler) (b : Bool) (r : List ℕ)
      → is_deciding p ≡ false
      → run_worker 2 fuel can_block now
          (request_stop (record { scheduler = s; place = p; stop = b; answered = r }))
        ≡ some (record { scheduler = s; place = ended; stop = true; answered = r })
  unfolding run_worker step_worker worker_step request_stop
  place-ends fuel now can_block looping s b r e = refl
  place-ends fuel now can_block paused s b r e = refl
  place-ends fuel now can_block (deciding d) s b r e = absurd cc
  place-ends fuel now can_block (waiting d c) s b r e = refl
  place-ends fuel now can_block ended s b r e = refl

  -- A request to stop ends the worker within two of its steps, with no other promise resolved,
  -- wherever it stands but just before it waits.
  pub request_stop-ends :
      (fuel now : ℕ) (can_block : Bool) (w : World)
      → is_deciding w.place ≡ false
      → run_worker 2 fuel can_block now (request_stop w)
        ≡ some (record w { place = ended; stop = true })
  request_stop-ends fuel now can_block w e =
      place-ends fuel now can_block w.place w.scheduler w.stop w.answered e

  place-lost :
      (fuel now : ℕ) (can_block : Bool) (d : Option ℕ) (s : Scheduler) (b : Bool) (r : List ℕ)
      → (step_worker push_heap pop_heap fuel can_block now
            (request_stop (record { scheduler = s; place = deciding d; stop = b; answered = r }))
          ≡ some (record { scheduler = s; place = waiting d false; stop = true; answered = r }))
        × (step_worker push_heap pop_heap fuel can_block now
              (record { scheduler = s; place = waiting d false; stop = true; answered = r })
            ≡ (if is_due now d
                then some (record { scheduler = s; place = looping; stop = true; answered = r })
                else none))
  unfolding step_worker worker_step request_stop
  place-lost fuel now can_block d s b r = (refl, refl)

  Steps-append :
      (u v w : World)
      → Steps push_heap pop_heap u v
      → Step push_heap pop_heap v w
      → Steps push_heap pop_heap u w
  Steps-append u v w (stay _) s = go u w w s (stay w)
  Steps-append u v w (go _ x _ s rest) t = go u x w s (Steps-append x v w rest t)

  deciding-step :
      (fuel now : ℕ) (can_block : Bool) (d : Option ℕ) (w : World)
      → w.place ≡ deciding d
      → step_worker push_heap pop_heap fuel can_block now (request_stop w)
        ≡ some (record w { place = waiting d false; stop = true })
  deciding-step fuel now can_block d w e =
      ap
        (λ p. step_worker push_heap pop_heap fuel can_block now (
          request_stop
            (record { scheduler = w.scheduler; place = p; stop = w.stop; answered = w.answered })))
        e
      ∙ (place-lost fuel now can_block d w.scheduler w.stop w.answered).0

  -- A request to stop can be lost. Wherever the threads have brought the worker from its start to
  -- where it has found no request and is about to wait until `d`, their steps can go on so: the
  -- request is made, with its notification, and the worker then waits, with the request made and
  -- not notified of it. It goes on by itself only when `d` is reached, so never if no item gave it a
  -- time.
  pub request_stop-lost :
      (fuel now : ℕ) (can_block : Bool) (d : Option ℕ) (w : World)
      → Steps push_heap pop_heap start w
      → w.place ≡ deciding d
      → (w' : World) × Steps push_heap pop_heap start w'
        × (w'.scheduler ≡ w.scheduler)
        × (w'.stop ≡ true)
        × (w'.place ≡ waiting d false)
        × (step_worker push_heap pop_heap fuel can_block now w'
            ≡ (if is_due now d then some (record w' { place = looping }) else none))
  unfolding request_stop
  request_stop-lost fuel now can_block d w steps e =
      let w' : World = record w { place = waiting d false; stop = true } in
      let room = suc (length w.scheduler.scheduled) in
      let asked = Steps-append start w (request_stop w) steps (stops w) in
      let waits =
        works room now can_block (request_stop w) w' (omega arith)
          (deciding-step room now can_block d w e) in
      (
        w',
        Steps-append start (request_stop w) w' asked waits,
        refl,
        refl,
        refl,
        (place-lost fuel now can_block d w.scheduler w.stop w.answered).1,
      )
