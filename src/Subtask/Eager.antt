-- ===== src/Subtask/Eager.antt =====
-- A thread that joins a subtask of subtask.h, and an awaiter that is subscribed without `co_await`.
use coroutines_classes.Prelude.{
  ℕ, ◌+◌, ◌≡◌, ◌≢◌, refl, sym, ◌∙◌, ap, ◌++◌, [], ◌∷◌, Bool, true, false, cond_false, not,
  append-nil, ◌&&◌, ◌==◌, arith,
}
use coroutines_classes.Future.{
  Stored, not_value, value, exception, Got, returned, thrown, not_ready,
}
use coroutines_classes.Subtask.{
  is_unused, unused, World, done, faults, dangling, no_frame, ◌>>=◌, await_ready, await_resume,
  await_suspend, join, join_wait, finish, co_await, with_promise, resume_frame, subscribe_awaiter,
  destroy, destroy_object, destroy_frame_of, destroy_frame, move, resolve, unhandled_exception,
  at_future,
}
use coroutines_classes.Subtask.Contract.{
  fresh, ended, operate, is_outcome, Stands, is_fresh, is_ended,
}
use coroutines_classes.Subtask.Session.{await-Stands, finish-Stands, is_not_zero}

is_other : (e : Bool) (n b : ℕ) → b ≢ n → (e && (n == b)) ≡ false
is_other e n b h = ground (arith, h)

module _ {ℓ} {A : Type ℓ} where
  abbrev pub got : Stored A → Got A
  got not_value = not_ready
  got (value v) = returned v
  got (exception e) = thrown e

  ended-reads :
      (w : World A) (o : Stored A) → Stands w (ended o) → await_resume w.sub ≡ done (got o)
  unfolding await_resume
  ended-reads w not_value (is_ended _ _ k e x t d) = absurd cc
  ended-reads w (value v) (is_ended _ _ k e x t d) = rw e refl
  ended-reads w (exception v) (is_ended _ _ k e x t d) = rw e refl

  ended-waits :
      (w : World A) (awt : ℕ) (o o' : Stored A) → Stands w (ended o) → join_wait awt o' w ≡ done w
  unfolding join_wait await_ready
  ended-waits w awt not_value o' (is_ended _ _ k e x t d) = absurd cc
  ended-waits w awt (value v) o' (is_ended _ _ k e x t d) = rw e refl
  ended-waits w awt (exception v) o' (is_ended _ _ k e x t d) = rw e refl

  ended-joins :
      (w : World A) (awt : ℕ) (o o' : Stored A)
      → Stands w (ended o)
      → join awt o' w ≡ done (w, got o)
  unfolding join
  ended-joins w awt o o' h = rw (join, ended-waits w awt o o' h, ended-reads w o h) refl

  fresh-waits :
      (w : World A) (awt : ℕ) (o : Stored A)
      → Stands w fresh
      → is_outcome o ≡ true
      → (w' : World A) × (join_wait awt o w ≡ done w')
        × Stands w' (ended o)
        × (w'.woken ≡ w.woken ++ awt ∷ [])
  unfolding join_wait operate co_await await_ready
  fresh-waits w awt o (is_fresh _ h s x i t d) k =
      let (w1, go, h1, e1, _) = await-Stands w awt (is_fresh _ h s x i t d) in
      let (w2, end, h2, e2, _) = finish-Stands w1 awt o h1 k in
      let suspends = cond_false _ _ _ (ap (λ z. not (is_unused z)) s) in
      let waits = cond_false _ _ _ (ap (λ z. not (is_unused z)) s) in
      (
        w2,
        waits ∙ ap (λ z. z >>= finish o) (sym suspends ∙ go) ∙ end,
        h2,
        e2 ∙ ap (λ z. z ++ awt ∷ []) (e1 ∙ append-nil _),
      )

  -- `join` of a subtask that nobody awaited runs the coroutine and returns what it ended with, and
  -- each later `join` returns that again, without running anything.
  pub join-again :
      (w : World A) (awt later : ℕ) (o o' : Stored A)
      → Stands w fresh
      → is_outcome o ≡ true
      → (w' : World A) × (join awt o w ≡ done (w', got o))
        × Stands w' (ended o)
        × (w'.woken ≡ w.woken ++ awt ∷ [])
        × (join later o' w' ≡ done (w', got o))
  unfolding join
  join-again w awt later o o' h k =
      let (w1, go, h1, e1) = fresh-waits w awt o h k in
      (w1, rw (join, go, ended-reads w1 o h1) refl, h1, e1, ended-joins w1 later o o' h1)

  finish-dangling :
      (w : World A) (o : Stored A)
      → is_outcome o ≡ true
      → (w.exists && (w.promise.future == w.address)) ≡ false
      → finish o w ≡ faults dangling
  unfolding finish resolve unhandled_exception at_future
  finish-dangling w not_value k e = absurd cc
  finish-dangling w (value v) k e = rw (finish, e) refl
  finish-dangling w (exception v) k e = rw (finish, e) refl

  -- An awaiter that is subscribed with `subscribe_awaiter` leaves the subtask as if nobody had
  -- awaited it, though its coroutine runs: it may be destroyed with its frame, and its end would
  -- then write to an object that is gone; it may be moved, with the same effect; and a `co_await`
  -- resumes the frame that runs.
  pub subscribe_awaiter-unguarded :
      (w : World A) (a b awt : ℕ) (o : Stored A)
      → Stands w fresh
      → is_outcome o ≡ true
      → (b ≢ w.address)
      → (w1 : World A) × (subscribe_awaiter a w ≡ done w1)
        × (w1.sub.state ≡ unused)
        × ((destroy w1 >>= finish o) ≡ faults dangling)
        × ((move b w1 >>= finish o) ≡ faults dangling)
        × (co_await awt w1 ≡ faults no_frame)
  unfolding subscribe_awaiter with_promise resume_frame destroy destroy_object destroy_frame_of
      destroy_frame move co_await await_suspend await_ready
  subscribe_awaiter-unguarded w a b awt o (is_fresh _ h s x i t d) k far =
      let zero = is_not_zero w.sub.h h in
      (
        record w {
          promise = record { future = w.address; awaiter = a };
          is_suspended = false;
          started = w.started + 1;
        },
        rw (zero, d, i) refl,
        s,
        rw (destroy, s, zero, d) (finish-dangling _ o k refl),
        rw (move, s) (finish-dangling _ o k (is_other w.exists w.address b far)),
        rw (s, zero, d) refl,
      )
