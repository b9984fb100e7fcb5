-- ===== src/Subtask.antt =====
-- The model of subtask.h: a coroutine whose frame is owned by one object, which is awaited once.
--
-- The object stands at an address, which changes when it is moved; the promise in the frame points
-- back at it. What is left of an object that was moved from is in `husks`. A fault is what the code
-- must not do: an assertion that fails, the use of a frame that is destroyed, or of a pointer to an
-- object that has moved.
pub mod Contract
pub mod Session
pub mod Eager
mod Tests
use coroutines_classes.Prelude.{
  ℕ, ◌+◌, ◌==◌, List, [], ◌∷◌, ◌++◌, ◌&&◌, Bool, true, false, not, if◌then◌else◌,
}
use coroutines_classes.Future.{
  Stored, not_value, value, exception, Got, returned, thrown, not_ready,
}

pub data State : Type 0 where
  unused : State
  running : State
  result : State
  exceptional : State

pub data Fault : Type 0 where
  failed_assert : Fault
  no_frame : Fault
  dangling : Fault
  other_member : Fault

infixl 5 ◌>>=◌
pub data Run {ℓ} (A : Type ℓ) : Type ℓ where
  done : A → Run A
  faults : Fault → Run A

abbrev pub ◌>>=◌ {ℓ ℓ'} : {A : Type ℓ} → {B : Type ℓ'} → Run A → (A → Run B) → Run B
done x >>= f = f x
faults e >>= f = faults e

pub record Subtask {ℓ} (A : Type ℓ) : Type ℓ where
  pub h : ℕ
  pub state : State
  pub stored : Stored A

pub record Promise : Type 0 where
  pub future : ℕ
  pub awaiter : ℕ

-- The subtask, its coroutine, and what has been done: how often the frame was resumed and
-- destroyed, which awaiters were resumed. `is_suspended` says that the frame stands where it can be
-- resumed.
pub record World {ℓ} (A : Type ℓ) : Type ℓ where
  pub sub : Subtask A
  pub address : ℕ
  pub exists : Bool
  pub promise : Promise
  pub is_suspended : Bool
  pub started : ℕ
  pub destroyed : ℕ
  pub woken : List ℕ
  pub husks : List (Subtask A)

abbrev pub is_unused : State → Bool
is_unused unused = true
is_unused running = false
is_unused result = false
is_unused exceptional = false

abbrev pub is_running : State → Bool
is_running unused = false
is_running running = true
is_running result = false
is_running exceptional = false

module _ {ℓ} {A : Type ℓ} where
  -- `get_return_object`, at the address `a`, of the frame `h`.
  unfoldable pub construct : ℕ → ℕ → World A
  construct a h = record {
    sub = record { h = h; state = unused; stored = not_value };
    address = a;
    exists = true;
    promise = record { future = 0; awaiter = 0 };
    is_suspended = true;
    started = 0;
    destroyed = 0;
    woken = [];
    husks = [];
  }

  unfoldable pub await_ready : Subtask A → Bool
  await_ready s = not (is_unused s.state)

  -- The promise of the frame of `_h`, if there is one.
  unfoldable pub with_promise : World A → Promise → Run (World A)
  with_promise w p =
      if w.sub.h == 0
      then faults no_frame
      else (if w.destroyed == 0 then done (record w { promise = p }) else faults no_frame)

  -- The frame is resumed, from where it is suspended.
  unfoldable pub resume_frame : World A → Run (World A)
  resume_frame w =
      if w.is_suspended
      then done (record w { is_suspended = false; started = w.started + 1 })
      else faults no_frame

  -- `await_suspend`: the handle that it returns is resumed.
  unfoldable pub await_suspend : ℕ → World A → Run (World A)
  await_suspend awt w =
      let s = w.sub in
      with_promise (record w { sub = record s { state = running } })
        (record { future = w.address; awaiter = awt })
      >>= resume_frame

  -- `subscribe_awaiter`, which leaves the state as it is.
  unfoldable pub subscribe_awaiter : ℕ → World A → Run (World A)
  subscribe_awaiter awt w =
      with_promise w (record { future = w.address; awaiter = awt }) >>= resume_frame

  abbrev pub read_member : Stored A → State → Run (Got A)
  read_member s unused = done not_ready
  read_member s running = done not_ready
  read_member (value v) result = done (returned v)
  read_member not_value result = faults other_member
  read_member (exception e) result = faults other_member
  read_member (exception e) exceptional = done (thrown e)
  read_member not_value exceptional = faults other_member
  read_member (value v) exceptional = faults other_member

  unfoldable pub await_resume : Subtask A → Run (Got A)
  await_resume s = read_member s.stored s.state

  -- The expression `co_await` up to where the coroutine goes on at once or is suspended.
  unfoldable pub co_await : ℕ → World A → Run (World A)
  co_await awt w = let later = await_suspend awt w in if await_ready w.sub then done w else later

  -- The object to which `_future` points.
  unfoldable pub at_future : World A → (Subtask A → Subtask A) → Run (World A)
  at_future w f =
      if w.exists && (w.promise.future == w.address)
      then done (record w { sub = f w.sub })
      else faults dangling

  -- `resolve` and `unhandled_exception`: what the body ends with.
  unfoldable pub resolve : A → World A → Run (World A)
  resolve v w = at_future w (λ s. record s { stored = value v; state = result })

  unfoldable pub unhandled_exception : ℕ → World A → Run (World A)
  unhandled_exception e w =
      at_future w (λ s. record s { stored = exception e; state = exceptional })

  unfoldable pub destroy_frame : World A → Run (World A)
  destroy_frame w =
      if w.destroyed == 0
      then done (record w { destroyed = 1; is_suspended = false })
      else faults no_frame

  -- `final_suspender::await_suspend`: the awaiter is resumed when the frame is gone.
  unfoldable pub final_suspend : World A → Run (World A)
  final_suspend w = do
    w1 ← at_future w (λ s. record s { h = 0 })
    w2 ← destroy_frame w1
    done (record w2 { woken = w2.woken ++ w.promise.awaiter ∷ [] })

  -- The body ends with a result.
  abbrev pub set_outcome : Stored A → World A → Run (World A)
  set_outcome not_value w = done w
  set_outcome (value v) w = resolve v w
  set_outcome (exception e) w = unhandled_exception e w

  unfoldable pub finish : Stored A → World A → Run (World A)
  finish o w = set_outcome o w >>= final_suspend

  -- The constructor that moves, at the address `b`.
  unfoldable pub move : ℕ → World A → Run (World A)
  move b w =
      let s = w.sub in
      if is_running s.state
      then faults failed_assert
      else done (record w { address = b; husks = record s { h = 0 } ∷ w.husks })

  -- The destructor of an object, which has a frame or none.
  unfoldable pub destroy_frame_of : Subtask A → World A → Run (World A)
  destroy_frame_of s w = let gone = destroy_frame w in if s.h == 0 then done w else gone

  unfoldable pub destroy_object : Subtask A → World A → Run (World A)
  destroy_object s w =
      let gone = destroy_frame_of s w in if is_running s.state then faults failed_assert else gone

  unfoldable pub destroy : World A → Run (World A)
  destroy w = do w1 ← destroy_object w.sub w; done (record w1 { exists = false })

  unfoldable pub destroy_husks : List (Subtask A) → World A → Run (World A)
  destroy_husks [] w = done w
  destroy_husks (s ∷ ss) w = destroy_object s w >>= destroy_husks ss

  -- `await_suspend({}).resume()` and `sync` of a subtask that is not ready.
  unfoldable pub join_wait : ℕ → Stored A → World A → Run (World A)
  join_wait awt o w =
      let later = await_suspend awt w >>= finish o in if await_ready w.sub then done w else later

  abbrev pub is_done : Subtask A → Bool
  is_done s = not (is_unused s.state) && not (is_running s.state)

  -- `join`, with the result that the body ends with while the thread waits.
  unfoldable pub join : ℕ → Stored A → World A → Run (World A × Got A)
  join awt o w = do w1 ← join_wait awt o w; got ← await_resume w1.sub; done (w1, got)
