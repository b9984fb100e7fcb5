-- ===== src/Subtask/Session.antt =====
-- A subtask of subtask.h does what its contract says, in each allowed history.
use coroutines_classes.Prelude.{
  All, ℕ, ◌+◌, ◌≡◌, ◌≢◌, refl, sym, ap, ◌∙◌, List, [], ◌∷◌, ◌++◌, append-nil, append_assoc, true,
  false, ◌==◌, arith,
}
use coroutines_classes.Future.{Stored, not_value, value, exception}
use coroutines_classes.Subtask.{
  destroy_husks, running, is_running, Subtask, World, Run, done, ◌>>=◌, await_ready, await_suspend,
  with_promise, resume_frame, at_future, resolve, unhandled_exception, final_suspend, destroy_frame,
  destroy_frame_of, destroy_object, co_await, finish, move, destroy, construct,
}
use coroutines_classes.Subtask.Contract.{
  View, fresh, awaited, ended, gone, Op, awaits, finishes, moves, destroys, state_of, is_outcome,
  operate, Turn, first_await, later_await, ends, moves_fresh, moves_ended, drops_fresh, drops_ended,
  Stands, is_fresh, is_awaited, is_ended, is_gone,
}

pub is_not_zero : (n : ℕ) → n ≢ 0 → (n == 0) ≡ false
is_not_zero n h = ground (arith, h)

is_same : (n : ℕ) → (n == n) ≡ true
is_same n = ground arith

-- What is left of an object that was moved from has no frame.
abbrev pub IsHusk {ℓ} : {A : Type ℓ} → Subtask A → Type 0
IsHusk s = (s.h ≡ 0) × (is_running s.state ≡ false)

module _ {ℓ} {A : Type ℓ} where
  -- An operation leads to a state that stands for `v`, and resumes those of `woken`.
  abbrev pub Leads : Op A → World A → View A → List ℕ → Type ℓ
  Leads op w v woken =
      (w' : World A) × (operate op w ≡ done w')
      × Stands w' v
      × (w'.woken ≡ w.woken ++ woken)
      × (All IsHusk w.husks → All IsHusk w'.husks)

  pub await-Stands :
      (w : World A) (awt : ℕ) → Stands w fresh → Leads (awaits awt) w (awaited awt) []
  unfolding operate co_await await_ready await_suspend with_promise resume_frame
  await-Stands w awt (is_fresh _ h s x i t d) =
      let zero = is_not_zero w.sub.h h in
      (
        record w {
          sub = record w.sub { state = running };
          promise = record { future = w.address; awaiter = awt };
          is_suspended = false;
          started = w.started + 1;
        },
        rw (s, zero, d, i) refl,
        is_awaited _ awt h refl x refl (ap (λ n. n + 1) t) d,
        sym (append-nil _),
        λ k. k,
      )

  later-Stands :
      (w : World A) (o : Stored A) (awt : ℕ)
      → Stands w (ended o)
      → Leads (awaits awt) w (ended o) []
  unfolding operate co_await await_ready await_suspend with_promise resume_frame
  later-Stands w not_value awt (is_ended _ _ k e x t d) = absurd cc
  later-Stands w (value v) awt (is_ended _ _ k e x t d) =
      (w, rw e refl, is_ended w (value v) k e x t d, sym (append-nil _), λ k. k)
  later-Stands w (exception n) awt (is_ended _ _ k e x t d) =
      (w, rw e refl, is_ended w (exception n) k e x t d, sym (append-nil _), λ k. k)

  finish-done :
      (w : World A) (awt : ℕ) (o : Stored A)
      → Stands w (awaited awt)
      → is_outcome o ≡ true
      → finish o w
        ≡ done (record w {
          sub = record { h = 0; state = state_of o; stored = o };
          is_suspended = false;
          destroyed = 1;
          woken = w.woken ++ awt ∷ [];
        })
  unfolding finish resolve unhandled_exception final_suspend destroy_frame at_future
  finish-done w awt not_value st k = absurd cc
  finish-done w awt (value v) (is_awaited _ _ h s x p t d) k =
      rw (finish, x, p, d, is_same w.address, final_suspend, is_same w.address) refl
  finish-done w awt (exception v) (is_awaited _ _ h s x p t d) k =
      rw (finish, x, p, d, is_same w.address, final_suspend, is_same w.address) refl

  pub finish-Stands :
      (w : World A) (awt : ℕ) (o : Stored A)
      → Stands w (awaited awt)
      → is_outcome o ≡ true
      → Leads (finishes o) w (ended o) (awt ∷ [])
  unfolding operate
  finish-Stands w awt o (is_awaited _ _ h s x p t d) k = (
    _,
    finish-done w awt o (is_awaited w awt h s x p t d) k,
    is_ended _ o k refl x t refl,
    refl,
    λ k. k,
  )

  move_fresh-Stands : (w : World A) (b : ℕ) → Stands w fresh → Leads (moves b) w fresh []
  unfolding operate move
  move_fresh-Stands w b (is_fresh _ h s x i t d) = (
    record w { address = b; husks = record w.sub { h = 0 } ∷ w.husks },
    rw s refl,
    is_fresh _ h s x i t d,
    sym (append-nil _),
    λ all. ((refl, ap is_running s), all),
  )

  move_ended-Stands :
      (w : World A) (o : Stored A) (b : ℕ) → Stands w (ended o) → Leads (moves b) w (ended o) []
  unfolding operate move
  move_ended-Stands w not_value b (is_ended _ _ k e x t d) = absurd cc
  move_ended-Stands w (value v) b (is_ended _ _ k e x t d) = (
    record w { address = b; husks = record w.sub { h = 0 } ∷ w.husks },
    rw e refl,
    is_ended _ (value v) k e x t d,
    sym (append-nil _),
    λ all. ((refl, ap (λ z. is_running z.state) e), all),
  )
  move_ended-Stands w (exception v) b (is_ended _ _ k e x t d) = (
    record w { address = b; husks = record w.sub { h = 0 } ∷ w.husks },
    rw e refl,
    is_ended _ (exception v) k e x t d,
    sym (append-nil _),
    λ all. ((refl, ap (λ z. is_running z.state) e), all),
  )

  drop_fresh-Stands : (w : World A) → Stands w fresh → Leads destroys w gone []
  unfolding operate destroy destroy_object destroy_frame_of destroy_frame
  drop_fresh-Stands w (is_fresh _ h s x i t d) = (
    record w { destroyed = 1; is_suspended = false; exists = false },
    rw (destroy, s, is_not_zero w.sub.h h, d) refl,
    is_gone _ refl refl,
    sym (append-nil _),
    λ k. k,
  )

  drop_ended-Stands : (w : World A) (o : Stored A) → Stands w (ended o) → Leads destroys w gone []
  unfolding operate destroy destroy_object destroy_frame_of destroy_frame
  drop_ended-Stands w not_value (is_ended _ _ k e x t d) = absurd cc
  drop_ended-Stands w (value v) (is_ended _ _ k e x t d) = (
    record w { exists = false },
    rw (destroy, e) refl,
    is_gone _ refl d,
    sym (append-nil _),
    λ k. k,
  )
  drop_ended-Stands w (exception v) (is_ended _ _ k e x t d) = (
    record w { exists = false },
    rw (destroy, e) refl,
    is_gone _ refl d,
    sym (append-nil _),
    λ k. k,
  )

  pub step-Leads :
      (w : World A) (v v' : View A) (op : Op A) (woken : List ℕ)
      → Turn v op v' woken
      → Stands w v
      → Leads op w v' woken
  step-Leads w _ _ _ _ (first_await awt) h = await-Stands w awt h
  step-Leads w _ _ _ _ (later_await o awt) h = later-Stands w o awt h
  step-Leads w _ _ _ _ (ends awt o k) h = finish-Stands w awt o h k
  step-Leads w _ _ _ _ (moves_fresh b) h = move_fresh-Stands w b h
  step-Leads w _ _ _ _ (moves_ended o b) h = move_ended-Stands w o b h
  step-Leads w _ _ _ _ drops_fresh h = drop_fresh-Stands w h
  step-Leads w _ _ _ _ (drops_ended o) h = drop_ended-Stands w o h

  unfoldable pub run : List (Op A) → World A → Run (World A)
  run [] w = done w
  run (op ∷ ops) w = operate op w >>= run ops

  pub data Turns : View A → List (Op A) → View A → List ℕ → Type ℓ where
    stay : (v : View A) → Turns v [] v []
    go :
        (u v v' : View A) (op : Op A) (ops : List (Op A)) (now later : List ℕ)
        → Turn u op v now
        → Turns v ops v' later
        → Turns u (op ∷ ops) v' (now ++ later)

  pub record Lives (ops : List (Op A)) (w : World A) (v : View A) (woken : List ℕ) : Type ℓ where
    pub world : World A
    pub runs : run ops w ≡ done world
    pub stands : Stands world v
    pub wakes : world.woken ≡ w.woken ++ woken
    pub are_husks : All IsHusk world.husks

  run-Stands :
      (w : World A) (v v' : View A) (ops : List (Op A)) (woken : List ℕ)
      → Turns v ops v' woken
      → Stands w v
      → All IsHusk w.husks
      → Lives ops w v' woken
  unfolding run
  run-Stands w _ _ _ _ (stay v) h k = record {
    world = w;
    runs = refl;
    stands = h;
    wakes = sym (append-nil _);
    are_husks = k;
  }
  run-Stands w _ v' _ _ (go u v _ op ops now later t ts) h k =
      let (w1, step, h1, e1, k1) = step-Leads w u v op now t h in
      let rest = run-Stands w1 v v' ops later ts h1 (k1 k) in
      record {
        world = rest.world;
        runs = rw (run, step) rest.runs;
        stands = rest.stands;
        wakes = rest.wakes ∙ ap (λ z. z ++ later) e1 ∙ append_assoc w.woken now later;
        are_husks = rest.are_husks;
      }

  husks-destroyed :
      (ss : List (Subtask A)) (w : World A) → All IsHusk ss → destroy_husks ss w ≡ done w
  unfolding destroy_husks destroy_object destroy_frame_of
  husks-destroyed [] w k = refl
  husks-destroyed (s ∷ ss) w ((e, r), k) =
      rw (destroy_husks, destroy_object, destroy_frame_of, r, e) (husks-destroyed ss w k)

  -- The life of a subtask that is made of a frame. In each allowed history, however often it is
  -- moved and asked, every operation succeeds: no assertion fails, the promise points at the object,
  -- and the frame is there when it is resumed and destroyed. The state is that of the contract: the
  -- frame was destroyed once if the coroutine has ended or the subtask is gone, and else not. The
  -- awaiters that were resumed are those of the contract. What was moved from is destroyed without
  -- an effect.
  pub run-lives :
      (a h : ℕ) (v : View A) (ops : List (Op A)) (woken : List ℕ)
      → h ≢ 0
      → Turns fresh ops v woken
      → (w : World A) × (run ops (construct a h) ≡ done w)
        × Stands w v
        × (w.woken ≡ woken)
        × (destroy_husks w.husks w ≡ done w)
  unfolding construct
  run-lives a h v ops woken n ts =
      let life =
        run-Stands (construct a h) fresh v ops woken ts (is_fresh _ n refl refl refl refl refl)
          tt in
      (
        life.world,
        life.runs,
        life.stands,
        life.wakes,
        husks-destroyed life.world.husks life.world life.are_husks,
      )
