-- ===== src/Task/Tests.antt =====
-- Examples for the tasks.
use coroutines_classes.Prelude.{ℕ, ◌≡◌, [], update, refl, some, none, true, false, arith}
use coroutines_classes.Awaiter.{Chains, null}
use coroutines_classes.Awaiter.Resume.{KeepsLinks}
use coroutines_classes.Future.{not_value, exception}
use coroutines_classes.Task.{Task, init, release_ref, final_count}
use coroutines_classes.Task.Contract.{View, releases, operate, IsAlive, Stands}
use coroutines_classes.Task.Steps.{step, step-Stands}
use coroutines_classes.Task.Ready.{final_count-release_ref}

-- A task as it is created: a handle, and the coroutine.
abbrev created : View ℕ
created = record { users = 1; running = true; result = not_value; taken = false }

init-IsAlive : IsAlive init created
unfolding init
init-IsAlive = record { word = refl; room = omega arith; kept = refl; ended = refl; present = refl }

-- A task whose coroutine has ended with the exception 7, and its last handle.
abbrev failed : Task ℕ
failed = record {
  status = 4611686018427387905;
  handle = true;
  stored = exception 7;
  destroyed = false;
  reported = false;
}

abbrev failed_view : View ℕ
failed_view = record { users = 1; running = false; result = exception 7; taken = false }

failed-IsAlive : IsAlive failed failed_view
failed-IsAlive = record {
  word = refl;
  room = omega arith;
  kept = refl;
  ended = refl;
  present = refl;
}

step-Stands_example :
    (t : Task ℕ) × (step releases failed ≡ some t) × Stands t (operate releases failed_view)
step-Stands_example = step-Stands releases failed failed_view (omega arith) failed-IsAlive

final_count-release_ref_example :
    ((final_count {A = ℕ} init).1 ≡ false) × (release_ref (final_count {A = ℕ} init).0 ≡ none)
final_count-release_ref_example = final_count-release_ref init created refl refl init-IsAlive

abbrev inert : ℕ → Chains → Chains
inert y c = c

inert-KeepsLinks : KeepsLinks inert
inert-KeepsLinks = record { links = λ y c q n. refl; quiet = λ y c. refl }

-- The awaiters 12, 11 and 10 wait; 11 has a handle.
abbrev three_wait : Chains
three_wait = record { next = update (update (λ _. null) 11 10) 12 11; head = 12; log = [] }
