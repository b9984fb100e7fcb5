-- ===== src/Subtask/Contract.antt =====
-- The contract of a subtask of subtask.h, and which states of the object stand for one of the contract.
use coroutines_classes.Prelude.{ℕ, ◌≡◌, ◌≢◌, List, [], ◌∷◌, Bool, true, false}
use coroutines_classes.Future.{Stored, not_value, value, exception}
use coroutines_classes.Subtask.{
  State, unused, running, result, exceptional, World, Run, co_await, finish, move, destroy,
}

-- A subtask that nobody awaited, one on which an awaiter waits, one with its outcome, and one
-- destroyed.
pub data View {ℓ} (A : Type ℓ) : Type ℓ where
  fresh : View A
  awaited : ℕ → View A
  ended : Stored A → View A
  gone : View A

pub data Op {ℓ} (A : Type ℓ) : Type ℓ where
  awaits : ℕ → Op A
  finishes : Stored A → Op A
  moves : ℕ → Op A
  destroys : Op A

abbrev pub state_of {ℓ} : {A : Type ℓ} → Stored A → State
state_of not_value = unused
state_of (value v) = result
state_of (exception e) = exceptional

abbrev pub is_outcome {ℓ} : {A : Type ℓ} → Stored A → Bool
is_outcome not_value = false
is_outcome (value v) = true
is_outcome (exception e) = true

module _ {ℓ} {A : Type ℓ} where
  unfoldable pub operate : Op A → World A → Run (World A)
  operate (awaits awt) w = co_await awt w
  operate (finishes o) w = finish o w
  operate (moves b) w = move b w
  operate destroys w = destroy w

  -- What is allowed, and which awaiters it resumes. A subtask that is awaited may only end.
  pub data Turn : View A → Op A → View A → List ℕ → Type ℓ where
    first_await : (awt : ℕ) → Turn fresh (awaits awt) (awaited awt) []
    later_await : (o : Stored A) (awt : ℕ) → Turn (ended o) (awaits awt) (ended o) []
    ends :
        (awt : ℕ) (o : Stored A)
        → is_outcome o ≡ true
        → Turn (awaited awt) (finishes o) (ended o) (awt ∷ [])
    moves_fresh : (b : ℕ) → Turn fresh (moves b) fresh []
    moves_ended : (o : Stored A) (b : ℕ) → Turn (ended o) (moves b) (ended o) []
    drops_fresh : Turn fresh destroys gone []
    drops_ended : (o : Stored A) → Turn (ended o) destroys gone []

  -- The frame is destroyed once: when it ends, or with a subtask that was not awaited.
  pub data Stands : World A → View A → Type ℓ where
    is_fresh :
        (w : World A)
        → w.sub.h ≢ 0
        → w.sub.state ≡ unused
        → w.exists ≡ true
        → w.is_suspended ≡ true
        → w.started ≡ 0
        → w.destroyed ≡ 0
        → Stands w fresh
    is_awaited :
        (w : World A) (awt : ℕ)
        → w.sub.h ≢ 0
        → w.sub.state ≡ running
        → w.exists ≡ true
        → w.promise ≡ record { future = w.address; awaiter = awt }
        → w.started ≡ 1
        → w.destroyed ≡ 0
        → Stands w (awaited awt)
    is_ended :
        (w : World A) (o : Stored A)
        → is_outcome o ≡ true
        → w.sub ≡ record { h = 0; state = state_of o; stored = o }
        → w.exists ≡ true
        → w.started ≡ 1
        → w.destroyed ≡ 1
        → Stands w (ended o)
    is_gone : (w : World A) → w.exists ≡ false → w.destroyed ≡ 1 → Stands w gone
