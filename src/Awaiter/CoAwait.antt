-- ===== src/Awaiter/CoAwait.antt =====
-- `co_awaiter` and `co_awaiter_policy` of awaiter.h: what `co_await` does with an object that keeps
-- awaiters.
--
-- The object is `Owner`, the template argument `promise_type`. A policy resumes the handle, or
-- throws an exception, a number, before it does. Between the two parts of `co_await`, `await_ready` and
-- `await_suspend`, other threads may run, as they may before the coroutine is resumed.
use coroutines_classes.Prelude.{ℕ, ◌+◌, Option, none, some, Bool, if◌then◌else◌, ◌>>=◌}

-- What is asked of `promise_type`: `subscribe_awaiter` gives false if the awaiter need not wait.
pub record Owner {ℓ κ} (S : Type ℓ) (R : Type κ) : Type (ℓ ⊔ κ) where
  pub is_ready : S → Bool
  pub subscribe_awaiter : ℕ → S → Option (S × Bool)
  pub get_result : S → R

-- Whether the coroutine goes on at once, by its own handle, or stays suspended, with the handle that
-- the policy has next.
pub data Next : Type 0 where
  goes_on : Next
  suspended : Next

-- What the `resume` of the policy does with a handle.
pub data Resumption : Type 0 where
  runs : Resumption
  throws : ℕ → Resumption

-- What `await_resume` gives: the result of the object, or the exception of the policy.
pub data Answer {ℓ} (R : Type ℓ) : Type ℓ where
  answered : R → Answer R
  rethrown : ℕ → Answer R

-- `_resume_exception`, and how often the handle was resumed.
pub record CoAwaiter : Type 0 where
  pub resume_exception : Option ℕ
  pub resumed : ℕ

unfoldable pub init : CoAwaiter
init = record { resume_exception = none; resumed = 0 }

module _ {ℓ κ} {S : Type ℓ} {R : Type κ} (owner : Owner S R) where
  unfoldable pub await_ready : S → Bool
  await_ready s = owner.is_ready s

  unfoldable pub await_suspend : ℕ → S → Option (S × Next)
  await_suspend x s = do
    (s', waits) ← owner.subscribe_awaiter x s
    some (s', if waits then suspended else goes_on)

  unfoldable pub await_resume : CoAwaiter → S → Answer R
  await_resume a s = elim a.resume_exception [
    | none ↦ answered (owner.get_result s)
    | some e ↦ rethrown e
  ]

-- `resume`, and `resume_handle` with the resumption of what it returns.
unfoldable pub resume : Resumption → CoAwaiter → CoAwaiter
resume runs a = record a { resumed = a.resumed + 1 }
resume (throws e) a = record a { resume_exception = some e; resumed = a.resumed + 1 }
