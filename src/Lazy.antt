-- ===== src/Lazy.antt =====
-- The model of lazy.h: a coroutine that is started by the first who asks for its result.
--
-- `given` is the handle on its way to be resumed: a policy or a caller has it. `begun` says how the
-- body began, if it did: with the exception of a coroutine that is canceled, or not. The steps of
-- the threads come in any order; `mark_canceled` is two of them.
pub mod Once
mod Tests
use coroutines_classes.Prelude.{
  ℕ, zero, suc, List, [], ◌∷◌, Option, none, some, Bool, true, false, if◌then◌else◌,
}

pub record Lazy : Type 0 where
  pub started : Bool
  pub canceled : Bool
  pub given : ℕ
  pub begun : List Bool

unfoldable pub init : Lazy
init = record { started = false; canceled = false; given = 0; begun = [] }

-- `_started.exchange(true)`, with the handle for the first one.
unfoldable pub take_handle : Lazy → Lazy
take_handle l = if l.started then l else record l { started = true; given = suc l.given }

-- `start`, which gives the handle to the policy.
unfoldable pub start : Lazy → Lazy
unfolding take_handle
start l = take_handle l

-- `get_start_handle` gives it to the caller, and a null handle to all but the first.
unfoldable pub get_start_handle : Lazy → Lazy × Bool
unfolding take_handle
get_start_handle l = (take_handle l, if l.started then false else true)

-- The first part of `mark_canceled`; the second is `start`.
unfoldable pub cancel : Lazy → Lazy
cancel l = record l { canceled = true }

-- Who has the handle resumes it: `initial_awaiter::await_resume` throws if it is canceled.
unfoldable pub resume : Lazy → Option Lazy
resume l = elim l.given [
  | zero ↦ none
  | suc n ↦ some (record l { given = n; begun = l.canceled ∷ l.begun })
]

-- `co_await` and `join` start the coroutine too.
pub data Op : Type 0 where
  starts : Op
  gets_handle : Op
  cancels : Op
  resumes : Op

unfoldable pub operate : Op → Lazy → Option Lazy
operate starts l = some (start l)
operate gets_handle l = some (get_start_handle l).0
operate cancels l = some (cancel l)
operate resumes l = resume l
