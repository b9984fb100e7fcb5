-- ===== src/ThreadPool/Notify.antt =====
-- `thread_pool::co_awaiter` of thread_pool.h: the task that resumes a coroutine which awaits the pool.
--
-- The task moves from the awaiter into the queue and out of it again; the copies it moved from are
-- destroyed too. `log` records each resumption, and whether `_canceled` was set before it.
use coroutines_classes.Prelude.{
  ℕ, zero, suc, ◌≡◌, refl, List, [], ◌∷◌, ◌++◌, Bool, true, false, not, if◌then◌else◌,
}

-- `resume_ntf_cancel`: `ntf` says whether `_ntf` is not null.
pub record ResumeNtfCancel : Type 0 where
  pub h : ℕ
  pub ntf : Bool

abbrev pub Log : Type 0
Log = List (ℕ × Bool)

-- The constructor that moves, and the copy that is left.
unfoldable pub move : ResumeNtfCancel → ResumeNtfCancel × ResumeNtfCancel
move x = (x, record x { ntf = false })

unfoldable pub call : ResumeNtfCancel → Log → ResumeNtfCancel × Log
call x log = (record x { ntf = false }, log ++ (x.h, false) ∷ [])

unfoldable pub destroy : ResumeNtfCancel → Log → Log
destroy x log = if x.ntf then log ++ (x.h, true) ∷ [] else log

-- The task is moved `n` times, each copy left behind is destroyed, and in the end it is called or not,
-- and destroyed.
pub carry : ℕ → Bool → ResumeNtfCancel → Log → Log
unfolding move call destroy
carry zero false x log = destroy x log
carry zero true x log = let (x', log') = call x log in destroy x' log'
carry (suc n) run x log = let (x', left) = move x in carry n run x' (destroy left log)

-- `await_resume`: a coroutine whose awaiter was canceled gets an exception.
pub data Resumed : Type 0 where
  goes_on : Resumed
  await_canceled : Resumed

unfoldable pub await_resume : Bool → Resumed
await_resume canceled = if canceled then await_canceled else goes_on

-- A coroutine that awaits the pool is resumed exactly once, however often its task is moved: if a
-- worker runs the task, it goes on; if the task is destroyed instead, it gets the exception.
pub carry-once :
    (n : ℕ) (run : Bool) (h : ℕ) (log : Log)
    → (carry n run (record { h = h; ntf = true }) log ≡ log ++ (h, not run) ∷ [])
      × (await_resume (not run) ≡ (if run then goes_on else await_canceled))
unfolding carry await_resume
carry-once zero true h log = (refl, refl)
carry-once zero false h log = (refl, refl)
carry-once (suc n) run h log = carry-once n run h log
