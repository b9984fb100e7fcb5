-- ===== src/Lazy/Tests.antt =====
-- Examples for the lazy coroutine.
use coroutines_classes.Prelude.{◌+◌, ◌≡◌, refl, [], ◌∷◌, some, true, length}
use coroutines_classes.Lazy.{
  Lazy, init, take_handle, start, get_start_handle, cancel, resume, starts, gets_handle, cancels,
  resumes, operate,
}
use coroutines_classes.Lazy.Once.{run, run-begins}

-- The handle is taken, the coroutine is canceled and started, and then the handle is resumed.
canceled_late :
    (l : Lazy) × (run (gets_handle ∷ cancels ∷ starts ∷ resumes ∷ cancels ∷ []) init ≡ some l)
unfolding run operate start take_handle get_start_handle cancel resume init
canceled_late = (_, refl)

run-begins_example :
    (canceled_late.0.begun ≡ true ∷ []) × (canceled_late.0.given + length canceled_late.0.begun ≡ 1)
run-begins_example =
    run-begins (gets_handle ∷ cancels ∷ starts ∷ resumes ∷ cancels ∷ []) canceled_late.0
      canceled_late.1
