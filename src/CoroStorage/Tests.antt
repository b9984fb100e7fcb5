-- ===== src/CoroStorage/Tests.antt =====
-- Examples for the storages.
use coroutines_classes.Prelude.{◌≡◌, refl, [], ◌∷◌, arith, All}
use coroutines_classes.CoroStorage.{alloc_mtsafe, dealloc_mtsafe}
use coroutines_classes.CoroStorage.Session.{
  Session, Steps, Step, start, add_frame, Apart, HasRoom, Steps-own_block,
}

-- A frame of 32 bytes at 500, then one of 24 bytes at 600, while the storage is busy; the first is
-- destroyed, and a frame of 16 bytes gets its block.
abbrev two_frames : Session
two_frames = add_frame 600 24 (add_frame 500 32 start)

abbrev one_frame : Session
one_frame = record { memory = dealloc_mtsafe 500 32 two_frames.memory; frames = (600, 24) ∷ [] }

abbrev reused : Session
reused = add_frame 700 16 one_frame

reusing : Steps start reused
unfolding alloc_mtsafe dealloc_mtsafe
reusing = Steps.go _ _ _ (Step.allocs 500 32 _ tt) (
    Steps.go _ two_frames _ (Step.allocs 600 24 _ (omega arith)) (
      Steps.go _ one_frame _ (Step.deallocs 500 32 ((600, 24) ∷ []) [] _ refl)
        (Steps.go _ reused _ (Step.allocs 700 16 _ (omega arith)) (Steps.stay _))))

reused_run : reused.frames ≡ (500, 16) ∷ (600, 24) ∷ []
unfolding alloc_mtsafe dealloc_mtsafe
reused_run = refl

Steps-own_block_example : Apart reused.frames × All (HasRoom reused.memory) reused.frames
Steps-own_block_example = Steps-own_block reused reusing
