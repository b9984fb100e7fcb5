-- ===== src/Subtask/Tests.antt =====
-- Examples for the subtask.
use coroutines_classes.Prelude.{ℕ, ◌≡◌, refl, [], ◌∷◌, arith}
use coroutines_classes.Future.{value}
use coroutines_classes.Subtask.{
  unused, World, done, faults, dangling, no_frame, ◌>>=◌, construct, finish, co_await,
  subscribe_awaiter, destroy, destroy_husks, move,
}
use coroutines_classes.Subtask.Contract.{
  fresh, gone, awaits, finishes, moves, destroys, first_await, later_await, ends, moves_fresh,
  moves_ended, drops_ended, Stands, is_fresh,
}
use coroutines_classes.Subtask.Session.{run, stay, go, run-lives}
use coroutines_classes.Subtask.Eager.{subscribe_awaiter-unguarded}

-- A subtask is moved, awaited, ends with 42, is asked again, moved, and destroyed.
run-lives_example :
    (w : World ℕ) × (run
        (moves 200 ∷ awaits 5 ∷ finishes (value 42) ∷ awaits 6 ∷ moves 300 ∷ destroys ∷ [])
        (construct 100 7)
      ≡ done w)
    × Stands w gone
    × (w.woken ≡ 5 ∷ [])
    × (destroy_husks w.husks w ≡ done w)
run-lives_example = run-lives 100 7 gone _ (5 ∷ []) (ground arith) (
    go _ _ _ _ _ _ _ (moves_fresh 200) (
      go _ _ _ _ _ _ _ (first_await 5) (
        go _ _ _ _ _ _ _ (ends 5 (value 42) refl) (
          go _ _ _ _ _ _ _ (later_await (value 42) 6) (
            go _ _ _ _ _ _ _ (moves_ended (value 42) 300)
              (go _ _ _ _ _ _ _ (drops_ended (value 42)) (stay gone)))))))

new_subtask : Stands {A = ℕ} (construct 100 7) fresh
unfolding construct
new_subtask = is_fresh (construct 100 7) (ground arith) refl refl refl refl refl

subscribe_awaiter-unguarded_example :
    (w : World ℕ) × (subscribe_awaiter 5 (construct 100 7) ≡ done w)
    × (w.sub.state ≡ unused)
    × ((destroy w >>= finish (value 42)) ≡ faults dangling)
    × ((move 200 w >>= finish (value 42)) ≡ faults dangling)
    × (co_await 6 w ≡ faults no_frame)
unfolding construct
subscribe_awaiter-unguarded_example =
    subscribe_awaiter-unguarded (construct 100 7) 5 200 6 (value 42) new_subtask refl (ground arith)
