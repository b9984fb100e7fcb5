-- ===== src/Queue/Limited/Invariant.antt =====
-- When readers wait and writers are blocked.
use coroutines_classes.Prelude.{
  ℕ, ◌+◌, ◌≤◌, ◌<◌, ◌≡◌, refl, ◌⊎◌, List, [], ◌∷◌, ◌++◌, length, arith, length-append,
}
use coroutines_classes.Queue.{value, resolve}
use coroutines_classes.Queue.Limited.{Limited, push, pop, unblock_push, pop_from, release_first}

pub data Op {ℓ} (A : Type ℓ) : Type ℓ where
  pushes : A → ℕ → Op A
  pops : ℕ → Op A
  unblocks : ℕ → Op A

module _ {ℓ} {A : Type ℓ} where
  -- Readers wait only while there is no value, and writers are blocked only while the queue is full.
  pub record IsBalanced (l : Limited A) : Type ℓ where
    pub readers : (l.items ≡ []) ⊎ (l.awaiters ≡ [])
    pub writers : (l.blocked ≡ []) ⊎ ((0 < length l.items) × (l.limit ≤ length l.items))

  push-IsBalanced : (v : A) (b : ℕ) (l : Limited A) → IsBalanced l → IsBalanced (push v b l).0
  unfolding push resolve
  push-IsBalanced v b l h = ground (arith, length-append l.items (v ∷ []))

  release_first-IsBalanced :
      (bs : List (A × ℕ)) (l : Limited A)
      → l.blocked ≡ bs
      → l.awaiters ≡ []
      → (bs ≡ []) ⊎ (l.limit ≤ length l.items + 1)
      → IsBalanced (release_first bs l)
  unfolding release_first
  release_first-IsBalanced [] l e a w = ground arith
  release_first-IsBalanced ((v, b) ∷ bs) l e a w = ground (arith, length-append l.items (v ∷ []))

  pop_from-IsBalanced :
      (vs : List A) (p : ℕ) (l : Limited A)
      → l.items ≡ vs
      → IsBalanced l
      → IsBalanced (pop_from vs p l)
  unfolding pop_from resolve
  pop_from-IsBalanced [] p l e h = ground arith
  pop_from-IsBalanced (v ∷ vs) p l e h =
      release_first-IsBalanced l.blocked
        (record l { queue = record l.queue { items = vs; done = l.done ++ (p, value v) ∷ [] } })
        refl (ground arith) (ground arith)

  pop-IsBalanced : (p : ℕ) (l : Limited A) → IsBalanced l → IsBalanced (pop p l)
  unfolding pop resolve
  pop-IsBalanced p l h = pop_from-IsBalanced l.items p l refl h

  unblock_push-IsBalanced : (e : ℕ) (l : Limited A) → IsBalanced l → IsBalanced (unblock_push e l).0
  unfolding unblock_push
  unblock_push-IsBalanced e l h = ground arith

  pub step : Op A → Limited A → Limited A
  step (pushes v b) l = (push v b l).0
  step (pops p) l = pop p l
  step (unblocks e) l = (unblock_push e l).0

  pub run : List (Op A) → Limited A → Limited A
  run [] l = l
  run (o ∷ os) l = run os (step o l)

  step-IsBalanced : (o : Op A) (l : Limited A) → IsBalanced l → IsBalanced (step o l)
  unfolding step
  step-IsBalanced (pushes v b) l h = push-IsBalanced v b l h
  step-IsBalanced (pops p) l h = pop-IsBalanced p l h
  step-IsBalanced (unblocks e) l h = unblock_push-IsBalanced e l h

  -- After any operations on a balanced queue, a new one say, readers wait only while there is no
  -- value, and writers are blocked only while the queue holds its limit of values.
  pub run-IsBalanced : (os : List (Op A)) (l : Limited A) → IsBalanced l → IsBalanced (run os l)
  unfolding run
  run-IsBalanced [] l h = h
  run-IsBalanced (o ∷ os) l h = run-IsBalanced os (step o l) (step-IsBalanced o l h)
