-- ===== src/Future/Await.antt =====
-- `co_await` of a future of future.h, with `co_awaiter` and `co_awaiter_policy` of awaiter.h.
use coroutines_classes.Prelude.{
  ℕ, ◌≤◌, ◌≡◌, ◌≢◌, refl, sym, ◌∙◌, List, [], ◌∷◌, some, Bool, true, false, ◌==◌, NotMem, ◌⊎◌, inl,
  inr, Bool-cases,
}
use coroutines_classes.Awaiter.{Chains}
use coroutines_classes.Awaiter.Resume.{KeepsLinks}
use coroutines_classes.Awaiter.Subscribe.{honest}
use coroutines_classes.Awaiter.CoAwait.{
  Owner, Next, goes_on, suspended, Resumption, runs, throws, Answer, answered, rethrown, CoAwaiter,
  init, await_suspend, resume,
}
use coroutines_classes.Future.{Cell, Stored, ready, get_value, subscribe_awaiter, Got}
use coroutines_classes.Future.Contract.{
  View, Op, subscribes, sets, drops, destroys, assigns, constructs, waiting, settled, settle,
  hand_over, operate, wait_in, Implements, IsAllowed, is_settled,
}
use coroutines_classes.Future.Steps.{subscribe_awaiter-Implements}
use coroutines_classes.Future.Runs.{Reaches, stop, go}

-- A future as what `co_await` asks for.
unfoldable pub future_owner {ℓ} : {A : Type ℓ} → List Bool → Owner (Cell A) (Got A)
future_owner rounds = record {
  is_ready = λ c. ready c.future;
  subscribe_awaiter = subscribe_awaiter rounds;
  get_result = λ c. get_value c.future;
}

-- The awaiter stands in the list once.
abbrev pub Once : ℕ → List ℕ → Type 0
Once x [] = ⊥
Once x (y ∷ ys) = ((x ≡ y) × NotMem x ys) ⊎ ((x ≢ y) × Once x ys)

abbrev pub Holds {ℓ} : {A : Type ℓ} → ℕ → View A → Type 0
Holds x (waiting p xs) = Once x xs
Holds x (settled r xs) = Once x xs

-- A coroutine that went on at once is not resumed later; one that was suspended is resumed once.
abbrev pub IsResumedOnce : ℕ → Next → List ℕ → List ℕ → Type 0
IsResumedOnce x goes_on before after = after ≡ before
IsResumedOnce x suspended before after = Once x after

-- The awaiter where the coroutine goes on: the policy resumes it only if it was suspended.
abbrev pub resumed_by : Resumption → Next → CoAwaiter
resumed_by policy goes_on = init
resumed_by policy suspended = resume policy init

-- What `co_await` is to end with: the exception of a policy that had to resume the coroutine and
-- threw, and else what the future has.
abbrev pub reply {ℓ} : {R : Type ℓ} → Resumption → Next → R → Answer R
reply policy goes_on r = answered r
reply runs suspended r = answered r
reply (throws e) suspended r = rethrown e

abbrev pub next_of : Bool → Next
next_of true = goes_on
next_of false = suspended

Once-NotMem : (x a : ℕ) (xs : List ℕ) → Once x xs → NotMem a xs → x ≢ a
Once-NotMem x a [] o n = absurd o
Once-NotMem x a (y ∷ ys) (inl (e, _)) (n, _) = λ f. n (sym f ∙ e)
Once-NotMem x a (y ∷ ys) (inr (_, o)) (_, m) = Once-NotMem x a ys o m

pub NotMem-Once : (x : ℕ) (xs : List ℕ) → NotMem x xs → Once x (x ∷ xs)
NotMem-Once x xs n = inl (refl, n)

module _ {ℓ} {A : Type ℓ} where
  settle-Holds : (x p : ℕ) (r : Stored A) (v : View A) → Holds x v → Holds x (settle p r v).0
  settle-Holds x p r (waiting o xs) h = elim (Bool-cases (p == o)) [
    | inl e ↦ rw e h
    | inr e ↦ rw e h
  ]
  settle-Holds x p r (settled s xs) h = h

  hand_over-Holds : (x p q : ℕ) (v : View A) → Holds x v → Holds x (hand_over p q v)
  hand_over-Holds x p q (waiting o xs) h = elim (Bool-cases (q == o)) [
    | inl e ↦ rw e h
    | inr e ↦ rw e h
  ]
  hand_over-Holds x p q (settled s xs) h = h

  operate-Holds :
      (x : ℕ) (op : Op A) (c : Cell A) (v : View A)
      → IsAllowed op c v
      → Holds x v
      → Holds x (operate op v).0
  operate-Holds x (subscribes a) c (waiting o xs) ok h = inr (Once-NotMem x a xs h ok.3, h)
  operate-Holds x (subscribes a) c (settled s xs) ok h = h
  operate-Holds x (sets p r) c v ok h = settle-Holds x p r v h
  operate-Holds x (drops p) c v ok h = settle-Holds x p _ v h
  operate-Holds x (destroys p) c v ok h = settle-Holds x p _ v h
  operate-Holds x (assigns p q) c v ok h = elim (Bool-cases (p == q)) [
    | inl e ↦ rw e h
    | inr e ↦ rw e (hand_over-Holds x p q _ (settle-Holds x p _ v h))
  ]
  operate-Holds x (constructs p q) c v ok h = hand_over-Holds x p q v h

module _ {ℓ} {A : Type ℓ} (wake : ℕ → Chains → Chains) (keeps : KeepsLinks wake)
    (still : (y : ℕ) (b : Chains) → (wake y b).head ≡ b.head) where
  pub Reaches-Holds :
      (x : ℕ) (c c' : Cell A) (v v' : View A) → Reaches wake c v c' v' → Holds x v → Holds x v'
  Reaches-Holds x c c' v v' (stop _ _) h = h
  Reaches-Holds x c c' v v' (go rounds fuel op _ _ c1 _ _ b enough lt ok run rest) h =
      Reaches-Holds x c1 c' _ v' rest (operate-Holds x op c v ok h)

  -- `await_suspend` succeeds with two rounds that do not fail spuriously.
  pub await_suspend-Implements :
      (rounds : List Bool) (x : ℕ) (c : Cell A) (v : View A)
      → 2 ≤ honest rounds
      → IsAllowed (subscribes x) c v
      → Implements c v
      → (c' : Cell A) × (await_suspend (future_owner rounds) x c
          ≡ some (c', next_of (is_settled v)))
        × Implements c' (wait_in x v).0
  unfolding await_suspend future_owner
  await_suspend-Implements rounds x c (waiting p xs) enough ok h =
      let (c', run, h') =
        subscribe_awaiter-Implements wake keeps still rounds x c (waiting p xs) enough ok h in
      (c', rw run refl, h')
  await_suspend-Implements rounds x c (settled r xs) enough ok h =
      let (c', run, h') =
        subscribe_awaiter-Implements wake keeps still rounds x c (settled r xs) enough ok h in
      (c', rw run refl, h')
