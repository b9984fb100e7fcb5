-- ===== src/Future/Coro.antt =====
-- `future_coro` of future.h: a coroutine that is started with the promise of a future, and resolves
-- it at its end.
--
-- The coroutine itself is its result: the value that it returns, or the exception that it lets out.
-- `attached` says that `_future` of its promise is set.
use coroutines_classes.Prelude.{
  ℕ, ◌<◌, ◌≡◌, refl, ◌∙◌, ap, List, ◌++◌, Option, some, none, Bool, true, false, if◌then◌else◌,
  length, update,
}
use coroutines_classes.Awaiter.{Chains}
use coroutines_classes.Awaiter.Resume.{KeepsLinks}
use coroutines_classes.Future.{
  Cell, Stored, not_value, value, exception, claim, set, resolve_resume, get_value,
}
use coroutines_classes.Future.Contract.{IsWaiting, outcome, settled}
use coroutines_classes.Future.Handles.{IsLeftOut, resolve_resume-IsLeftOut}

module _ {ℓ} {A : Type ℓ} where
  -- `start_set_promise`, before the coroutine is resumed: whether it is.
  unfoldable pub start_set_promise : ℕ → Cell A → Cell A × Bool
  unfolding claim
  start_set_promise p c = claim p c

  -- `resolve` and `unhandled_exception`
  unfoldable pub coro_return : Stored A → Bool → Cell A → Option (Cell A)
  unfolding set
  coro_return r attached c = let done = set r c in if attached then done else some c

  -- `final_awaiter::await_suspend`: the handle to go on with, or `none`.
  unfoldable pub coro_final :
      (ℕ → Chains → Chains) → (ℕ → Bool) → ℕ → Bool → Cell A → Option (Option ℕ × Cell A)
  unfolding resolve_resume
  coro_final wake direct fuel attached c =
      let done = resolve_resume wake direct fuel c in if attached then done else some (none, c)

get_value-stored {ℓ} :
    {A : Type ℓ}
    → (c : Cell A) (r : Stored A) (xs : List ℕ) → c.future.stored ≡ r
    → get_value c.future ≡ outcome (settled r xs)
unfolding get_value
get_value-stored c not_value xs e = rw e refl
get_value-stored c (value v) xs e = rw e refl
get_value-stored c (exception x) xs e = rw e refl

module _ {ℓ} {A : Type ℓ} (direct : ℕ → Bool) (wake : ℕ → Chains → Chains)
    (keeps : KeepsLinks wake) where
  -- A coroutine that is started with the promise of a future takes the future; at its end, its
  -- result is that of the future, and those who wait are resumed once, the last to come first, but
  -- for the first that has a handle, with which the thread goes on. Fuel above their number is
  -- enough, and the resumed code may change only the link of its own awaiter.
  pub coro_final-outcome :
      (fuel p : ℕ) (r : Stored A) (c : Cell A) (xs : List ℕ)
      → length xs < fuel
      → IsWaiting c p xs
      → (c1 c2 c3 : Cell A) × (h : Option ℕ) × (log : List ℕ) × (start_set_promise p c ≡ (c1, true))
        × (coro_return r true c1 ≡ some c2)
        × (coro_final wake direct fuel true c2 ≡ some (h, c3))
        × (get_value c3.future ≡ outcome (settled r xs))
        × (c3.future.chains.log ≡ log)
        × IsLeftOut direct h xs log
  unfolding start_set_promise claim coro_return set coro_final
  coro_final-outcome fuel p r c xs lt h =
      let c1 : Cell A = record c { owns = update c.owns p false } in
      let c2 : Cell A = record c1 { future = record c1.future { stored = r } } in
      let (handle, c3, log, run, l, out, stored) =
        resolve_resume-IsLeftOut direct wake keeps fuel c2 xs lt h.chained in
      (
        c1,
        c2,
        c3,
        handle,
        log,
        ap (λ b. (c1, b)) h.owner,
        rw h.no_result refl,
        run,
        get_value-stored c3 r xs stored,
        l ∙ ap (λ z. z ++ log) h.none_resumed,
        out,
      )
