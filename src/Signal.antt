-- ===== src/Signal.antt =====
-- src/coclasses/signal.h: a value that is sent to all who listen.
--
-- `State` is the object that receivers and the signal own together: the chain of those who listen
-- and the current value; `none` in its place is a weak pointer that has expired. A listener is a
-- coroutine that awaits in a loop or a function that was connected: `fn x v` says that the listener
-- `x`, which got `v`, listens again. A function that throws is one that returns false. The log of
-- the chain has the awaiters that were resumed; the function of one is called only where
-- `await_resume` gives a value.
pub mod Emission
pub mod Session
mod Tests
use coroutines_classes.Prelude.{
  ℕ, List, [], ◌∷◌, Option, none, some, Bool, true, false, if◌then◌else◌, ◌>>=◌,
}
use coroutines_classes.Awaiter.{Chains, null, subscribe, resume_chain}

pub record State {ℓ} (A : Type ℓ) : Type ℓ where
  pub chains : Chains
  pub cur_val : Option A

-- `subscribe`, where the list of rounds is long enough.
unfoldable pub subscribe_again : List Bool → ℕ → Chains → Chains
subscribe_again rounds x c = elim (subscribe rounds x c) [ some c' ↦ c' | none ↦ c ]

module _ {ℓ} {A : Type ℓ} where
  -- `await_resume`; `none` is `await_canceled_exception`.
  unfoldable pub await_resume : Option (State A) → Option A
  await_resume s = do s' ← s; s'.cur_val

  unfoldable pub subscribe_awaiter : List Bool → ℕ → Option (State A) → Option (State A) × Bool
  subscribe_awaiter rounds x none = (none, false)
  subscribe_awaiter rounds x (some s) =
      (some (record s { chains = subscribe_again rounds x s.chains }), true)

  -- `await_suspend`: `reg` says that there is a function of `listen`, to which the receiver of a
  -- new signal goes, and `next` is memory.
  unfoldable pub await_suspend :
      List Bool → ℕ → Bool → (ℕ → ℕ) → Option (State A) → Option (State A) × Bool
  unfolding subscribe_awaiter
  await_suspend rounds x reg next (some s) = subscribe_awaiter rounds x (some s)
  await_suspend rounds x reg next none =
      let fresh : State A = record {
        chains = record { next = next; head = null; log = [] };
        cur_val = none;
      } in
      if reg then subscribe_awaiter rounds x (some fresh) else (none, false)

  module _ (fn : ℕ → A → Bool) (rounds : List Bool) where
    -- `resume` of a connected function, which gets what `await_resume` returns, and is deleted
    -- where that throws.
    unfoldable pub listener_resume : Option A → ℕ → Chains → Chains
    listener_resume none x c = c
    listener_resume (some v) x c = let c' = subscribe_again rounds x c in if fn x v then c' else c

    -- `connect`
    unfoldable pub connect : ℕ → Option (State A) → Option (State A)
    unfolding subscribe_awaiter
    connect x s = (subscribe_awaiter rounds x s).0

    -- `operator()` of a receiver
    unfoldable pub emit : ℕ → A → State A → Option (State A)
    unfolding listener_resume
    emit fuel v s = do
      (_, c) ← resume_chain (listener_resume (some v)) fuel null s.chains
      some (record { chains = c; cur_val = some v })

    -- The destructor of the state; no weak pointer leads to it any more.
    unfoldable pub destroy : ℕ → State A → Option Chains
    unfolding await_resume listener_resume
    destroy fuel s = do
      (_, c) ← resume_chain (listener_resume (await_resume none)) fuel null s.chains
      some c
