-- ===== src/Future.antt =====
-- src/coclasses/future.h: `future`, and the promises that refer to it.
--
-- `_awaiter` is the head of `chains`: the sentinel `instance_addr` in a future without a promise,
-- `disabled_addr` in one that is ready, and else the chain of those who wait. A promise is its
-- address; `owns` says of which promises `_owner` points to the future. Exceptions are numbers.
-- `none` is a failed assertion, or a loop that ran out of its fuel. `wake` is what resumed code
-- does to the chains.
pub mod Contract
pub mod Resolve
pub mod Steps
pub mod Runs
pub mod Handles
pub mod Default
pub mod Listening
pub mod Orphan
pub mod Shared
pub mod Coro
pub mod Await
pub mod Callback
pub mod Transform
mod Tests
use mathlib.Core.Option
use coroutines_classes.Prelude.{
  ℕ, zero, suc, ◌++◌, List, [], ◌∷◌, Option, none, some, Bool, true, false, ◌==◌, ◌||◌,
  if◌then◌else◌, update, not, ◌>>=◌,
}
use coroutines_classes.Awaiter.{
  Chains, null, instance_addr, disabled_addr, subscribe_check_ready, resume_chain_set_ready, resume,
  resume_chain_lk,
}

-- `State`, and the union of the value and the exception.
pub data Stored {ℓ} (A : Type ℓ) : Type ℓ where
  not_value : Stored A
  value : A → Stored A
  exception : ℕ → Stored A

pub record Future {ℓ} (A : Type ℓ) : Type ℓ where
  pub chains : Chains
  pub stored : Stored A

pub record Cell {ℓ} (A : Type ℓ) : Type ℓ where
  pub future : Future A
  pub owns : ℕ → Bool

-- How `value()` ends.
pub data Got {ℓ} (A : Type ℓ) : Type ℓ where
  returned : A → Got A
  thrown : ℕ → Got A
  not_ready : Got A

module _ {ℓ} {A : Type ℓ} where
  -- A future that is constructed as initialized, or with its result.
  unfoldable pub initial : (ℕ → ℕ) → Future A
  initial next = record {
    chains = record { next = next; head = instance_addr; log = [] };
    stored = not_value;
  }

  unfoldable pub resolved : (ℕ → ℕ) → Stored A → Future A
  resolved next r = record {
    chains = record { next = next; head = disabled_addr; log = [] };
    stored = r;
  }

  -- `p` is the promise that `get_promise` returns.
  unfoldable pub get_promise : ℕ → Cell A → Option (Cell A)
  get_promise p c =
      let f = c.future in
      if f.chains.head == instance_addr
      then some (record {
        future = record f { chains = record f.chains { head = null } };
        owns = update c.owns p true;
      })
      else none

  unfoldable pub initialized : Future A → Bool
  initialized f = f.chains.head == instance_addr

  unfoldable pub pending : Future A → Bool
  pending f = not (f.chains.head == instance_addr || f.chains.head == disabled_addr)

  unfoldable pub ready : Future A → Bool
  ready f = f.chains.head == disabled_addr

  value_of : Stored A → Got A
  value_of not_value = not_ready
  value_of (exception e) = thrown e
  value_of (value v) = returned v

  -- `value()`, which is also `get_result`
  unfoldable pub get_value : Future A → Got A
  unfolding value_of
  get_value f = value_of f.stored

  unfoldable pub has_value : Future A → Bool
  has_value f = elim f.stored [ not_value ↦ false | _ ↦ true ]

  -- `true`: the awaiter waits; `false`: the future is ready.
  unfoldable pub subscribe_awaiter : List Bool → ℕ → Cell A → Option (Cell A × Bool)
  subscribe_awaiter rounds x c =
      Option.map (λ (b, waits). (record c { future = record c.future { chains = b } }, waits))
        (subscribe_check_ready rounds x disabled_addr c.future.chains)

  -- The two functions `set`: they assert that there is no result yet.
  unfoldable pub set : Stored A → Cell A → Option (Cell A)
  set r c = elim c.future.stored [
    | not_value ↦ some (record c { future = record c.future { stored = r } })
    | _ ↦ none
  ]

  unfoldable pub claim : ℕ → Cell A → Cell A × Bool
  claim p c = (record c { owns = update c.owns p false }, c.owns p)

  -- The constructor that moves the promise `q` to the new promise `p`.
  unfoldable pub move_construct : ℕ → ℕ → Cell A → Cell A
  unfolding claim
  move_construct p q c = let (c', owner) = claim q c in record c' { owns = update c'.owns p owner }

  module _ (wake : ℕ → Chains → Chains) where
    unfoldable pub resolve : ℕ → Cell A → Option (Cell A)
    resolve fuel c =
        Option.map (λ (_, b). record c { future = record c.future { chains = b } })
          (resume_chain_set_ready wake fuel disabled_addr null c.future.chains)

    unfoldable pub drop : ℕ → ℕ → Cell A → Option (Cell A)
    unfolding claim resolve
    drop fuel p c = let (c', owner) = claim p c in if owner then resolve fuel c' else some c'

    -- The destructor of a promise.
    unfoldable pub destroy : ℕ → ℕ → Cell A → Option (Cell A)
    unfolding resolve
    destroy fuel p c =
        if c.owns p
        then (do c' ← resolve fuel c; some (record c' { owns = update c'.owns p false }))
        else some c

    -- The assignment that moves the promise `q` to `p`.
    unfoldable pub move_assign : ℕ → ℕ → ℕ → Cell A → Option (Cell A)
    unfolding drop move_construct
    move_assign fuel p q c =
        if p == q then some c else Option.map (move_construct p q) (drop fuel p c)

    -- `operator()` and `set_value` with a value, and `set_exception`.
    unfoldable pub set_value : ℕ → ℕ → Stored A → Cell A → Option (Cell A × Bool)
    unfolding claim set resolve
    set_value fuel p r c =
        let (c', owner) = claim p c in
        let done = (do c'' ← set r c'; resolve fuel c'') in
        if owner then Option.map (λ b. (b, true)) done else some (c', false)

-- The loop of `resolve_resume`: `direct` says which awaiters have a handle; the others are resumed by
-- their `resume_handle`. The first that has one is returned, and those behind it are resumed.
module _ (wake : ℕ → Chains → Chains) (direct : ℕ → Bool) where
  unfoldable pub resume_handles : ℕ → ℕ → Chains → Option (Option ℕ × Chains)
  resume_handles zero x c = none
  resume_handles (suc fuel) x c =
      let c' = record c { next = update c.next x null } in
      let behind = resume_chain_lk wake fuel (c.next x) null 0 c' in
      let rest = resume_handles fuel (c.next x) (resume wake x c') in
      if x == null
      then some (none, c)
      else if direct x
      then Option.map (λ (_, b). (some x, b)) behind
      else rest

  unfoldable pub resolve_resume {ℓ} : {A : Type ℓ} → ℕ → Cell A → Option (Option ℕ × Cell A)
  unfolding resume_handles
  resolve_resume fuel c =
      let f = c.future in
      Option.map (λ (h, b). (h, record c { future = record f { chains = b } }))
        (resume_handles fuel f.chains.head (record f.chains { head = disabled_addr }))
