-- ===== src/Generator.antt =====
-- src/coclasses/generator.h: a coroutine that yields values to a caller that asks for the next one.
--
-- `Body` is what is left of the coroutine: the values it yields, the places where it awaits
-- something, and how it ends. `Generator` is the promise of the coroutine, with its frame, of a
-- generator without an argument; Generator/Arguments has those with one. Exceptions and awaiters
-- are numbers.
pub mod Calls
pub mod Collect
pub mod Arguments
mod Tests
use coroutines_classes.Prelude.{
  ℕ, zero, suc, List, [], ◌∷◌, Option, none, some, Bool, true, false, not, if◌then◌else◌, ◌>>=◌,
}
use coroutines_classes.Future.{
  Stored, not_value, value, exception, Got, returned, thrown, not_ready,
}

pub data Body {ℓ} (A : Type ℓ) : Type ℓ where
  yields : A → Body A → Body A
  awaits : Body A → Body A
  returns : Body A
  throws : ℕ → Body A

-- Whom `_caller` points to: an awaiter, `_sync_awt`, or `_promise_awt` with its promise.
pub data Caller : Type 0 where
  awaiter : ℕ → Caller
  syncing : Caller
  promise : ℕ → Caller

pub record Generator {ℓ} (A : Type ℓ) : Type ℓ where
  pub caller : Option Caller
  pub ret : Option A
  pub exp : Option ℕ
  pub done : Bool
  pub body : Body A
  pub finished : Bool

-- Where the coroutine suspends: in an await, or after it has resumed its caller.
pub data Stop : Type 0 where
  awaiting : Stop
  answered : Option Caller → Stop

-- How a call ends: an assertion fails, it throws `no_more_values_exception`, the awaited things are
-- not all resumed, or the generator answers.
pub data Next {ℓ} (A : Type ℓ) : Type ℓ where
  busy : Next A
  no_more : Generator A → Next A
  blocked : Next A
  answer : Generator A → Option Caller → Next A

module _ {ℓ} {A : Type ℓ} where
  unfoldable pub create : Body A → Generator A
  create b = record {
    caller = none;
    ret = none;
    exp = none;
    done = false;
    body = b;
    finished = false;
  }

  -- `yield_suspend::await_suspend`
  unfoldable pub yield_suspend : Generator A → Generator A × Stop
  yield_suspend g = (record g { caller = none }, answered g.caller)

  unfoldable pub final_suspend : Generator A → Generator A × Stop
  unfolding yield_suspend
  final_suspend g = yield_suspend (record g { ret = none; finished = true })

  -- `await_transform` puts `_sync_awt` where there is no caller.
  unfoldable pub await_transform : Generator A → Generator A
  await_transform g = elim g.caller [ none ↦ record g { caller = some syncing } | some _ ↦ g ]

  -- The coroutine is resumed, and goes on to the next place where it suspends.
  unfoldable pub run_body : Body A → Generator A → Generator A × Stop
  unfolding yield_suspend final_suspend await_transform
  run_body (yields v b) g = yield_suspend (record g { ret = some v; body = b })
  run_body (awaits b) g = (await_transform (record g { body = b }), awaiting)
  run_body returns g = final_suspend (record g { done = true })
  run_body (throws e) g = final_suspend (record g { exp = some e })

  -- What it awaits resumes it, until it answers.
  unfoldable pub drive : ℕ → Generator A × Stop → Next A
  unfolding run_body
  drive fuel (g, answered c) = answer g c
  drive zero (g, awaiting) = blocked
  drive (suc fuel) (g, awaiting) = drive fuel (run_body g.body g)

  -- `next_async`, and the resumption of the handle that it returns.
  unfoldable pub next_async : ℕ → ℕ → Generator A → Next A
  unfolding drive run_body
  next_async fuel x g =
      let g' = record g { caller = some (awaiter x) } in
      elim g.caller [
        | some _ ↦ busy
        | none ↦ if g.finished then no_more g' else drive fuel (run_body g.body g')
      ]

  unfoldable pub next_future : ℕ → ℕ → Generator A → Next A
  unfolding drive run_body
  next_future fuel p g =
      let g' = record g { caller = some (promise p) } in
      elim g.caller [
        | some _ ↦ busy
        | none ↦ if g.finished then no_more g' else drive fuel (run_body g.body g')
      ]

  -- The end of `next_sync`: it waits for the flag if `_caller` is set.
  unfoldable pub wait_flag : ℕ → Generator A × Stop → Next A
  unfolding drive
  wait_flag fuel (g, s) = elim g.caller [ none ↦ answer g none | some _ ↦ drive fuel (g, s) ]

  unfoldable pub next_sync : ℕ → Generator A → Next A
  unfolding wait_flag run_body
  next_sync fuel g = elim g.caller [
    | some _ ↦ busy
    | none ↦ if g.finished then no_more g else wait_flag fuel (run_body g.body g)
  ]

  -- `value()`
  unfoldable pub get_value : Generator A → Got A
  get_value g =
      let unset : Got A = elim g.ret [ some v ↦ returned v | none ↦ not_ready ] in
      elim g.exp [ some e ↦ thrown e | none ↦ unset ]

  -- `prepare_result`; `none`: the null pointer `_ret` is dereferenced.
  unfoldable pub prepare_result : Generator A → Option (Stored A)
  prepare_result g =
      let unset : Option (Stored A) = elim g.ret [ some v ↦ some (value v) | none ↦ none ] in
      let result : Option (Stored A) = elim g.exp [ some e ↦ some (exception e) | none ↦ unset ] in
      if g.done then some not_value else result

  -- `co_await next()`, whose result is `await_resume`.
  unfoldable pub co_next : ℕ → ℕ → Generator A → Next A
  unfolding next_async
  co_next fuel x g = if g.done then answer g none else next_async fuel x g

  -- The operator `bool` of `next()`
  unfoldable pub bool_next : ℕ → Generator A → Next A
  unfolding next_sync
  bool_next fuel g = if g.done then answer g none else next_sync fuel g

  unfoldable pub await_resume : Generator A → Bool
  await_resume g = not g.done
