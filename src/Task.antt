-- ===== src/Task.antt =====
-- src/coclasses/task.h: the promise of a task, which its handles and its coroutine own together.
--
-- `status` is the word `_status_ref_count`: the number of owners, and three flags above it.
-- `handle` says that `_my_handle` is set, `reported` that the destructor reported the exception.
-- The awaiters are those of awaiter.h. Exceptions are numbers. `none` is a failed assertion.
pub mod Word
pub mod Contract
pub mod Counts
pub mod Steps
pub mod Ready
pub mod Final
mod Tests
use coroutines_classes.Prelude.{
  ℕ, zero, suc, ◌+◌, ◌^◌, ◌/◌, ◌%◌, ◌++◌, List, [], ◌∷◌, Option, none, some, Bool, true, false, not,
  ◌==◌, ◌&&◌, ◌||◌, if◌then◌else◌, add64, sub64, ◌>>=◌,
}
use coroutines_classes.Awaiter.{Chains, null, disabled_addr, resume}
use coroutines_classes.Future.{
  Stored, not_value, value, exception, Got, returned, thrown, not_ready,
}

-- The positions of `data_mask`, `except_mask` and `processed_mask`, and the size of `counter_mask`.
abbrev pub data_bit : ℕ
data_bit = 9223372036854775808

abbrev pub except_bit : ℕ
except_bit = 4611686018427387904

abbrev pub processed_bit : ℕ
processed_bit = 2305843009213693952

-- `status & mask`, and `status | mask`, for one of the three masks.
abbrev pub has_bit : ℕ → ℕ → Bool
has_bit bit s = s / bit % 2 == 1

abbrev pub or_bit : ℕ → ℕ → ℕ
or_bit bit s = if s / bit % 2 == 1 then s else s + bit

-- `status & counter_mask`
abbrev pub counter : ℕ → ℕ
counter s = s % 2305843009213693952

pub record Task {ℓ} (A : Type ℓ) : Type ℓ where
  pub status : ℕ
  pub handle : Bool
  pub stored : Stored A
  pub destroyed : Bool
  pub reported : Bool

module _ {ℓ} {A : Type ℓ} where
  unfoldable pub init : Task A
  init = record {
    status = 2;
    handle = false;
    stored = not_value;
    destroyed = false;
    reported = false;
  }

  -- The destructor reports an exception that nobody took.
  unfoldable pub dispose : Task A → Task A
  dispose t = record t {
    destroyed = true;
    reported =
        has_bit except_bit t.status
        && not (has_bit data_bit t.status || has_bit processed_bit t.status);
  }

  -- `destroy` asserts that the handle is set.
  unfoldable pub destroy : Task A → Option (Task A)
  unfolding dispose
  destroy t = if t.handle then some (dispose t) else none

  unfoldable pub add_ref : Task A → Task A
  add_ref t = record t { status = add64 t.status 1 }

  unfoldable pub release_ref : Task A → Option (Task A)
  unfolding destroy
  release_ref t =
      let t' = record t { status = sub64 t.status 1 } in
      if counter t'.status == 0 then destroy t' else some t'

  unfoldable pub is_ready : Task A → Bool
  is_ready t =
      has_bit data_bit t.status || has_bit except_bit t.status || has_bit processed_bit t.status

  unfoldable pub return_value : A → Task A → Task A
  return_value v t = record t { stored = value v; status = or_bit data_bit t.status }

  unfoldable pub unhandled_exception : ℕ → Task A → Task A
  unhandled_exception e t = record t { stored = exception e; status = or_bit except_bit t.status }

  -- What the union holds; it holds a result where the flags say so.
  unfoldable pub held : Stored A → Got A
  held (value v) = returned v
  held (exception e) = thrown e
  held not_value = not_ready

  unfoldable pub get_result : Task A → Task A × Got A
  unfolding held
  get_result t = (
    record t { status = or_bit processed_bit t.status },
    if has_bit data_bit t.status
        then held t.stored
        else if has_bit except_bit t.status
        then held t.stored
        else not_ready,
  )

  -- The end of `final_awaiter::await_suspend`: the count of the coroutine, and then, if it was not
  -- the last, the handle.
  unfoldable pub final_count : Task A → Task A × Bool
  final_count t = let t' = record t { status = sub64 t.status 1 } in (t', counter t'.status == 0)

  unfoldable pub final_store : Task A → Bool → Task A
  unfolding dispose
  final_store t last = if last then dispose t else record t { handle = true }

  unfoldable pub final_suspend : Task A → Task A
  unfolding final_count final_store
  final_suspend t = let (t', last) = final_count t in final_store t' last

module _ (wake : ℕ → Chains → Chains) where
  -- Those behind the first awaiter that has a handle.
  unfoldable pub resume_rest : ℕ → ℕ → Chains → Option Chains
  resume_rest zero x c = none
  resume_rest (suc fuel) x c =
      let rest = resume_rest fuel (c.next x) (resume wake x c) in if x == null then some c else rest

  -- The awaiters at the end of the coroutine: `direct` says which ones have a handle; the first of
  -- them is returned.
  unfoldable pub resume_until : (ℕ → Bool) → ℕ → ℕ → Chains → Option (Option ℕ × Chains)
  unfolding resume_rest
  resume_until direct zero x c = none
  resume_until direct (suc fuel) x c =
      let behind = resume_rest fuel (c.next x) c in
      let rest = resume_until direct fuel (c.next x) (resume wake x c) in
      if x == null
      then some (none, c)
      else if direct x
      then (do b ← behind; some (some x, b))
      else rest

  unfoldable pub final_resume : (ℕ → Bool) → ℕ → Chains → Option (Option ℕ × Chains)
  unfolding resume_until
  final_resume direct fuel c = resume_until direct fuel c.head (record c { head = disabled_addr })
