-- ===== src/Task/Steps.antt =====
-- The operations of a task of task.h, each against its contract.
use coroutines_classes.Prelude.{
  ℕ, ◌<◌, ◌≡◌, refl, ◌∙◌, ap, Option, some, Bool, true, false, if◌then◌else◌, cond_true, cond_false,
}
use coroutines_classes.Future.{Stored, not_value, value, exception, not_ready}
use coroutines_classes.Task.{
  Task, data_bit, except_bit, processed_bit, has_bit, or_bit, add_ref, release_ref, return_value,
  unhandled_exception, get_result, final_suspend, held,
}
use coroutines_classes.Task.Word.{pack, pack-bits, or_bit-pack}
use coroutines_classes.Task.Contract.{
  View, Op, adds, releases, sets_value, throws, reads, finishes, is_value, is_exception, is_set,
  owners, operate, IsAllowed, IsAlive, Stands, outcome,
}
use coroutines_classes.Task.Counts.{
  release_ref-Stands, final_suspend-Stands, add_ref-IsAlive, owners-lt,
}

module _ {ℓ} {A : Type ℓ} where
  unfoldable pub step : Op A → Task A → Option (Task A)
  step adds t = some (add_ref t)
  step releases t = release_ref t
  step (sets_value a) t = some (return_value a t)
  step (throws e) t = some (unhandled_exception e t)
  step reads t = some (get_result t).0
  step finishes t = some (final_suspend t)

  got-result :
      (r : Stored A) (p : Bool) (n s : ℕ)
      → n < processed_bit
      → s ≡ pack (is_value r) (is_exception r) p n
      → (if has_bit data_bit s then held r else if has_bit except_bit s then held r else not_ready)
        ≡ outcome r
  unfolding held
  got-result r p n s lt e =
      let (d, x, _, _) = pack-bits (is_value r) (is_exception r) p n lt in
      let flag_d = ap (has_bit data_bit) e ∙ d in
      let flag_e = ap (has_bit except_bit) e ∙ x in
      elim r
          as (λ q.
            (has_bit data_bit s ≡ is_value q)
            → (has_bit except_bit s ≡ is_exception q)
            → (if has_bit data_bit s
                then held q
                else if has_bit except_bit s
                then held q
                else not_ready)
              ≡ outcome q) [
                | not_value ↦ λ a b. cond_false _ _ _ a ∙ cond_false _ _ _ b
                | value v ↦ λ a b. cond_true _ _ _ a
                | exception y ↦ λ a b. cond_false _ _ _ a ∙ cond_true _ _ _ b
              ]
        flag_d flag_e

  pub get_result-IsAlive :
      (t : Task A) (v : View A)
      → IsAlive t v
      → IsAlive (get_result t).0 (record v { taken = true }) × ((get_result t).1 ≡ outcome v.result)
  unfolding get_result
  get_result-IsAlive t v h =
      let (_, _, taken) =
        or_bit-pack (is_value v.result) (is_exception v.result) v.taken (owners v)
          (owners-lt v h.room) in
      (
        record {
          word = ap (or_bit processed_bit) h.word ∙ taken;
          room = h.room;
          kept = h.kept;
          ended = h.ended;
          present = h.present;
        },
        ap
              (λ r.
                if has_bit data_bit t.status
                then held r
                else if has_bit except_bit t.status
                then held r
                else not_ready)
              h.kept
            ∙ got-result v.result v.taken (owners v) t.status (owners-lt v h.room) h.word,
      )

  unset : (r : Stored A) → is_set r ≡ false → (is_value r ≡ false) × (is_exception r ≡ false)
  unset not_value e = (refl, refl)
  unset (value v) e = absurd cc
  unset (exception x) e = absurd cc

  unset-word :
      (t : Task A) (v : View A)
      → is_set v.result ≡ false
      → IsAlive t v
      → t.status ≡ pack false false v.taken (owners v)
  unset-word t v new h =
      let (d, e) = unset v.result new in
      h.word
      ∙ ap (λ b. pack b (is_exception v.result) v.taken (owners v)) d
      ∙ ap (λ b. pack false b v.taken (owners v)) e

  return_value-IsAlive :
      (a : A) (t : Task A) (v : View A)
      → is_set v.result ≡ false
      → IsAlive t v
      → IsAlive (return_value a t) (record v { result = value a })
  unfolding return_value
  return_value-IsAlive a t v new h =
      let (set, _, _) = or_bit-pack false false v.taken (owners v) (owners-lt v h.room) in
      record {
        word = ap (or_bit data_bit) (unset-word t v new h) ∙ set;
        room = h.room;
        kept = refl;
        ended = h.ended;
        present = h.present;
      }

  unhandled_exception-IsAlive :
      (x : ℕ) (t : Task A) (v : View A)
      → is_set v.result ≡ false
      → IsAlive t v
      → IsAlive (unhandled_exception x t) (record v { result = exception x })
  unfolding unhandled_exception
  unhandled_exception-IsAlive x t v new h =
      let (_, set, _) = or_bit-pack false false v.taken (owners v) (owners-lt v h.room) in
      record {
        word = ap (or_bit except_bit) (unset-word t v new h) ∙ set;
        room = h.room;
        kept = refl;
        ended = h.ended;
        present = h.present;
      }

  -- Each operation that is allowed succeeds (the destructor finds the handle of the coroutine), and
  -- leads to a task that stands for the state of the contract: it is destroyed exactly when its
  -- last owner goes, a handle or the coroutine, and reports then an exception that nobody has read.
  -- There are fewer owners than the flags leave room for.
  pub step-Stands :
      (op : Op A) (t : Task A) (v : View A)
      → IsAllowed op v
      → IsAlive t v
      → (t' : Task A) × (step op t ≡ some t') × Stands t' (operate op v)
  unfolding step
  step-Stands adds t v ok h = (add_ref t, refl, add_ref-IsAlive t v ok.1 h)
  step-Stands releases t v ok h = release_ref-Stands t v ok h
  step-Stands (sets_value a) t v ok h = (return_value a t, refl, return_value-IsAlive a t v ok.1 h)
  step-Stands (throws e) t v ok h =
      (unhandled_exception e t, refl, unhandled_exception-IsAlive e t v ok.1 h)
  step-Stands reads t v ok h = ((get_result t).0, refl, (get_result-IsAlive t v h).0)
  step-Stands finishes t v ok h = (final_suspend t, refl, final_suspend-Stands t v ok h)
