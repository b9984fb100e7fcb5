-- ===== src/Task/Ready.antt =====
-- Two ways in which a task of task.h goes wrong.
use coroutines_classes.Prelude.{
  ◌+◌, ◌≡◌, refl, ◌∙◌, ap, none, Bool, true, false, not, ◌==◌, ◌||◌, arith, sub64, cond_true,
  cond_false,
}
use coroutines_classes.Future.{Stored, not_value, value, exception}
use coroutines_classes.Task.{
  Task, data_bit, except_bit, processed_bit, has_bit, is_ready, get_result, release_ref, destroy,
  final_count,
}
use coroutines_classes.Task.Word.{pack, pack-bits}
use coroutines_classes.Task.Contract.{
  View, is_value, is_exception, is_set, owners, IsAlive, outcome,
}
use coroutines_classes.Task.Counts.{owners-lt, counted}
use coroutines_classes.Task.Steps.{get_result-IsAlive}

or-true : (b : Bool) → (b || true) ≡ true
or-true true = refl
or-true false = refl

module _ {ℓ} {A : Type ℓ} where
  is_ready-flags :
      (t : Task A) (v : View A) → IsAlive t v → is_ready t ≡ (is_set v.result || v.taken)
  unfolding is_ready
  is_ready-flags t v h =
      let (d, e, p, _) =
        pack-bits (is_value v.result) (is_exception v.result) v.taken (owners v)
          (owners-lt v h.room) in
      flags (ap (has_bit data_bit) h.word ∙ d) (ap (has_bit except_bit) h.word ∙ e)
        (ap (has_bit processed_bit) h.word ∙ p)
      ∙ either v.result v.taken
    where
      flags : {a b c x y z : Bool} → a ≡ x → b ≡ y → c ≡ z → (a || b || c) ≡ (x || y || z)
      flags e f g = cc

      either : (r : Stored A) (p : Bool) → (is_value r || is_exception r || p) ≡ (is_set r || p)
      either not_value p = refl
      either (value a) p = refl
      either (exception x) p = refl

  -- `value()` marks a task as ready. A task is ready if it has a result, or if one was asked for:
  -- `value()` of a task that has none yet throws, and from then on the task says that it is ready.
  pub get_result-is_ready :
      (t : Task A) (v : View A)
      → IsAlive t v
      → (is_ready t ≡ (is_set v.result || v.taken))
        × ((get_result t).1 ≡ outcome v.result)
        × (is_ready (get_result t).0 ≡ true)
  get_result-is_ready t v h =
      let (h', got) = get_result-IsAlive t v h in
      (
        is_ready-flags t v h,
        got,
        is_ready-flags (get_result t).0 (record v { taken = true }) h' ∙ or-true (is_set v.result),
      )

  -- A race at the end of the coroutine, which has one handle left. Once the coroutine has given up
  -- its count, and before it stores its handle, the release of the last handle destroys the task,
  -- and fails the assertion that the handle is there.
  pub final_count-release_ref :
      (t : Task A) (v : View A)
      → v.running ≡ true
      → v.users ≡ 1
      → IsAlive t v
      → ((final_count t).1 ≡ false) × (release_ref (final_count t).0 ≡ none)
  unfolding final_count release_ref destroy
  final_count-release_ref t v run one h =
      let two : owners v ≡ 1 + 1 = rw (run, one) refl in
      let packed = pack (is_value v.result) (is_exception v.result) v.taken in
      let (word, count) = counted t v.result v.taken 1 (h.word ∙ ap packed two) (omega arith) in
      let t1 : Task A = record t { status = sub64 t.status 1 } in
      let (_, last) = counted t1 v.result v.taken 0 word (omega arith) in
      (
        ap (λ n. n == 0) count,
        cond_true _ _ _ (ap (λ n. n == 0) last) ∙ cond_false t.handle _ _ (h.ended ∙ ap not run),
      )
