-- ===== src/Task/Counts.antt =====
-- How the owners of a task of task.h are counted, and what happens with the last.
use coroutines_classes.Prelude.{
  ℕ, ◌+◌, ◌-◌, ◌<◌, ◌≡◌, refl, sym, ◌∙◌, ap, some, Bool, true, false, not, ◌==◌, ◌&&◌, ◌||◌,
  if◌then◌else◌, Bool-cases, inl, inr, arith, add64, sub64, cond_true, cond_false, subst,
}
use coroutines_classes.Future.{Stored, not_value, value, exception}
use coroutines_classes.Task.{
  Task, data_bit, except_bit, processed_bit, has_bit, counter, dispose, destroy, add_ref,
  release_ref, final_count, final_store, final_suspend,
}
use coroutines_classes.Task.Word.{pack, pack-bits, count-pack, report-pack}
use coroutines_classes.Task.Contract.{
  View, alive, gone, releases, finishes, is_value, is_exception, owners, settle, operate, IsGone,
  IsAlive, Stands,
}

nobody-runs : (n : ℕ) (r : Bool) → ((n + (if r then 1 else 0)) == 0) ≡ true → r ≡ false
nobody-runs n true e = absurd (ground arith)
nobody-runs n false e = refl

module _ {ℓ} {A : Type ℓ} where
  only_exception :
      (r : Stored A) (p : Bool)
      → (is_exception r && not (is_value r || p)) ≡ (is_exception r && not p)
  only_exception not_value p = refl
  only_exception (value a) p = refl
  only_exception (exception e) p = refl

  -- What the destructor reports.
  dispose-IsGone :
      (r : Stored A) (p : Bool) (n : ℕ) (t : Task A)
      → n < processed_bit
      → t.status ≡ pack (is_value r) (is_exception r) p n
      → IsGone (dispose t) (is_exception r && not p)
  unfolding dispose
  dispose-IsGone r p n t lt e = record {
    absent = refl;
    report =
        ap (λ s. has_bit except_bit s && not (has_bit data_bit s || has_bit processed_bit s)) e
        ∙ report-pack (is_value r) (is_exception r) p n lt
        ∙ only_exception r p;
  }

  pub counted :
      (t : Task A) (r : Stored A) (p : Bool) (n : ℕ)
      → t.status ≡ pack (is_value r) (is_exception r) p (n + 1)
      → n + 1 < processed_bit
      → (sub64 t.status 1 ≡ pack (is_value r) (is_exception r) p n)
        × (counter (sub64 t.status 1) ≡ n)
  counted t r p n e lt =
      let (_, less) = count-pack (is_value r) (is_exception r) p n lt in
      let (_, _, _, count) = pack-bits (is_value r) (is_exception r) p n (omega arith) in
      let word = ap (λ s. sub64 s 1) e ∙ less in (word, ap counter word ∙ count)

  pub owners-lt : (v : View A) → v.users + 1 < processed_bit → owners v < processed_bit
  owners-lt v lt = elim (Bool-cases v.running) [ inl e ↦ rw e lt | inr e ↦ rw e (omega arith) ]

  settle-gone :
      (w : View A) → (owners w == 0) ≡ true → settle w ≡ gone (is_exception w.result && not w.taken)
  settle-gone w z = cond_true (owners w == 0) _ _ z

  settle-alive : (w : View A) → (owners w == 0) ≡ false → settle w ≡ alive w
  settle-alive w z = cond_false (owners w == 0) _ _ z

  pub release_ref-Stands :
      (t : Task A) (v : View A)
      → 0 < v.users
      → IsAlive t v
      → (t' : Task A) × (release_ref t ≡ some t') × Stands t' (operate releases v)
  unfolding release_ref destroy
  release_ref-Stands t v pos h =
      let w : View A = record v { users = v.users - 1 } in
      let t1 : Task A = record t { status = sub64 t.status 1 } in
      let one_more : owners v ≡ owners w + 1 = omega arith in
      let (word, count) =
        counted t v.result v.taken (owners w)
          (h.word ∙ ap (pack (is_value v.result) (is_exception v.result) v.taken) one_more)
          (omega (arith, owners-lt v h.room, one_more)) in
      elim (Bool-cases (owners w == 0)) [
        | inl z ↦ (
          dispose t1,
          cond_true (counter t1.status == 0) _ _ (ap (λ n. n == 0) count ∙ z)
              ∙ cond_true t.handle _ _ (h.ended ∙ ap not (nobody-runs w.users w.running z)),
          subst (Stands (dispose t1)) (sym (settle-gone w z)) (
              dispose-IsGone v.result v.taken (owners w) t1
                (omega (arith, owners-lt v h.room, one_more)) word),
        )
        | inr z ↦ (
          t1,
          cond_false (counter t1.status == 0) _ _ (ap (λ n. n == 0) count ∙ z),
          subst (Stands t1) (sym (settle-alive w z)) (record {
            word = word;
            room = omega (arith, h.room);
            kept = h.kept;
            ended = h.ended;
            present = h.present;
          }),
        )
      ]

  pub final_suspend-Stands :
      (t : Task A) (v : View A)
      → v.running ≡ true
      → IsAlive t v
      → Stands (final_suspend t) (operate finishes v)
  unfolding final_suspend final_count final_store
  final_suspend-Stands t v run h =
      let w : View A = record v { running = false } in
      let t1 : Task A = record t { status = sub64 t.status 1 } in
      let one_more : owners v ≡ owners w + 1 = rw run (omega arith) in
      let (word, count) =
        counted t v.result v.taken (owners w)
          (h.word ∙ ap (pack (is_value v.result) (is_exception v.result) v.taken) one_more)
          (omega (arith, owners-lt v h.room, one_more)) in
      elim (Bool-cases (owners w == 0)) [
        | inl z ↦
            subst (λ u. Stands u (settle w))
              (sym (cond_true (counter t1.status == 0) _ _ (ap (λ n. n == 0) count ∙ z)))
              (subst (Stands (dispose t1)) (sym (settle-gone w z)) (
                dispose-IsGone v.result v.taken (owners w) t1
                  (omega (arith, owners-lt v h.room, one_more)) word))
        | inr z ↦
            subst (λ u. Stands u (settle w))
              (sym (cond_false (counter t1.status == 0) _ _ (ap (λ n. n == 0) count ∙ z)))
              (subst (Stands (record t1 { handle = true })) (sym (settle-alive w z)) (record {
                word = word;
                room = h.room;
                kept = h.kept;
                ended = refl;
                present = h.present;
              }))
      ]

  pub add_ref-IsAlive :
      (t : Task A) (v : View A)
      → v.users + 2 < processed_bit
      → IsAlive t v
      → IsAlive (add_ref t) (record v { users = v.users + 1 })
  unfolding add_ref
  add_ref-IsAlive t v lt h =
      let w : View A = record v { users = v.users + 1 } in
      let one_more : owners v + 1 ≡ owners w = omega arith in
      let (more, _) =
        count-pack (is_value v.result) (is_exception v.result) v.taken (owners v)
          (omega (arith, owners-lt w (omega arith), one_more)) in
      record {
        word =
            ap (λ s. add64 s 1) h.word
            ∙ more
            ∙ ap (pack (is_value v.result) (is_exception v.result) v.taken) one_more;
        room = omega arith;
        kept = h.kept;
        ended = h.ended;
        present = h.present;
      }
