-- ===== src/Aggregator/Merge.antt =====
-- What the aggregator of generator_aggregator.h yields, in whatever order its generators answer.
use coroutines_classes.Prelude.{
  ℕ, ◌+◌, ◌<◌, ◌≡◌, refl, sym, ◌∙◌, ap, subst, List, [], ◌∷◌, ◌++◌, Option, none, some, length,
  NotMem, arith, append-nil,
}
use coroutines_classes.Generator.{Body}
use coroutines_classes.Generator.Calls.{head}
use coroutines_classes.Generator.Collect.{values, head-Unfolds}
use coroutines_classes.Aggregator.{Aggregator, body_at, start, Step, answers, pops, Steps, stop, go}
use coroutines_classes.Aggregator.Invariant.{
  part, Rethrows, Caught, IsMerging, start-IsMerging, answers-IsMerging, pops-IsMerging,
}

empty-lists : (xs ys : List ℕ) → length xs + length ys ≡ 0 → (xs ≡ []) × (ys ≡ [])
empty-lists [] [] e = (refl, refl)
empty-lists [] (y ∷ ys) e = absurd (omega arith)
empty-lists (x ∷ xs) ys e = absurd (omega arith)

module _ {ℓ} {A : Type ℓ} where
  Steps-IsMerging :
      (list : List (Body A)) (s t : Aggregator A) → Steps s t → IsMerging list s → IsMerging list t
  Steps-IsMerging list s t (stop _) h = h
  Steps-IsMerging list s t (go _ _ _ (answers _ before after i e) rest) h =
      Steps-IsMerging list _ t rest (answers-IsMerging list s before after i e h)
  Steps-IsMerging list s t (go _ _ _ (pops _ i ids e) rest) h =
      Steps-IsMerging list _ t rest
        (pops-IsMerging list s i ids (head (s.slots i)) e (head-Unfolds (s.slots i)) h)

  all-rethrown :
      (list : List (Body A)) (s : Aggregator A) (o : Option ℕ)
      → IsMerging list s
      → s.pending ≡ []
      → s.queue ≡ []
      → Caught list s o
      → Rethrows list o
  all-rethrown list s none h p q c =
      λ i. sym (h.endings i) ∙ c i (subst (NotMem i) (sym p) tt) (subst (NotMem i) (sym q) tt)
  all-rethrown list s (some e) h p q c = c

  -- In whatever order the generators answer: when the loop ends, the aggregator has yielded all
  -- values of all generators, those of each in their order, and no others. It rethrows an exception
  -- of one of them, and none exactly if all of them returned.
  pub Steps-merges :
      (list : List (Body A)) (s : Aggregator A)
      → Steps (start list) s
      → s.count ≡ 0
      → ((i : ℕ) → part i s.yielded ≡ values (body_at list i)) × Rethrows list s.exp
  Steps-merges list s steps none_left =
      let h = Steps-IsMerging list (start list) s steps (start-IsMerging list) in
      let (p, q) = empty-lists s.pending s.queue (sym h.counted ∙ none_left) in
      (
        λ i.
            sym (append-nil (part i s.yielded))
            ∙ ap (λ l. part i s.yielded ++ l)
                (sym (h.drained i (subst (NotMem i) (sym p) tt) (subst (NotMem i) (sym q) tt)))
            ∙ h.parts i,
        all-rethrown list s s.exp h p q h.caught,
      )

  -- As long as the loop goes on, a generator has answered or will: the aggregator does not wait in
  -- vain.
  pub Steps-goes_on :
      (list : List (Body A)) (s : Aggregator A)
      → Steps (start list) s
      → 0 < s.count
      → (t : Aggregator A) × Step s t
  Steps-goes_on list s steps left =
      let h = Steps-IsMerging list (start list) s steps (start-IsMerging list) in
      next s.pending s.queue refl refl (subst (λ n. 0 < n) h.counted left)
    where
      next :
          (p q : List ℕ)
          → s.pending ≡ p
          → s.queue ≡ q
          → 0 < length s.pending + length s.queue
          → (t : Aggregator A) × Step s t
      next (i ∷ p) q e f lt = (_, answers s [] p i e)
      next [] (i ∷ q) e f lt = (_, pops s i q f)
      next [] [] e f lt = absurd (omega (arith, ap length e, ap length f))
