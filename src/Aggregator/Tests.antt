-- ===== src/Aggregator/Tests.antt =====
-- Examples for the aggregator.
use coroutines_classes.Prelude.{ℕ, ◌≡◌, refl, List, [], ◌∷◌}
use coroutines_classes.Generator.{Body, yields, returns, throws}
use coroutines_classes.Generator.Collect.{values}
use coroutines_classes.Aggregator.{
  Aggregator, body_at, start, fin, charge, handle_answer, answers, pops, Steps, stop, go,
}
use coroutines_classes.Aggregator.Invariant.{part, Rethrows}
use coroutines_classes.Aggregator.Merge.{Steps-merges}

-- A generator of one value, and one that throws at once.
abbrev two_generators : List (Body ℕ)
two_generators = yields 4 returns ∷ throws 9 ∷ []

-- The second answers first.
whole_run : (s : Aggregator ℕ) × Steps (start two_generators) s × (s.count ≡ 0)
unfolding start handle_answer fin charge
whole_run = (
  _,
  go _ _ _ (answers _ [] (0 ∷ []) 1 refl) (
      go _ _ _ (pops _ 1 [] refl) (
        go _ _ _ (answers _ [] [] 0 refl) (
          go _ _ _ (pops _ 0 [] refl)
            (go _ _ _ (answers _ [] [] 0 refl) (go _ _ _ (pops _ 0 [] refl) (stop _)))))),
  refl,
)

Steps-merges_example :
    ((i : ℕ) → part i whole_run.0.yielded ≡ values (body_at two_generators i))
    × Rethrows two_generators whole_run.0.exp
Steps-merges_example = Steps-merges two_generators whole_run.0 whole_run.1 whole_run.2
