-- ===== src/Aggregator.antt =====
-- src/coclasses/generator_aggregator.h: a generator that yields what several generators yield.
--
-- The generators are numbered; `slots` has what is left of each, `pending` those that were asked
-- and have not answered yet, in no order, and `queue` the callbacks of those that have. `yielded`
-- records what was yielded, with the number of its generator. The order in which generators answer
-- is that of the steps.
pub mod Invariant
pub mod Merge
mod Tests
use coroutines_classes.Prelude.{
  ℕ, zero, suc, ◌+◌, ◌-◌, ◌≡◌, List, [], ◌∷◌, ◌++◌, Option, none, some, Bool, true, false, ◌==◌,
  if◌then◌else◌, update, length,
}
use coroutines_classes.Generator.{Body, yields, awaits, returns, throws}
use coroutines_classes.Generator.Calls.{Head, item, over, failed, head}

pub record Aggregator {ℓ} (A : Type ℓ) : Type ℓ where
  pub count : ℕ
  pub slots : ℕ → Body A
  pub pending : List ℕ
  pub queue : List ℕ
  pub exp : Option ℕ
  pub yielded : List (ℕ × A)

abbrev pub range : ℕ → List ℕ
range zero = []
range (suc n) = n ∷ range n

module _ {ℓ} {A : Type ℓ} where
  abbrev pub body_at : List (Body A) → ℕ → Body A
  body_at [] i = returns
  body_at (b ∷ bs) zero = b
  body_at (b ∷ bs) (suc i) = body_at bs i

  -- All generators of the list are charged.
  unfoldable pub start : List (Body A) → Aggregator A
  start list = record {
    count = length list;
    slots = body_at list;
    pending = range (length list);
    queue = [];
    exp = none;
    yielded = [];
  }

  -- `fin`
  unfoldable pub fin : Aggregator A → Aggregator A
  fin s = record s { count = s.count - 1 }

  -- `charge`: the generator is asked for its next value.
  unfoldable pub charge : ℕ → Aggregator A → Aggregator A
  charge i s = record s { pending = i ∷ s.pending }

  -- The body of the loop, for the answer of the generator `i` that was popped.
  unfoldable pub handle_answer : ℕ → Head A → Aggregator A → Aggregator A
  unfolding fin charge
  handle_answer i (item v b) s =
      charge i (record s { slots = update s.slots i b; yielded = s.yielded ++ (i, v) ∷ [] })
  handle_answer i over s = fin s
  handle_answer i (failed e) s = fin (record s { exp = some e })

  -- A generator that was asked answers, and pushes its callback; or the aggregator pops one.
  pub data Step : Aggregator A → Aggregator A → Type ℓ where
    answers :
        (s : Aggregator A) (before after : List ℕ) (i : ℕ)
        → s.pending ≡ before ++ i ∷ after
        → Step s (record s { pending = before ++ after; queue = s.queue ++ i ∷ [] })
    pops :
        (s : Aggregator A) (i : ℕ) (rest : List ℕ)
        → s.queue ≡ i ∷ rest
        → Step s (handle_answer i (head (s.slots i)) (record s { queue = rest }))

  pub data Steps : Aggregator A → Aggregator A → Type ℓ where
    stop : (s : Aggregator A) → Steps s s
    go : (s t u : Aggregator A) → Step s t → Steps t u → Steps s u
