-- ===== src/Future/Contract.antt =====
-- The contract of future.h: one promise at most refers to the future; the awaiters wait until it is
-- used or dropped, and are then resumed, the last to come first.
use coroutines_classes.Prelude.{
  ℕ, ◌≡◌, ◌≢◌, List, [], ◌∷◌, Option, none, some, Bool, true, false, ◌==◌, if◌then◌else◌, NotMem,
}
use coroutines_classes.Awaiter.{null, disabled_addr, instance_addr}
use coroutines_classes.Awaiter.Segment.{Segment}
use coroutines_classes.Future.{
  Stored, not_value, value, exception, Cell, Got, returned, thrown, not_ready,
}

-- `waiting p xs`: the promise `p` refers to the future, and the awaiters of `xs` wait. `settled r
-- xs`: the result is `r`, and those of `xs` were resumed.
pub data View {ℓ} (A : Type ℓ) : Type ℓ where
  waiting : ℕ → List ℕ → View A
  settled : Stored A → List ℕ → View A

pub data Op {ℓ} (A : Type ℓ) : Type ℓ where
  subscribes : ℕ → Op A
  sets : ℕ → Stored A → Op A
  drops : ℕ → Op A
  destroys : ℕ → Op A
  assigns : ℕ → ℕ → Op A
  constructs : ℕ → ℕ → Op A

module _ {ℓ} {A : Type ℓ} where
  abbrev pub line : View A → List ℕ
  line (waiting o xs) = xs
  line (settled r xs) = []

  -- The promise gives up the future: those who wait are resumed, and there is no value.
  abbrev pub settle : ℕ → Stored A → View A → View A × Bool
  settle p r (waiting o xs) = if p == o then (settled r xs, true) else (waiting o xs, false)
  settle p r (settled s xs) = (settled s xs, false)

  abbrev pub hand_over : ℕ → ℕ → View A → View A
  hand_over p q (waiting o xs) = if q == o then waiting p xs else waiting o xs
  hand_over p q (settled s xs) = settled s xs

  abbrev pub wait_in : ℕ → View A → View A × Bool
  wait_in a (waiting o xs) = (waiting o (a ∷ xs), true)
  wait_in a (settled s xs) = (settled s xs, false)

  -- What an operation does, and the Boolean that it returns.
  abbrev pub operate : Op A → View A → View A × Option Bool
  operate (subscribes a) v = ((wait_in a v).0, some (wait_in a v).1)
  operate (sets p r) v = ((settle p r v).0, some (settle p r v).1)
  operate (drops p) v = ((settle p not_value v).0, none)
  operate (destroys p) v = ((settle p not_value v).0, none)
  operate (assigns p q) v = (if p == q then v else hand_over p q (settle p not_value v).0, none)
  operate (constructs p q) v = (hand_over p q v, none)

  pub record IsWaiting (c : Cell A) (p : ℕ) (xs : List ℕ) : Type ℓ where
    pub chained : Segment c.future.chains.next c.future.chains.head xs null
    pub open_head : NotMem disabled_addr xs
    pub real : NotMem instance_addr xs
    pub none_resumed : c.future.chains.log ≡ []
    pub no_result : c.future.stored ≡ not_value
    pub owner : c.owns p ≡ true
    pub sole : (q : ℕ) → q ≢ p → c.owns q ≡ false

  pub record IsSettled (c : Cell A) (r : Stored A) (xs : List ℕ) : Type ℓ where
    pub marked : c.future.chains.head ≡ disabled_addr
    pub result : c.future.stored ≡ r
    pub resumed : c.future.chains.log ≡ xs
    pub no_owner : (q : ℕ) → c.owns q ≡ false

  -- The pointers stand for the abstract state.
  abbrev pub Implements : Cell A → View A → Type ℓ
  Implements c (waiting p xs) = IsWaiting c p xs
  Implements c (settled r xs) = IsSettled c r xs

  -- What `value` gives.
  abbrev pub outcome : View A → Got A
  outcome (waiting o xs) = not_ready
  outcome (settled not_value xs) = not_ready
  outcome (settled (value v) xs) = returned v
  outcome (settled (exception e) xs) = thrown e

  abbrev pub is_settled : View A → Bool
  is_settled (waiting o xs) = false
  is_settled (settled r xs) = true

  -- An awaiter that subscribes is a real one, that stands in no chain; a promise that is constructed
  -- is new.
  abbrev pub IsAllowed : Op A → Cell A → View A → Type 0
  IsAllowed (subscribes a) c v =
      (a ≢ null)
      × (a ≢ disabled_addr)
      × (a ≢ instance_addr)
      × NotMem a (line v)
      × (c.future.chains.next a ≡ null)
  IsAllowed (constructs p q) c v = c.owns p ≡ false
  IsAllowed (sets p r) c v = Unit
  IsAllowed (drops p) c v = Unit
  IsAllowed (destroys p) c v = Unit
  IsAllowed (assigns p q) c v = Unit
