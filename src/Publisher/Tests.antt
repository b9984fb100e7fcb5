-- ===== src/Publisher/Tests.antt =====
-- Examples for the publisher.
use coroutines_classes.Prelude.{
  ℕ, ◌<◌, ◌+◌, ◌-◌, ◌≡◌, refl, List, [], ◌∷◌, some, none, true, arith, get_elem?, length,
}
use coroutines_classes.Publisher.{
  Publisher, Reg, all_values, skip_if_behind, new_publisher, fresh, advance, get_value, next_ready,
}
use coroutines_classes.Publisher.Push.{push}
use coroutines_classes.Publisher.Stream.{Holds}
use coroutines_classes.Publisher.Session.{read_times, read_times-items}
use coroutines_classes.Publisher.Slots.{Slots}
use coroutines_classes.Publisher.End.{closed-starts_over}

abbrev reader_at : ℕ → Reg
reader_at at = fresh 100 at

-- Three items were published, 10 first; two are held. One reader has got the first.
abbrev running : Publisher ℕ
running = record new_publisher {
  regs = reader_at 1 ∷ [];
  next_free = 1;
  items = 30 ∷ 20 ∷ [];
  pos = 4;
}

abbrev past_items : List ℕ
past_items = 30 ∷ 20 ∷ 10 ∷ []

running-Holds : Holds running past_items
running-Holds = record {
  numbered = omega arith;
  small = omega arith;
  recent = refl;
  within = omega arith;
}

next_run :
    (p : Publisher ℕ) × (advance 0 all_values running ≡ some (p, true))
    × (get_value 0 all_values p ≡ some (some 20))
unfolding advance get_value
next_run = (_, refl, refl)

push_run : (push 40 running).items ≡ 40 ∷ 30 ∷ 20 ∷ []
unfolding push
push_run = refl

-- The reader has got all items.
abbrev read_out : Publisher ℕ
read_out = record running { regs = reader_at 3 ∷ [] }

running-Slots : Slots running []
running-Slots = record { chain = refl; unused = tt }

abbrev ended : Publisher ℕ
ended = record read_out { closed = true }

abbrev told : Publisher ℕ
told = record ended { regs = reader_at 4 ∷ [] }

closed-starts_over_example :
    (p : Publisher ℕ) × (advance 0 all_values told ≡ some (p, true))
    × (get_value 0 all_values p ≡ some none)
    × (advance 0 skip_if_behind told ≡ some (p, true))
    × (get_value 0 skip_if_behind p ≡ some (some 20))
closed-starts_over_example =
    closed-starts_over 0 (reader_at 4) told 20 refl refl refl (omega arith) refl (omega arith) refl

read_times-items_example :
    (p : Publisher ℕ) × (vs : List ℕ) × (read_times 2 0 running ≡ some (p, vs))
    × (length vs ≡ 2)
    × ((i : ℕ) → i < 2 → get_elem? vs i ≡ get_elem? past_items (3 - (1 + 1 + i)))
read_times-items_example =
    read_times-items 2 0 (reader_at 1) running past_items running-Holds (omega arith) refl refl
      (omega arith)

read_run : (p : Publisher ℕ) × (read_times 2 0 running ≡ some (p, 20 ∷ 30 ∷ []))
unfolding read_times next_ready
read_run = (_, refl)
