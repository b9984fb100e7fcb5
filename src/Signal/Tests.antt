-- ===== src/Signal/Tests.antt =====
-- Examples for the signals.
use coroutines_classes.Prelude.{
  ℕ, ◌≡◌, refl, List, [], ◌∷◌, some, none, Option, true, false, Bool, if◌then◌else◌, ◌==◌, ltb,
  update, arith,
}
use coroutines_classes.Awaiter.{Chains, null}
use coroutines_classes.Signal.{State, await_suspend, subscribe_awaiter}
use coroutines_classes.Signal.Session.{live, heard, hears, values, takes, live-turns}

-- The listeners 11 and 10; the second leaves at a value above 5.
abbrev two_listen : State ℕ
two_listen = record {
  chains = record { next = update (λ _. null) 11 10; head = 11; log = [] };
  cur_val = none;
}

abbrev leaves : ℕ → ℕ → Bool
leaves x v = if x == 10 then ltb v 6 else true

live-turns_example :
    (c : Chains) × (t : List (ℕ × Option ℕ)) × (live leaves
        (false ∷ false ∷ [])
        3
        (4 ∷ 7 ∷ 2 ∷ [])
        two_listen
      ≡ some (c, t))
    × (c.head ≡ null)
    × (heard 10 t ≡ hears (leaves 10) (4 ∷ 7 ∷ 2 ∷ []))
    × (values (heard 10 t) ≡ takes (leaves 10) (4 ∷ 7 ∷ 2 ∷ []))
live-turns_example =
    live-turns leaves (false ∷ false ∷ []) (omega arith) 3 10 (4 ∷ 7 ∷ 2 ∷ []) two_listen
      (11 ∷ 10 ∷ []) (omega arith) (refl, omega arith, (refl, omega arith, refl)) refl

-- The listener 10 is called twice and leaves; 11 is called three times, and resumed once more.
listener_leaves : hears (leaves 10) (4 ∷ 7 ∷ 2 ∷ []) ≡ some 4 ∷ some 7 ∷ []
listener_leaves = refl

listener_stays : hears (leaves 11) (4 ∷ 7 ∷ 2 ∷ []) ≡ some 4 ∷ some 7 ∷ some 2 ∷ none ∷ []
listener_stays = refl

-- A coroutine that awaits an expired signal is not suspended, unless there is a function to call
-- with the receiver of a new one.
await_suspend_expired : await_suspend {A = ℕ} (false ∷ []) 10 false (λ _. null) none ≡ (none, false)
unfolding await_suspend subscribe_awaiter
await_suspend_expired = refl
