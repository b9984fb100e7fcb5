-- ===== src/Queue.antt =====
-- src/coclasses/queue.h: the queue with awaiting readers, `queue`, over `std::queue`s.
--
-- A promise is a number. `done` records which promises were resolved, and how; what resolving does to
-- the future is another component. A lock of the mutex `_mx` covers each operation.
pub mod Order
pub mod Limited
pub mod Count
pub mod Single
mod Tests
use coroutines_classes.Prelude.{ℕ, List, [], ◌∷◌, ◌++◌, Bool, true, false, length}

-- How a promise is resolved.
pub data Reply {ℓ} (A : Type ℓ) : Type ℓ where
  value : A → Reply A
  exception : ℕ → Reply A

pub record Queue {ℓ} (A : Type ℓ) : Type ℓ where
  pub items : List A
  pub awaiters : List ℕ
  pub done : List (ℕ × Reply A)

module _ {ℓ} {A : Type ℓ} where
  abbrev pub empty_queue : Queue A
  empty_queue = record { items = []; awaiters = []; done = [] }

  pub resolve : ℕ → Reply A → Queue A → Queue A
  resolve p r q = record q { done = q.done ++ (p, r) ∷ [] }

  push_to : List ℕ → A → Queue A → Queue A
  unfolding resolve
  push_to [] v q = record q { items = q.items ++ v ∷ [] }
  push_to (p ∷ ps) v q = resolve p (value v) (record q { awaiters = ps })

  unfoldable pub push : A → Queue A → Queue A
  unfolding push_to
  push v q = push_to q.awaiters v q

  pop_from : List A → ℕ → Queue A → Queue A
  unfolding resolve
  pop_from [] p q = record q { awaiters = q.awaiters ++ p ∷ [] }
  pop_from (v ∷ vs) p q = resolve p (value v) (record q { items = vs })

  unfoldable pub pop : ℕ → Queue A → Queue A
  unfolding pop_from
  pop p q = pop_from q.items p q

  unblock_first : List ℕ → ℕ → Queue A → Queue A × Bool
  unfolding resolve
  unblock_first [] e q = (q, false)
  unblock_first (p ∷ ps) e q = (resolve p (exception e) (record q { awaiters = ps }), true)

  unfoldable pub unblock_pop : ℕ → Queue A → Queue A × Bool
  unfolding unblock_first
  unblock_pop e q = unblock_first q.awaiters e q

  is_empty : List A → Bool
  is_empty [] = true
  is_empty (v ∷ vs) = false

  unfoldable pub empty : Queue A → Bool
  unfolding is_empty
  empty q = is_empty q.items

  unfoldable pub size : Queue A → ℕ
  size q = length q.items
