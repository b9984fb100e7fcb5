-- ===== src/Queue/Limited.antt =====
-- `limited_queue` of queue.h: writers are blocked while the queue is full.
--
-- A value is copied where the source forwards it, as it is for an lvalue or a trivial type.
-- `released` records the promises of blocked writers that were resolved.
pub mod Invariant
pub mod Double
use coroutines_classes.Prelude.{
  ℕ, suc, ◌+◌, List, [], ◌∷◌, ◌++◌, Bool, true, false, length, leb, if◌then◌else◌,
}
use coroutines_classes.Queue.{Queue, Reply, value, exception, resolve}

pub record Limited {ℓ} (A : Type ℓ) : Type ℓ where
  pub queue : Queue A
  pub open queue use *
  pub blocked : List (A × ℕ)
  pub released : List (ℕ × Reply (Unit {0}))
  pub limit : ℕ

module _ {ℓ} {A : Type ℓ} where
  abbrev set_items : Limited A → List A → Limited A
  set_items l vs = record l { queue = record l.queue { items = vs } }

  -- The writer of `v` goes on, or its promise `b` joins the blocked ones.
  block_if_full : A → ℕ → Limited A → Limited A × Bool
  block_if_full v b l =
      if leb l.limit (length l.items)
      then (record l { blocked = l.blocked ++ (v, b) ∷ [] }, false)
      else (l, true)

  push_to : List ℕ → A → ℕ → Limited A → Limited A × Bool
  unfolding resolve block_if_full
  push_to [] v b l = block_if_full v b (set_items l (l.items ++ v ∷ []))
  push_to (p ∷ ps) v b l =
      (record l { queue = resolve p (value v) (record l.queue { awaiters = ps }) }, true)

  -- `true`: the future that `push` returns is resolved already.
  unfoldable pub push : A → ℕ → Limited A → Limited A × Bool
  unfolding push_to
  push v b l = push_to l.awaiters v b l

  release_first : List (A × ℕ) → Limited A → Limited A
  release_first [] l = l
  release_first ((v, b) ∷ bs) l = record (set_items l (l.items ++ v ∷ [])) {
    blocked = bs;
    released = l.released ++ (b, value tt) ∷ [];
  }

  pop_from : List A → ℕ → Limited A → Limited A
  unfolding resolve release_first
  pop_from [] p l = record l { queue = record l.queue { awaiters = l.awaiters ++ p ∷ [] } }
  pop_from (v ∷ vs) p l =
      release_first l.blocked
        (record l { queue = resolve p (value v) (record l.queue { items = vs }) })

  unfoldable pub pop : ℕ → Limited A → Limited A
  unfolding pop_from
  pop p l = pop_from l.items p l

  unblock_first : List (A × ℕ) → ℕ → Limited A → Limited A × Bool
  unblock_first [] e l = (l, false)
  unblock_first ((v, b) ∷ bs) e l =
      (record l { blocked = bs; released = l.released ++ (b, exception e) ∷ [] }, true)

  unfoldable pub unblock_push : ℕ → Limited A → Limited A × Bool
  unfolding unblock_first
  unblock_push e l = unblock_first l.blocked e l
