-- ===== src/Awaiter.antt =====
-- src/coclasses/awaiter.h: awaiters chained by `_next`, and the atomic head of such a chain.
--
-- An awaiter is its address, and `null` is the null pointer. `Chains` holds the field `_next` of every
-- awaiter, the atomic head of one chain, and, as a record of what happened, the awaiters resumed.
pub mod Segment
pub mod Subscribe
pub mod Resume
pub mod CoAwait
mod Tests
use coroutines_classes.Prelude.{
  ℕ, zero, suc, ◌+◌, List, [], ◌∷◌, ◌++◌, Option, none, some, Bool, true, false, ◌==◌, ◌&&◌,
  if◌then◌else◌, update, not,
}

abbrev pub null : ℕ
null = 0

-- `empty_awaiter::instance`
abbrev pub instance_addr : ℕ
instance_addr = 1

-- `empty_awaiter::disabled`
abbrev pub disabled_addr : ℕ
disabled_addr = 2

pub record Chains : Type 0 where
  pub next : ℕ → ℕ
  pub head : ℕ
  pub log : List ℕ

-- One `chain.compare_exchange_weak(_next, this)`; `spurious` says that it fails for no reason.
unfoldable pub exchange_weak : Bool → ℕ → Chains → Chains × Bool
exchange_weak spurious this c =
    if not spurious && (c.head == c.next this)
    then (record c { head = this }, true)
    else (record c { next = update c.next this c.head }, false)

-- The loop of `subscribe`. The list says of each round whether it fails spuriously; `none` means
-- that the list was too short.
unfoldable pub subscribe : List Bool → ℕ → Chains → Option Chains
unfolding exchange_weak
subscribe [] this c = none
subscribe (spurious ∷ rounds) this c =
    let (c', done) = exchange_weak spurious this c in
    let again = subscribe rounds this c' in if done then some c' else again

-- The same loop, which gives up where it meets the marker of a ready chain.
unfoldable pub subscribe_check_ready : List Bool → ℕ → ℕ → Chains → Option (Chains × Bool)
unfolding exchange_weak
subscribe_check_ready [] this ready_state c = none
subscribe_check_ready (spurious ∷ rounds) this ready_state c =
    let (c', done) = exchange_weak spurious this c in
    let again = subscribe_check_ready rounds this ready_state c' in
    if done
    then some (c', true)
    else if c'.next this == ready_state
    then some (record c' { next = update c'.next this null }, false)
    else again

-- What `resume` of an awaiter does to the chains is its owner's code, `wake`.
module _ (wake : ℕ → Chains → Chains) where
  unfoldable pub resume : ℕ → Chains → Chains
  resume y c = wake y (record c { log = c.log ++ y ∷ [] })

  -- The body of the loop: the awaiter is taken off the chain, and resumed unless it is to be skipped.
  unfoldable pub release : ℕ → ℕ → Chains → Chains
  unfolding resume
  release y skip c =
      let c' = record c { next = update c.next y null } in if y == skip then c' else resume y c'

  unfoldable pub resume_chain_lk : ℕ → ℕ → ℕ → ℕ → Chains → Option (ℕ × Chains)
  unfolding release
  resume_chain_lk zero chain skip n c = none
  resume_chain_lk (suc fuel) chain skip n c =
      let rest = resume_chain_lk fuel (c.next chain) skip (n + 1) (release chain skip c) in
      if chain == null then some (n, c) else rest

  unfoldable pub resume_chain : ℕ → ℕ → Chains → Option (ℕ × Chains)
  unfolding resume_chain_lk
  resume_chain fuel skip c = resume_chain_lk fuel c.head skip 0 (record c { head = null })

  unfoldable pub resume_chain_set_ready : ℕ → ℕ → ℕ → Chains → Option (ℕ × Chains)
  unfolding resume_chain_lk
  resume_chain_set_ready fuel ready_state skip c =
      resume_chain_lk fuel c.head skip 0 (record c { head = ready_state })
