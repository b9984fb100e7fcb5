-- ===== src/Barrier.antt =====
-- src/coclasses/barrier.h: a barrier that lets all go on when enough have come.
--
-- `_count` is a word of 32 bits; `_waiting` is the head of `chains`. Another thread can come between
-- `pick`, the exchange that takes the chain, and `put_back`, the one that sets it again. `wake` is what
-- resumed code does to the chain.
pub mod Arrival
mod Tests
use mathlib.Core.Option
use coroutines_classes.Prelude.{
  ℕ, zero, suc, ◌+◌, ◌^◌, ◌%◌, ◌-◌, List, [], Option, none, some, Bool, true, false, ◌==◌, ltb,
  if◌then◌else◌, update, ◌>>=◌,
}
use coroutines_classes.Awaiter.{Chains, null, resume, resume_chain, resume_chain_lk}

pub record Barrier : Type 0 where
  pub count : ℕ
  pub chains : Chains

abbrev pub add32 : ℕ → ℕ → ℕ
add32 a b = (a + b) % 2 ^ 32

-- The count of a barrier made without one: the greatest word.
abbrev pub no_count : ℕ
no_count = 2 ^ 32 - 1

unfoldable pub get_count : ℕ → ℕ → ℕ → Chains → Option ℕ
get_count zero x cnt c = none
get_count (suc fuel) x cnt c =
    let rest = get_count fuel (c.next x) (add32 cnt 1) c in if x == null then some cnt else rest

-- The chain that was there is returned.
unfoldable pub pick : ℕ → Barrier → Barrier × ℕ
pick aw b = (
  record b { chains = record b.chains { next = update b.chains.next aw null; head = null } },
  b.chains.head,
)

-- `aw` is put in front of the chain `x`, and the chain that came meanwhile is returned.
unfoldable pub put_back : ℕ → ℕ → Barrier → Barrier × ℕ
put_back aw x b = (
  record b { chains = record b.chains { next = update b.chains.next aw x; head = aw } },
  b.chains.head,
)

module _ (wake : ℕ → Chains → Chains) where
  unfoldable pub release : ℕ → Barrier → Option Barrier
  release fuel b =
      Option.map (λ (_, c). record b { chains = c }) (resume_chain wake fuel null b.chains)

  unfoldable pub release_picked : ℕ → ℕ → Barrier → Option Barrier
  release_picked fuel x b =
      Option.map (λ (_, c). record b { chains = c }) (resume_chain_lk wake fuel x null 0 b.chains)

  unfoldable mutual
    unfolding pick put_back release_picked get_count

    -- `true`: the awaiter waits (or was resumed); `false`: it goes on.
    pub subscribe_awaiter : ℕ → ℕ → Barrier → Option (Barrier × Bool)
    subscribe_awaiter zero aw b = none
    subscribe_awaiter (suc fuel) aw b = let (b', x) = pick aw b in after_pick fuel aw x b'

    -- What follows the first exchange, which returned the chain `x`.
    pub after_pick : ℕ → ℕ → ℕ → Barrier → Option (Barrier × Bool)
    after_pick zero aw x b = none
    after_pick (suc fuel) aw x b =
        let (b', y) = put_back aw x b in
        let waits = (do b'' ← subscribe_again fuel y b'; some (b'', true)) in
        let goes_on = (do b'' ← release_picked fuel x b; some (b'', false)) in
        do cnt ← get_count fuel x 0 b.chains; if ltb (add32 cnt 1) b.count then waits else goes_on

    -- The loop over those who came meanwhile: each is subscribed again.
    pub subscribe_again : ℕ → ℕ → Barrier → Option Barrier
    subscribe_again zero x b = none
    subscribe_again (suc fuel) x b =
        let again = (do
          (b', waits) ← subscribe_awaiter fuel x b
          subscribe_again fuel (b.chains.next x)
              (if waits then b' else record b' { chains = resume wake x b'.chains })) in
        if x == null then some b else again
