-- ===== src/Counter.antt =====
-- src/coclasses/counter.h: a counter that lets those who wait go on when it is not positive.
--
-- `_count` is a word of 64 bits in two's complement. An operation that another thread can come between
-- is given in its two parts, and whole. `wake` is what resumed code does to the chain.
pub mod Awake
pub mod Whole
mod Tests
use mathlib.Core.Option
use coroutines_classes.Prelude.{
  ℕ, ◌+◌, ◌^◌, Option, none, some, Bool, true, false, ◌==◌, ◌||◌, if◌then◌else◌, leb, List, [],
  add64, sub64, ◌>>=◌,
}
use coroutines_classes.Awaiter.{Chains, null, subscribe, resume_chain}

pub record Counter : Type 0 where
  pub count : ℕ
  pub chains : Chains

-- `x <= 0` on a `long`
abbrev pub not_positive : ℕ → Bool
not_positive x = x == 0 || leb (2 ^ 63) x

abbrev pub initial : ℕ → (ℕ → ℕ) → Counter
initial count next = record {
  count = count;
  chains = record { next = next; head = null; log = [] };
}

unfoldable pub increment : Counter → Counter × ℕ
increment c = let r = add64 c.count 1 in (record c { count = r }, r)

unfoldable pub count_down : Counter → Counter × ℕ
count_down c = let r = sub64 c.count 1 in (record c { count = r }, r)

-- The difference that `set_value` reads, and its addition: whether the sum is not positive.
unfoldable pub difference : ℕ → Counter → ℕ
difference val c = sub64 val c.count

unfoldable pub add_difference : ℕ → Counter → Counter × Bool
add_difference diff c = let sum = add64 c.count diff in (record c { count = sum }, not_positive sum)

-- `is_ready`
unfoldable pub is_ready : Counter → Bool
is_ready c = not_positive c.count

unfoldable pub enter : List Bool → ℕ → Counter → Option Counter
enter rounds a c = Option.map (λ b. record c { chains = b }) (subscribe rounds a c.chains)

module _ (wake : ℕ → Chains → Chains) where
  unfoldable pub release : ℕ → Counter → Option Counter
  release fuel c =
      Option.map (λ (_, b). record c { chains = b }) (resume_chain wake fuel null c.chains)

  unfoldable pub check_count : ℕ → Counter → Option Counter
  unfolding release
  check_count fuel c =
      let released = release fuel c in if not_positive c.count then released else some c

  -- The awaiter always waits, though it may have been resumed already.
  unfoldable pub subscribe_awaiter : List Bool → ℕ → ℕ → Counter → Option (Counter × Bool)
  unfolding enter check_count
  subscribe_awaiter rounds fuel a c = do
    c' ← enter rounds a c
    c'' ← check_count fuel c'
    some (c'', true)

  unfoldable pub decrement : ℕ → Counter → Option (Counter × ℕ)
  unfolding count_down release
  decrement fuel c =
      let (c', r) = count_down c in
      let released = (do c'' ← release fuel c'; some (c'', r)) in
      if r == 0 then released else some (c', r)

  unfoldable pub set_value : ℕ → ℕ → Counter → Option Counter
  unfolding difference add_difference release
  set_value fuel val c =
      let (c', low) = add_difference (difference val c) c in
      let released = release fuel c' in if low then released else some c'
