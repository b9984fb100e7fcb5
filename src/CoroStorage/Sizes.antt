-- ===== src/CoroStorage/Sizes.antt =====
-- The sizes that the storages of coro_storage.h pass on.
use coroutines_classes.Prelude.{ℕ, suc, ◌+◌, ◌-◌, ◌*◌, ◌/◌, ◌≤◌, ◌<◌, ◌≡◌, ◌⊎◌, inl, inr, arith}
use native.Mathlib.Decide.{dec_lt}
use native.Mathlib.Nat.{lt-div-mul-add, le-div_iff_mul-le, suc-mul, mul-le-mul_right}
use coroutines_classes.CoroStorage.{alloc_buffer}

items_enough : (k sz : ℕ) → 0 < k → sz ≤ (sz + k - 1) / k * k
items_enough k sz p = omega (arith, lt-div-mul-add {a = sz + k - 1} {b = k} p)

at_least : (a b : ℕ) → ¬ a < b → b ≤ a
at_least a b n = omega (arith, n)

items_few : (k sz size : ℕ) → 0 < k → size < (sz + k - 1) / k → size * k < sz
items_few k sz size p lt =
    omega
      (arith, (le-div_iff_mul-le {k = k} {x = suc size} {y = sz + k - 1} p).0 lt, suc-mul size k)

-- The buffer of a `reusable_buffer_storage` has room for the frame after `alloc`, never shrinks, and
-- grows only if it had too little room. Items have a size.
pub alloc_buffer-room :
    (item_size sz size : ℕ)
    → 0 < item_size
    → (sz ≤ alloc_buffer item_size sz size * item_size)
      × (size ≤ alloc_buffer item_size sz size)
      × ((alloc_buffer item_size sz size ≡ size) ⊎ (size * item_size < sz))
unfolding alloc_buffer
alloc_buffer-room item_size sz size p = elim (dec_lt size ((sz + item_size - 1) / item_size)) [
  | yes lt ↦ (
    ground (arith, items_enough item_size sz p),
    ground arith,
    inr (items_few item_size sz size p lt),
  )
  | no ge ↦ (
    ground (arith, items_enough item_size sz p, mul-le-mul_right item_size (at_least size _ ge)),
    ground arith,
    inl (ground arith),
  )
]
