-- ===== src/PoolAlloc/Sizes.antt =====
-- `alloc_master` of poolalloc.h: which cache serves a size.
use native.Mathlib.Decide.{dec_lt}
use coroutines_classes.Prelude.{
  ◌⊎◌, inl, inr, ℕ, ◌+◌, ◌-◌, ◌*◌, ◌/◌, ◌≤◌, ◌<◌, ltb, leb, ◌&&◌, if◌then◌else◌, arith, ◌≡◌,
}

abbrev pub max_levels : ℕ
max_levels = 20

-- The cache of a level, `operator new` for a large size, or the exception of `find_step`.
pub data Route : Type 0 where
  cached : ℕ → Route
  system : Route
  bad_alloc : Route

unfoldable pub level : ℕ → ℕ → ℕ
level step sz = (sz + step - 1) / step

-- The cases of `find_step`.
unfoldable pub find_step : ℕ → Route
find_step l = if leb 1 l && leb l max_levels then cached l else bad_alloc

-- `mem_alloc` and `mem_dealloc`
unfoldable pub route : ℕ → ℕ → Route
unfolding level find_step
route step sz = if ltb (step * max_levels) sz then system else find_step (level step sz)

level_bounds :
    (step sz : ℕ)
    → 0 < step
    → (step * level step sz ≤ sz + step - 1) × (sz + step - 1 < step * level step sz + step)
unfolding level
level_bounds step sz h = omega arith

level_pos : (step sz : ℕ) → 0 < step → 0 < sz → 1 ≤ level step sz
level_pos step sz h k = grind (arith, level_bounds step sz h)

level_max : (step sz : ℕ) → 0 < step → sz ≤ step * max_levels → level step sz ≤ max_levels
level_max step sz h k = grind (arith, level_bounds step sz h)

route-level :
    (step sz : ℕ)
    → 0 < step
    → 0 < sz
    → sz ≤ step * max_levels
    → route step sz ≡ cached (level step sz)
unfolding route find_step
route-level step sz h k le = ground (arith, level_pos step sz h k, level_max step sz h le)

route-large : (step sz : ℕ) → step * max_levels < sz → route step sz ≡ system
unfolding route
route-large step sz h = ground arith

-- A size above 20 steps goes to the allocator of the system. Any other size but 0 goes to the cache of
-- a level from 1 to 20, the least one whose blocks hold the size.
pub route_bounds :
    (step sz : ℕ)
    → 0 < step
    → 0 < sz
    → ((step * max_levels < sz) × (route step sz ≡ system))
      ⊎ ((sz ≤ step * max_levels)
          × ((l : ℕ) × (route step sz ≡ cached l)
              × (1 ≤ l)
              × (l ≤ max_levels)
              × (sz ≤ step * l)
              × (step * l < sz + step)))
route_bounds step sz h k = elim (dec_lt (step * max_levels) sz) [
  | yes large ↦ inl (large, route-large step sz large)
  | no small ↦
      let le : sz ≤ step * max_levels = omega arith in
      inr (
        le,
        (
          level step sz,
          route-level step sz h k le,
          level_pos step sz h k,
          level_max step sz h le,
          omega (arith, level_bounds step sz h),
          omega (arith, level_bounds step sz h),
        ),
      )
]
