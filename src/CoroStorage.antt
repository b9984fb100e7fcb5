-- ===== src/CoroStorage.antt =====
-- src/coclasses/coro_storage.h: the memory for the frames of coroutines.
--
-- A block is its address. `fresh` is what the allocator returns; `operator_deleted` records the
-- calls of `operator delete` on a storage's own block, `obtained` and `returned` the calls of
-- `default_new` and `default_delete`, with their sizes. The pointer to the storage that `alloc`
-- writes behind the frame is how `dealloc` finds the storage; it counts in the size only.
pub mod Session
pub mod Sizes
mod Tests
use coroutines_classes.Prelude.{
  ℕ, ◌+◌, ◌-◌, ◌*◌, ◌/◌, List, [], ◌∷◌, ◌++◌, Bool, true, false, ◌==◌, ltb, if◌then◌else◌,
}

-- `sizeof` of a pointer
abbrev pub pointer_size : ℕ
pointer_size = 8

pub record Reusable : Type 0 where
  pub ptr : ℕ
  pub capacity : ℕ
  pub operator_deleted : List ℕ

-- `reusable_storage_mtsafe`
pub record Mtsafe : Type 0 where
  pub storage : Reusable
  pub busy : Bool
  pub obtained : List (ℕ × ℕ)
  pub returned : List (ℕ × ℕ)

unfoldable pub alloc_reusable : ℕ → ℕ → Reusable → Reusable × ℕ
alloc_reusable fresh sz s =
    let s' : Reusable =
      if ltb s.capacity sz
      then record {
        ptr = fresh;
        capacity = sz;
        operator_deleted = s.operator_deleted ++ s.ptr ∷ [];
      }
      else s in
    (s', s'.ptr)

unfoldable pub alloc_mtsafe : ℕ → ℕ → Mtsafe → Mtsafe × ℕ
unfolding alloc_reusable
alloc_mtsafe fresh sz m =
    let (s, p) = alloc_reusable fresh (sz + pointer_size) m.storage in
    if m.busy
    then (record m { obtained = m.obtained ++ (fresh, sz + pointer_size) ∷ [] }, fresh)
    else (record m { storage = s; busy = true }, p)

unfoldable pub dealloc_mtsafe : ℕ → ℕ → Mtsafe → Mtsafe
dealloc_mtsafe p sz m =
    if p == m.storage.ptr
    then record m { busy = false }
    else record m { returned = m.returned ++ (p, sz) ∷ [] }

-- `reusable_buffer_storage`: the number of items of the buffer after `alloc`.
unfoldable pub alloc_buffer : ℕ → ℕ → ℕ → ℕ
alloc_buffer item_size sz size =
    let items = (sz + item_size - 1) / item_size in if ltb size items then items else size

-- `static_storage`: the size of its buffer, and whether `alloc` obtains memory from the allocator.
abbrev pub adjusted_space : ℕ → ℕ → ℕ
adjusted_space space multiplier = space * multiplier / 100

unfoldable pub overflows : ℕ → ℕ → ℕ → Bool
overflows space multiplier sz = ltb (adjusted_space space multiplier) (sz + pointer_size)
