-- ===== src/PoolAlloc.antt =====
-- src/coclasses/poolalloc.h: the cache of free blocks of one size, `thread_local_cache<sz>`, over the
-- cache that the threads share, `global_block_cache<sz>`.
--
-- A block is its address, and 0 is the null pointer. `next` is the first word of every block: the link
-- of a free block, and whatever the program has left there of a block in use. `chain` is the shared
-- cache. `freed` records the blocks given back to `operator delete`; what `operator new` returns is an
-- argument.
pub mod Blocks
pub mod Collect
pub mod Full
pub mod Session
pub mod Sizes
mod Tests
use coroutines_classes.Prelude.{
  ℕ, zero, suc, ◌+◌, List, [], ◌∷◌, ◌++◌, Option, none, some, Bool, true, false, ◌==◌, leb,
  if◌then◌else◌, update,
}

pub record Cache : Type 0 where
  pub next : ℕ → ℕ
  pub chain : ℕ
  pub max_count : ℕ
  pub prepared : ℕ
  pub dropped : ℕ
  pub count : ℕ
  pub freed : List ℕ

-- `global_block_cache::swap_chain_in`
swap_chain_in : ℕ → Cache → Cache × Bool
swap_chain_in mine c = if c.chain == 0 then (record c { chain = mine }, true) else (c, false)

take_prepared : ℕ → Cache → ℕ × Cache
take_prepared x c = (x, record c { prepared = c.next x })

-- The cache when `_prepared` is used up: `_dropped` takes its place, or else the shared chain.
use_dropped : ℕ → Cache → ℕ × Cache
unfolding take_prepared
use_dropped fresh c =
    if c.dropped == 0
    then (let c' = record c { dropped = 0; count = 0; chain = 0 } in
        if c.chain == 0 then (fresh, c') else take_prepared c.chain c')
    else take_prepared c.dropped (record c { dropped = 0; count = 0 })

unfoldable pub alloc : ℕ → Cache → ℕ × Cache
unfolding use_dropped
alloc fresh c = if c.prepared == 0 then use_dropped fresh c else take_prepared c.prepared c

dealloc_full : ℕ → Cache → Cache
unfolding swap_chain_in
dealloc_full b c =
    let (c', swapped) = swap_chain_in c.dropped c in
    if swapped
    then record c' { dropped = b; count = 1 }
    else record c' { freed = c'.freed ++ b ∷ [] }

dealloc_kept : ℕ → Cache → Cache
unfolding swap_chain_in
dealloc_kept b c =
    let kept = record c { count = c.count + 1; next = update c.next b c.dropped; dropped = b } in
    let (c', swapped) = swap_chain_in b kept in
    if swapped then record c' { count = 0; dropped = 0 } else c'

unfoldable pub dealloc : ℕ → Cache → Cache
unfolding dealloc_full dealloc_kept
dealloc b c = if leb c.max_count c.count then dealloc_full b c else dealloc_kept b c

-- `block::gc`: the loop that gives a chain of blocks back.
unfoldable pub gc_chain : ℕ → ℕ → Cache → Option Cache
gc_chain zero x c = none
gc_chain (suc fuel) x c =
    let rest = gc_chain fuel (c.next x) (record c { freed = c.freed ++ x ∷ [] }) in
    if x == 0 then some c else rest

unfoldable pub gc : ℕ → Cache → Option Cache
unfolding gc_chain
gc fuel c = elim (gc_chain fuel c.prepared c) [
  | none ↦ none
  | some c' ↦ elim (gc_chain fuel c'.dropped c') [
    | none ↦ none
    | some c'' ↦ some (record c'' { count = 0; prepared = 0; dropped = 0 })
  ]
]

-- The destructor: one of the chains is left to the other threads, if they have none.
leave_chain : Cache → Cache
unfolding swap_chain_in
leave_chain c =
    if c.dropped == 0
    then (if c.prepared == 0
        then c
        else (let (c', swapped) = swap_chain_in c.prepared c in
            if swapped then record c' { prepared = 0 } else c'))
    else (let (c', swapped) = swap_chain_in c.dropped c in
        if swapped then record c' { dropped = 0 } else c')

unfoldable pub destroy : ℕ → Cache → Option Cache
unfolding leave_chain gc
destroy fuel c = gc fuel (leave_chain c)
