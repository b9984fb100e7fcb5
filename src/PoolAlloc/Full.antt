-- ===== src/PoolAlloc/Full.antt =====
-- `dealloc` of poolalloc.h on a cache that is full.
use coroutines_classes.Prelude.{ℕ, ◌≤◌, ◌≡◌, ◌≢◌, refl, sym, ◌∙◌, arith}
use coroutines_classes.PoolAlloc.{Cache, alloc, dealloc}

dealloc-swapped :
    (b : ℕ) (c : Cache)
    → c.max_count ≤ c.count
    → c.chain ≡ 0
    → dealloc b c ≡ record c { chain = c.dropped; dropped = b; count = 1 }
unfolding dealloc
dealloc-swapped b c le e = ground arith

alloc-link :
    (fresh b : ℕ) (c : Cache)
    → c.prepared ≡ 0
    → c.dropped ≡ b
    → b ≢ 0
    → ((alloc fresh c).0 ≡ b) × ((alloc fresh c).1.prepared ≡ c.next b)
unfolding alloc
alloc-link fresh b c p e n = ground arith

alloc-next : (fresh : ℕ) (c : Cache) → c.prepared ≢ 0 → (alloc fresh c).0 ≡ c.prepared
unfolding alloc
alloc-next fresh c n = ground arith

-- A block that is given back to a full cache while the shared one is empty starts a new chain of
-- dropped blocks, but its first word is not set: it keeps what the program has left there. Where no
-- block is prepared, the next `alloc` hands out the block, and the one after it hands out that word
-- as if it were the address of a block.
pub dealloc-keeps_word :
    (fresh fresh' b w : ℕ) (c : Cache)
    → c.max_count ≤ c.count
    → c.chain ≡ 0
    → c.prepared ≡ 0
    → b ≢ 0
    → c.next b ≡ w
    → w ≢ 0
    → ((alloc fresh (dealloc b c)).0 ≡ b) × ((alloc fresh' (alloc fresh (dealloc b c)).1).0 ≡ w)
dealloc-keeps_word fresh fresh' b w c le e p n word m =
    let after : Cache = record c { chain = c.dropped; dropped = b; count = 1 } in
    let (first, link) = alloc-link fresh b after p refl n in
    rw (dealloc-swapped b c le e) (
      first,
      alloc-next fresh' (alloc fresh after).1 (λ z. m (sym word ∙ sym link ∙ z)) ∙ link ∙ word,
    )
