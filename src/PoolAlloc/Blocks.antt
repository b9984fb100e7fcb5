-- ===== src/PoolAlloc/Blocks.antt =====
-- The free blocks of a cache of poolalloc.h.
use coroutines_classes.Prelude.{
  ℕ, ◌+◌, ◌<◌, ◌≡◌, ◌≢◌, refl, sym, ◌∙◌, List, [], ◌∷◌, ◌++◌, append-nil, NotMem, Distinct, arith,
  update, inl, inr, ◌⊎◌,
}
use coroutines_classes.Awaiter.Segment.{Segment, Segment-update}
use coroutines_classes.PoolAlloc.{Cache, alloc, dealloc}

-- The three chains of a cache stand for three lists of blocks, and no block is in two places.
pub record Chains (c : Cache) (ps ds gs : List ℕ) : Type 0 where
  pub prepared : Segment c.next c.prepared ps 0
  pub dropped : Segment c.next c.dropped ds 0
  pub shared : Segment c.next c.chain gs 0
  pub once : Distinct (ps ++ (ds ++ gs))

alloc-prepared :
    (fresh x : ℕ) (c : Cache)
    → c.prepared ≡ x
    → x ≢ 0
    → alloc fresh c ≡ (x, record c { prepared = c.next x })
unfolding alloc
alloc-prepared fresh x c e n = ground arith

alloc-dropped :
    (fresh x : ℕ) (c : Cache)
    → c.prepared ≡ 0
    → c.dropped ≡ x
    → x ≢ 0
    → alloc fresh c ≡ (x, record c { prepared = c.next x; dropped = 0; count = 0 })
unfolding alloc
alloc-dropped fresh x c p e n = ground arith

alloc-shared :
    (fresh x : ℕ) (c : Cache)
    → c.prepared ≡ 0
    → c.dropped ≡ 0
    → c.chain ≡ x
    → x ≢ 0
    → alloc fresh c ≡ (x, record c { prepared = c.next x; dropped = 0; count = 0; chain = 0 })
unfolding alloc
alloc-shared fresh x c p d e n = ground arith

alloc-fresh :
    (fresh : ℕ) (c : Cache)
    → c.prepared ≡ 0
    → c.dropped ≡ 0
    → c.chain ≡ 0
    → alloc fresh c ≡ (fresh, record c { dropped = 0; count = 0; chain = 0 })
unfolding alloc
alloc-fresh fresh c p d e = ground arith

-- From a cache with free blocks `alloc` hands one of them out and keeps all the others; from one with
-- none it hands out the block of the system, and the cache stays empty.
pub alloc-Chains :
    (fresh : ℕ) (c : Cache) (ps ds gs : List ℕ)
    → Chains c ps ds gs
    → ((ps ++ (ds ++ gs) ≡ []) × ((alloc fresh c).0 ≡ fresh) × Chains (alloc fresh c).1 [] [] [])
      ⊎ ((x : ℕ) × (ps' ds' gs' : List ℕ) × ((alloc fresh c).0 ≡ x)
          × (ps ++ (ds ++ gs) ≡ x ∷ (ps' ++ (ds' ++ gs')))
          × Chains (alloc fresh c).1 ps' ds' gs'
          × (x ≢ 0))
alloc-Chains fresh c (x ∷ ps) ds gs h = rw (alloc-prepared fresh x c h.prepared.0 h.prepared.1) (
    inr (
      x,
      ps,
      ds,
      gs,
      refl,
      refl,
      record { prepared = h.prepared.2; dropped = h.dropped; shared = h.shared; once = h.once.1 },
      h.prepared.1,
    ))
alloc-Chains fresh c [] (x ∷ ds) gs h =
    rw (alloc-dropped fresh x c h.prepared h.dropped.0 h.dropped.1) (
      inr (
        x,
        ds,
        [],
        gs,
        refl,
        refl,
        record { prepared = h.dropped.2; dropped = refl; shared = h.shared; once = h.once.1 },
        h.dropped.1,
      ))
alloc-Chains fresh c [] [] (x ∷ gs) h =
    rw (alloc-shared fresh x c h.prepared h.dropped h.shared.0 h.shared.1) (
      inr (
        x,
        gs,
        [],
        [],
        refl,
        rw (append-nil gs),
        record {
          prepared = h.shared.2;
          dropped = refl;
          shared = refl;
          once = rw (append-nil gs) h.once.1;
        },
        h.shared.1,
      ))
alloc-Chains fresh c [] [] [] h =
    rw (alloc-fresh fresh c h.prepared h.dropped h.shared)
      (inl (refl, refl, record { prepared = h.prepared; dropped = refl; shared = refl; once = tt }))

-- The cache with `b` in front of the dropped blocks.
abbrev with_dropped : ℕ → Cache → Cache
with_dropped b c = record c { count = c.count + 1; next = update c.next b c.dropped; dropped = b }

dealloc-own :
    (b : ℕ) (c : Cache) → c.count < c.max_count → c.chain ≢ 0 → dealloc b c ≡ with_dropped b c
unfolding dealloc
dealloc-own b c lt n = ground arith

dealloc-shared :
    (b : ℕ) (c : Cache)
    → c.count < c.max_count
    → c.chain ≡ 0
    → dealloc b c ≡ record (with_dropped b c) { chain = b; count = 0; dropped = 0 }
unfolding dealloc
dealloc-shared b c lt e = ground arith

pub NotMem-parts : (b : ℕ) (xs ys : List ℕ) → NotMem b (xs ++ ys) → NotMem b xs × NotMem b ys
NotMem-parts b [] ys n = (tt, n)
NotMem-parts b (x ∷ xs) ys n = let (k, l) = NotMem-parts b xs ys n.1 in ((n.0, k), l)

Distinct-insert :
    (b : ℕ) (xs ys : List ℕ) → NotMem b (xs ++ ys) → Distinct (xs ++ ys) → Distinct (xs ++ b ∷ ys)
Distinct-insert b [] ys n d = (n, d)
Distinct-insert b (x ∷ xs) ys n d =
    (NotMem-insert x b xs ys (λ e. n.0 (sym e)) d.0, Distinct-insert b xs ys n.1 d.1)
  where
    NotMem-insert :
        (a c : ℕ) (us vs : List ℕ) → a ≢ c → NotMem a (us ++ vs) → NotMem a (us ++ c ∷ vs)
    NotMem-insert a c [] vs n k = (n, k)
    NotMem-insert a c (u ∷ us) vs n k = (k.0, NotMem-insert a c us vs n k.1)

-- A link that leads into a block that is not in the chain changes nothing of the chain.
update-head :
    (next : ℕ → ℕ) (b p : ℕ) (ds : List ℕ)
    → b ≢ 0
    → NotMem b ds
    → Segment next p ds 0
    → Segment (update next b p) b (b ∷ ds) 0
update-head next b p ds n k s =
    (refl, n, rw (update-self next b p) (Segment-update next b p p ds 0 k s))
  where
    update-self : (f : ℕ → ℕ) (q v : ℕ) → update f q v q ≡ v
    update-self f q v = ground arith

-- A block that is given back to a cache that is not full is free again, once, and so are all that were
-- free before.
pub dealloc-Chains :
    (b : ℕ) (c : Cache) (ps ds gs : List ℕ)
    → c.count < c.max_count
    → b ≢ 0
    → NotMem b (ps ++ (ds ++ gs))
    → Chains c ps ds gs
    → (ds' gs' : List ℕ) × Chains (dealloc b c) ps ds' gs'
      × (ps ++ (ds' ++ gs') ≡ ps ++ b ∷ (ds ++ gs))
      × ((dealloc b c).freed ≡ c.freed)
dealloc-Chains b c ps ds (g ∷ gs) lt n nm h =
    let (np, nr) = NotMem-parts b ps (ds ++ g ∷ gs) nm in
    let (nd, ng) = NotMem-parts b ds (g ∷ gs) nr in
    rw (dealloc-own b c lt (λ e. h.shared.1 (sym h.shared.0 ∙ e))) (
      b ∷ ds,
      g ∷ gs,
      record {
        prepared = Segment-update c.next b c.dropped c.prepared ps 0 np h.prepared;
        dropped = update-head c.next b c.dropped ds n nd h.dropped;
        shared = Segment-update c.next b c.dropped c.chain (g ∷ gs) 0 ng h.shared;
        once = Distinct-insert b ps (ds ++ g ∷ gs) nm h.once;
      },
      refl,
      refl,
    )
dealloc-Chains b c ps ds [] lt n nm h =
    let (np, nr) = NotMem-parts b ps (ds ++ []) nm in
    let (nd, ng) = NotMem-parts b ds [] nr in
    rw (dealloc-shared b c lt h.shared) (
      [],
      b ∷ ds,
      record {
        prepared = Segment-update c.next b c.dropped c.prepared ps 0 np h.prepared;
        dropped = refl;
        shared = update-head c.next b c.dropped ds n nd h.dropped;
        once = rw (append-nil ds) at (Distinct-insert b ps (ds ++ []) nm h.once);
      },
      rw (append-nil ds),
      refl,
    )
