-- ===== src/PoolAlloc/Session.antt =====
-- Histories of a cache of poolalloc.h, from its start to its destructor.
use mathlib.Core.List.{Permᴰ}
use mathlib.Core.List.Permᴰ
use coroutines_classes.Prelude.{
  ◌==◌, update, if◌then◌else◌, ℕ, ◌<◌, ◌≡◌, ◌≢◌, refl, sym, ◌∙◌, ap, subst, List, [], ◌∷◌, ◌++◌,
  append_assoc, some, length, length-append, NotMem, Distinct, arith, inl, inr,
}
use coroutines_classes.Awaiter.Segment.{Segment, Segment-update}
use coroutines_classes.PoolAlloc.{Cache, alloc, dealloc, destroy}
use coroutines_classes.PoolAlloc.Blocks.{Chains, alloc-Chains, dealloc-Chains, NotMem-parts}
use coroutines_classes.PoolAlloc.Collect.{destroy-Chains}
use coroutines_classes.Scheduler.Heap.{length-Perm}

-- A cache with no free block.
abbrev pub empty_cache : ℕ → (ℕ → ℕ) → Cache
empty_cache most next = record {
  next = next;
  chain = 0;
  max_count = most;
  prepared = 0;
  dropped = 0;
  count = 0;
  freed = [];
}

-- The cache, the blocks in use, and all that `operator new` has returned.
pub record Session : Type 0 where
  pub cache : Cache
  pub used : List ℕ
  pub obtained : List ℕ

-- A block that the program has asked for.
abbrev pub allocate : ℕ → Session → Session
allocate fresh s = record {
  cache = (alloc fresh s.cache).1;
  used = (alloc fresh s.cache).0 ∷ s.used;
  obtained = if (alloc fresh s.cache).0 == fresh then fresh ∷ s.obtained else s.obtained;
}

-- `fresh` is what `operator new` returns if it is called: an address that it has not returned before.
-- A block in use, whose first word the program may have written, is given back to a cache that is
-- not full.
pub data Step : Session → Session → Type 0 where
  allocates :
      (fresh : ℕ) (s : Session) → fresh ≢ 0 → NotMem fresh s.obtained → Step s (allocate fresh s)
  writes :
      (b w : ℕ) (us vs : List ℕ) (s : Session)
      → s.used ≡ us ++ b ∷ vs
      → Step s (record s { cache = record s.cache { next = update s.cache.next b w } })
  gives_back :
      (b : ℕ) (us vs : List ℕ) (s : Session)
      → s.used ≡ us ++ b ∷ vs
      → s.cache.count < s.cache.max_count
      → Step s (record s { cache = dealloc b s.cache; used = us ++ vs })

pub data Steps : Session → Session → Type 0 where
  stay : (s : Session) → Steps s s
  go : (s t u : Session) → Step s t → Steps t u → Steps s u

abbrev pub start : ℕ → (ℕ → ℕ) → Session
start most next = record { cache = empty_cache most next; used = []; obtained = [] }

NotMem-Perm : (a : ℕ) (xs ys : List ℕ) → Permᴰ xs ys → NotMem a xs → NotMem a ys
NotMem-Perm a _ _ Permᴰ.nil h = h
NotMem-Perm a _ _ (Permᴰ.cons e p) h = ((λ f. h.0 (f ∙ sym e)), NotMem-Perm a _ _ p h.1)
NotMem-Perm a _ _ (Permᴰ.swap e f) h = ((λ g. h.1.0 (g ∙ sym f)), ((λ g. h.0 (g ∙ sym e)), h.1.1))
NotMem-Perm a _ _ (Permᴰ.trans p q) h = NotMem-Perm a _ _ q (NotMem-Perm a _ _ p h)

Distinct-Perm : (xs ys : List ℕ) → Permᴰ xs ys → Distinct xs → Distinct ys
Distinct-Perm _ _ Permᴰ.nil d = d
Distinct-Perm _ _ (Permᴰ.cons {a = a} {l₂ = l} e p) d =
    (subst (λ z. NotMem z l) e (NotMem-Perm a _ _ p d.0), Distinct-Perm _ _ p d.1)
Distinct-Perm _ _ (Permᴰ.swap {a = a} {b = b} {l = l} e f) d = (
  ((λ g. d.0.0 (e ∙ sym (f ∙ g))), subst (λ z. NotMem z l) f d.1.0),
  (subst (λ z. NotMem z l) e d.0.1, d.1.1),
)
Distinct-Perm _ _ (Permᴰ.trans p q) d = Distinct-Perm _ _ q (Distinct-Perm _ _ p d)

-- The free blocks stand in the chains, each block that was obtained is in one place, and none was given
-- back to the system.
pub record IsPartition (s : Session) : Type 0 where
  pub ps : List ℕ
  pub ds : List ℕ
  pub gs : List ℕ
  pub chains : Chains s.cache ps ds gs
  pub once : Distinct s.obtained
  pub real : NotMem 0 s.obtained
  pub kept : s.cache.freed ≡ []
  pub placed : Permᴰ s.obtained (s.used ++ (ps ++ (ds ++ gs)))

-- A block that moves from the blocks in use to the free ones.
moved :
    (b : ℕ) (us vs ps rest : List ℕ)
    → Permᴰ ((us ++ b ∷ vs) ++ (ps ++ rest)) ((us ++ vs) ++ (ps ++ b ∷ rest))
moved b us vs ps rest = Permᴰ.trans taken (Permᴰ.symm given)
  where
    taken : Permᴰ ((us ++ b ∷ vs) ++ (ps ++ rest)) (b ∷ ((us ++ vs) ++ (ps ++ rest)))
    taken =
        rw (append_assoc us (b ∷ vs) (ps ++ rest), append_assoc us vs (ps ++ rest))
          (Permᴰ.middle b us (vs ++ (ps ++ rest)))

    given : Permᴰ ((us ++ vs) ++ (ps ++ b ∷ rest)) (b ∷ ((us ++ vs) ++ (ps ++ rest)))
    given =
        rw (sym (append_assoc (us ++ vs) ps (b ∷ rest)), sym (append_assoc (us ++ vs) ps rest))
          (Permᴰ.middle b ((us ++ vs) ++ ps) rest)

-- A block in use is not the null pointer and is not free.
in_use :
    (b : ℕ) (us vs free : List ℕ) (s : Session)
    → Distinct s.obtained
    → NotMem 0 s.obtained
    → Permᴰ s.obtained ((us ++ b ∷ vs) ++ free)
    → (b ≢ 0) × NotMem b free
in_use b us vs free s d r p =
    let front =
      Permᴰ.trans p (rw (append_assoc us (b ∷ vs) free) (Permᴰ.middle b us (vs ++ free))) in
    let (nm, _) = Distinct-Perm _ (b ∷ (us ++ (vs ++ free))) front d in
    (
      (λ e. (NotMem-Perm 0 _ (b ∷ (us ++ (vs ++ free))) front r).0 (sym e)),
      (NotMem-parts b vs free (NotMem-parts b us (vs ++ free) nm).1).1,
    )

write-Chains :
    (b w : ℕ) (c : Cache) (ps ds gs : List ℕ)
    → NotMem b (ps ++ (ds ++ gs))
    → Chains c ps ds gs
    → Chains (record c { next = update c.next b w }) ps ds gs
write-Chains b w c ps ds gs nm h =
    let (np, nr) = NotMem-parts b ps (ds ++ gs) nm in
    let (nd, ng) = NotMem-parts b ds gs nr in
    record {
      prepared = Segment-update c.next b w c.prepared ps 0 np h.prepared;
      dropped = Segment-update c.next b w c.dropped ds 0 nd h.dropped;
      shared = Segment-update c.next b w c.chain gs 0 ng h.shared;
      once = h.once;
    }

obtained-new :
    (fresh : ℕ) (s : Session)
    → (alloc fresh s.cache).0 ≡ fresh
    → (allocate fresh s).obtained ≡ fresh ∷ s.obtained
obtained-new fresh s k = ground arith

obtained-old :
    (fresh x : ℕ) (s : Session)
    → (alloc fresh s.cache).0 ≡ x
    → x ≢ fresh
    → (allocate fresh s).obtained ≡ s.obtained
obtained-old fresh x s k n = ground arith

alloc-freed : (fresh : ℕ) (c : Cache) → (alloc fresh c).1.freed ≡ c.freed
unfolding alloc
alloc-freed fresh c = ground arith

allocate-IsPartition :
    (fresh : ℕ) (s : Session)
    → fresh ≢ 0
    → NotMem fresh s.obtained
    → IsPartition s
    → IsPartition (allocate fresh s)
allocate-IsPartition fresh s n nm h = elim (alloc-Chains fresh s.cache h.ps h.ds h.gs h.chains) [
  | inl (none_free, k, ch) ↦ record {
    ps = [];
    ds = [];
    gs = [];
    chains = ch;
    once = rw (obtained-new fresh s k) (nm, h.once);
    kept = alloc-freed fresh s.cache ∙ h.kept;
    real = rw (obtained-new fresh s k) ((λ e. n (sym e)), h.real);
    placed = rw (obtained-new fresh s k, k) (Permᴰ.cons refl (rw (none_free) at h.placed));
  }
  | inr (x, ps', ds', gs', k, e, ch, _) ↦
      let front = Permᴰ.trans (rw (e) at h.placed) (Permᴰ.middle x s.used (ps' ++ (ds' ++ gs'))) in
      let old = obtained-old fresh x s k (λ q. (NotMem-Perm fresh _ _ front nm).0 (sym q)) in
      record {
        ps = ps';
        ds = ds';
        gs = gs';
        chains = ch;
        once = rw (old) h.once;
        kept = alloc-freed fresh s.cache ∙ h.kept;
        real = rw (old) h.real;
        placed = rw (old, k) front;
      }
]

step-IsPartition : (s t : Session) → Step s t → IsPartition s → IsPartition t
step-IsPartition s _ (Step.allocates fresh _ n nm) h = allocate-IsPartition fresh s n nm h
step-IsPartition s _ (Step.writes b w us vs _ e) h =
    let (_, nm) = in_use b us vs (h.ps ++ (h.ds ++ h.gs)) s h.once h.real (rw (e) at h.placed) in
    record {
      ps = h.ps;
      ds = h.ds;
      gs = h.gs;
      chains = write-Chains b w s.cache h.ps h.ds h.gs nm h.chains;
      once = h.once;
      real = h.real;
      kept = h.kept;
      placed = h.placed;
    }
step-IsPartition s _ (Step.gives_back b us vs _ e lt) h =
    let placed = rw (e) at h.placed in
    let (n, nm) = in_use b us vs (h.ps ++ (h.ds ++ h.gs)) s h.once h.real placed in
    let (ds', gs', ch, all, fr) = dealloc-Chains b s.cache h.ps h.ds h.gs lt n nm h.chains in
    record {
      ps = h.ps;
      ds = ds';
      gs = gs';
      chains = ch;
      once = h.once;
      real = h.real;
      kept = fr ∙ h.kept;
      placed = rw (all) (Permᴰ.trans placed (moved b us vs h.ps (h.ds ++ h.gs)));
    }

start-IsPartition : (most : ℕ) (next : ℕ → ℕ) → IsPartition (start most next)
start-IsPartition most next = record {
  ps = [];
  ds = [];
  gs = [];
  chains = record { prepared = refl; dropped = refl; shared = refl; once = tt };
  once = tt;
  real = tt;
  kept = refl;
  placed = Permᴰ.nil;
}

Steps-kept : (s t : Session) → Steps s t → IsPartition s → IsPartition t
Steps-kept s _ (Steps.stay _) h = h
Steps-kept s u (Steps.go _ t _ st r) h = Steps-kept t u r (step-IsPartition s t st h)

-- Whatever is asked for and given back, in any order, and whatever the program writes into the
-- first words of the blocks in use, each block that `operator new` has returned is in one place: in
-- use, once, or in one of the three chains, once. So `alloc` hands out no block that is in use, and
-- no block is lost. No block is given back to a cache that is full, and no other thread uses the
-- shared chain.
pub Steps-IsPartition :
    (most : ℕ) (next : ℕ → ℕ) (s : Session) → Steps (start most next) s → IsPartition s
Steps-IsPartition most next s r = Steps-kept (start most next) s r (start-IsPartition most next)

-- The destructor, at the end of any such session: it returns, and the blocks that it gives to
-- `operator delete`, those that it leaves in the shared chain and those still in use are the blocks
-- that were obtained, each once. The local chains end empty. Fuel above the number of the blocks is
-- enough. In the session no block is given back to a full cache, and no other thread uses the shared
-- chain.
pub Steps-destroyed :
    (most : ℕ) (next : ℕ → ℕ) (s : Session)
    → Steps (start most next) s
    → (fuel : ℕ) → length s.obtained < fuel
    → (c : Cache) × (given left : List ℕ) × (destroy fuel s.cache ≡ some c)
      × (c.freed ≡ given)
      × Segment c.next c.chain left 0
      × (c.prepared ≡ 0)
      × (c.dropped ≡ 0)
      × Distinct s.obtained
      × Permᴰ s.obtained (s.used ++ (given ++ left))
Steps-destroyed most next s r fuel lt =
    let h = Steps-IsPartition most next s r in
    let (lp, ld) = short h (length-Perm h.placed) in
    let (c, zs, gs, e, fr, sg, all, p, d) =
      destroy-Chains fuel s.cache h.ps h.ds h.gs lp ld h.chains in
    (c, zs, gs, e, fr ∙ ap (λ xs. xs ++ zs) h.kept, sg, p, d, h.once, rw (all) h.placed)
  where
    short :
        (h : IsPartition s)
        → length s.obtained ≡ length (s.used ++ (h.ps ++ (h.ds ++ h.gs)))
        → (length h.ps < fuel) × (length h.ds < fuel)
    short h k =
        let all = length-append s.used (h.ps ++ (h.ds ++ h.gs)) in
        let free = length-append h.ps (h.ds ++ h.gs) in
        let tail = length-append h.ds h.gs in
        (omega (arith, k, all, free, tail, lt), omega (arith, k, all, free, tail, lt))
