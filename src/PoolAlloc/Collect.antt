-- ===== src/PoolAlloc/Collect.antt =====
-- The end of a cache of poolalloc.h: `gc` and the destructor.
use coroutines_classes.Prelude.{
  ℕ, zero, suc, ◌≤◌, ◌<◌, ◌≡◌, ◌≢◌, refl, sym, ◌∙◌, ap, List, [], ◌∷◌, ◌++◌, append-nil,
  append_assoc, some, length, arith,
}
use coroutines_classes.Awaiter.Segment.{Segment}
use coroutines_classes.PoolAlloc.{Cache, gc_chain, gc, destroy, leave_chain}
use coroutines_classes.PoolAlloc.Blocks.{Chains}

abbrev freeing : List ℕ → Cache → Cache
freeing xs c = record c { freed = c.freed ++ xs }

gc_chain-Segment :
    (fuel p : ℕ) (c : Cache) (xs : List ℕ)
    → length xs < fuel
    → Segment c.next p xs 0
    → gc_chain fuel p c ≡ some (freeing xs c)
unfolding gc_chain
gc_chain-Segment zero p c xs lt s = elim lt [ ]
gc_chain-Segment (suc fuel) p c [] lt s = rw (append-nil c.freed) (ground arith)
gc_chain-Segment (suc fuel) p c (x ∷ xs) lt s =
    let rest =
      gc_chain-Segment fuel (c.next p) (freeing (p ∷ []) c) xs (omega arith) (rw s.0 s.2) in
    ground (arith, rest, append_assoc c.freed (p ∷ []) xs)

-- The cache after `gc` has given the blocks of `ps` and `ds` back.
abbrev emptied : List ℕ → List ℕ → Cache → Cache
emptied ps ds c = record c { freed = c.freed ++ (ps ++ ds); count = 0; prepared = 0; dropped = 0 }

gc-Segment :
    (fuel : ℕ) (c : Cache) (ps ds : List ℕ)
    → length ps < fuel
    → length ds < fuel
    → Segment c.next c.prepared ps 0
    → Segment c.next c.dropped ds 0
    → gc fuel c ≡ some (emptied ps ds c)
unfolding gc
gc-Segment fuel c ps ds lp ld sp sd = ground (
  arith,
  gc_chain-Segment fuel c.prepared c ps lp sp,
  gc_chain-Segment fuel c.dropped (freeing ps c) ds ld sd,
  append_assoc c.freed ps ds,
)

-- What the destructor leaves to the other threads.
abbrev Left : Cache → List ℕ → List ℕ → List ℕ → Type 0
Left c ps ds gs =
    (ps' ds' gs' : List ℕ) × Segment (leave_chain c).next (leave_chain c).prepared ps' 0
    × Segment (leave_chain c).next (leave_chain c).dropped ds' 0
    × Segment (leave_chain c).next (leave_chain c).chain gs' 0
    × ((ps' ++ ds') ++ gs' ≡ ps ++ (ds ++ gs))
    × (length ps' ≤ length ps)
    × (length ds' ≤ length ds)
    × ((leave_chain c).freed ≡ c.freed)

leave-shared : (c : Cache) → c.chain ≢ 0 → leave_chain c ≡ c
unfolding leave_chain
leave-shared c n = ground arith

leave-dropped :
    (c : Cache)
    → c.chain ≡ 0
    → c.dropped ≢ 0
    → leave_chain c ≡ record c { chain = c.dropped; dropped = 0 }
unfolding leave_chain
leave-dropped c e n = ground arith

leave-prepared :
    (c : Cache)
    → c.chain ≡ 0
    → c.dropped ≡ 0
    → c.prepared ≢ 0
    → leave_chain c ≡ record c { chain = c.prepared; prepared = 0 }
unfolding leave_chain
leave-prepared c e d n = ground arith

leave-nothing : (c : Cache) → c.dropped ≡ 0 → c.prepared ≡ 0 → leave_chain c ≡ c
unfolding leave_chain
leave-nothing c d p = ground arith

leave_chain-Left : (c : Cache) (ps ds gs : List ℕ) → Chains c ps ds gs → Left c ps ds gs
leave_chain-Left c ps ds (g ∷ gs) h = rw (leave-shared c (λ e. h.shared.1 (sym h.shared.0 ∙ e))) (
  ps,
  ds,
  g ∷ gs,
  h.prepared,
  h.dropped,
  h.shared,
  append_assoc ps ds (g ∷ gs),
  omega arith,
  omega arith,
  refl,
)
leave_chain-Left c ps (d ∷ ds) [] h =
    rw (leave-dropped c h.shared (λ e. h.dropped.1 (sym h.dropped.0 ∙ e)))
      (ps, [], d ∷ ds, h.prepared, refl, h.dropped, simp append-nil, omega arith, omega arith, refl)
leave_chain-Left c (p ∷ ps) [] [] h =
    rw (leave-prepared c h.shared h.dropped (λ e. h.prepared.1 (sym h.prepared.0 ∙ e)))
      ([], [], p ∷ ps, refl, h.dropped, h.prepared, simp append-nil, omega arith, omega arith, refl)
leave_chain-Left c [] [] [] h =
    rw (leave-nothing c h.dropped h.prepared)
      ([], [], [], h.prepared, h.dropped, h.shared, refl, omega arith, omega arith, refl)

-- The destructor of a cache gives its blocks back, each once, but for those that it leaves in the
-- shared cache, and the local lists end empty. Fuel above the lengths of the lists is enough.
pub destroy-Chains :
    (fuel : ℕ) (c : Cache) (ps ds gs : List ℕ)
    → length ps < fuel
    → length ds < fuel
    → Chains c ps ds gs
    → (c' : Cache) × (zs gs' : List ℕ) × (destroy fuel c ≡ some c')
      × (c'.freed ≡ c.freed ++ zs)
      × Segment c'.next c'.chain gs' 0
      × (zs ++ gs' ≡ ps ++ (ds ++ gs))
      × (c'.prepared ≡ 0)
      × (c'.dropped ≡ 0)
unfolding destroy
destroy-Chains fuel c ps ds gs lp ld h =
    let (ps', ds', gs', sp, sd, sg, all, np, nd, fr) = leave_chain-Left c ps ds gs h in
    (
      emptied ps' ds' (leave_chain c),
      ps' ++ ds',
      gs',
      gc-Segment fuel (leave_chain c) ps' ds' (omega arith) (omega arith) sp sd,
      ap (λ xs. xs ++ (ps' ++ ds')) fr,
      sg,
      all,
      refl,
      refl,
    )
