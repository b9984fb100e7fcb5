-- ===== src/Scheduler/Expiry.antt =====
-- `schedule` and `get_expired` of scheduler.h.
use mathlib.Core.List.{Permᴰ}
use mathlib.Core.List.Permᴰ
use native.Mathlib.Decide.{ℕ_discrete, dec_le}
use coroutines_classes.Prelude.{
  ℕ, zero, suc, ◌+◌, ◌≤◌, ◌<◌, ◌≡◌, ◌≢◌, refl, ◌⊎◌, List, [], ◌∷◌, ◌++◌, arith, All, length, some,
  ◌∙◌, if◌then◌else◌, inl, inr,
}
use coroutines_classes.Scheduler.{
  Item, Scheduler, Expired, promise, until, forever, pop_item, moved_away, expire, get_expired,
  schedule, is_first,
}
use coroutines_classes.Scheduler.Heap.{HeapLaws, times, drop_last-append, length-Perm, All-Perm}

abbrev pub IsDead : Item → Type 0
IsDead x = x.p ≡ 0

-- What a result of `get_expired` says of the items before and after. In each case the items that are
-- gone had no promise any more.
abbrev pub Expires : ℕ → List Item → List Item → Expired → Type 0
Expires now before after (promise p) =
    (dead : List Item) × (x : Item) × All IsDead dead
    × (x.p ≡ p)
    × (p ≢ 0)
    × (x.tp ≤ now)
    × All (λ y. x.tp ≤ y.tp) after
    × Permᴰ before (dead ++ x ∷ after)
Expires now before after (until t) =
    (dead : List Item) × (x : Item) × (xs : List Item) × All IsDead dead
    × (after ≡ x ∷ xs)
    × (x.p ≢ 0)
    × (x.tp ≡ t)
    × (now < t)
    × All (λ y. t ≤ y.tp) xs
    × Permᴰ before (dead ++ after)
Expires now before after forever = All IsDead before × (after ≡ [])

module _ (IsHeap : List ℕ → Type 0) (push_heap pop_heap : List Item → List Item)
    (laws : HeapLaws IsHeap push_heap pop_heap) where
  -- The front item leaves, and a heap of the others is left.
  pub pop_item-Perm :
      (x : Item) (xs : List Item)
      → IsHeap (times (x ∷ xs))
      → IsHeap (times (pop_item push_heap pop_heap (moved_away x ∷ xs)))
        × Permᴰ (pop_item push_heap pop_heap (moved_away x ∷ xs)) xs
  unfolding pop_item
  pop_item-Perm x xs h =
      let (ys, e, h', p) = laws.pops (moved_away x) xs h in
      rw (e, drop_last-append ys (moved_away x)) (h', p)

  Expires-dead :
      (now : ℕ) (x : Item) (xs popped after : List Item) (r : Expired)
      → IsDead x
      → Permᴰ popped xs
      → Expires now popped after r
      → Expires now (x ∷ xs) after r
  Expires-dead now x xs popped after (promise p) d perm (dead, y, ds, e, n, le, all, q) =
      (x ∷ dead, y, (d, ds), e, n, le, all, Permᴰ.cons refl (Permᴰ.trans (Permᴰ.symm perm) q))
  Expires-dead now x xs popped after (until t) d perm (dead, y, ys, ds, e, n, f, lt, all, q) = (
    x ∷ dead,
    y,
    ys,
    (d, ds),
    e,
    n,
    f,
    lt,
    all,
    Permᴰ.cons refl (Permᴰ.trans (Permᴰ.symm perm) q),
  )
  Expires-dead now x xs popped after forever d perm (ds, e) = ((d, All-Perm IsDead perm ds), e)

  expire-nil : (fuel now : ℕ) → expire push_heap pop_heap (suc fuel) now [] ≡ some ([], forever)
  unfolding expire
  expire-nil fuel now = refl

  expire-dead :
      (fuel now : ℕ) (x : Item) (xs : List Item)
      → IsDead x
      → expire push_heap pop_heap (suc fuel) now (x ∷ xs)
        ≡ expire push_heap pop_heap fuel now (pop_item push_heap pop_heap (moved_away x ∷ xs))
  unfolding expire
  expire-dead fuel now x xs d = ground arith

  expire-due :
      (fuel now : ℕ) (x : Item) (xs : List Item)
      → x.p ≢ 0
      → x.tp ≤ now
      → expire push_heap pop_heap (suc fuel) now (x ∷ xs)
        ≡ some (pop_item push_heap pop_heap (moved_away x ∷ xs), promise x.p)
  unfolding expire
  expire-due fuel now x xs n le = ground arith

  expire-later :
      (fuel now : ℕ) (x : Item) (xs : List Item)
      → x.p ≢ 0
      → now < x.tp
      → expire push_heap pop_heap (suc fuel) now (x ∷ xs) ≡ some (x ∷ xs, until x.tp)
  unfolding expire
  expire-later fuel now x xs n lt = ground arith

  expire-Expires :
      (fuel now : ℕ) (items : List Item)
      → length items < fuel
      → IsHeap (times items)
      → (after : List Item) × (r : Expired) × (expire push_heap pop_heap fuel now items
          ≡ some (after, r))
        × IsHeap (times after)
        × Expires now items after r
  expire-Expires zero now items lt h = elim lt [ ]
  expire-Expires (suc fuel) now [] lt h = ([], forever, expire-nil fuel now, h, (tt, refl))
  expire-Expires (suc fuel) now (x ∷ xs) lt h =
      let (h', perm) = pop_item-Perm x xs h in
      let popped = pop_item push_heap pop_heap (moved_away x ∷ xs) in
      elim (ℕ_discrete x.p 0) [
        | yes d ↦
            let (after, r, run, h'', ex) =
              expire-Expires fuel now popped (omega (arith, length-Perm perm)) h' in
            (
              after,
              r,
              expire-dead fuel now x xs d ∙ run,
              h'',
              Expires-dead now x xs popped after r d perm ex,
            )
        | no n ↦ elim (dec_le x.tp now) [
          | yes le ↦ (
            popped,
            promise x.p,
            expire-due fuel now x xs n le,
            h',
            (
              [],
              x,
              tt,
              refl,
              n,
              le,
              All-Perm (λ y. x.tp ≤ y.tp) (Permᴰ.symm perm) (laws.least x xs h),
              Permᴰ.cons refl (Permᴰ.symm perm),
            ),
          )
          | no lt' ↦ (
            x ∷ xs,
            until x.tp,
            expire-later fuel now x xs n (omega arith),
            h,
            ([], x, xs, tt, refl, n, refl, omega arith, laws.least x xs h, Permᴰ.refl (x ∷ xs)),
          )
        ]
      ]

  -- `get_expired` finds, with fuel above the number of the items, in a heap of them: a promise that
  -- is due, of an item before which no item left expires; or the time of the first item that has a
  -- promise, none of which is due; or that there is no promise. The items that are gone had no
  -- promise any more, but for the one returned; all others are kept, as a heap.
  pub get_expired-Expires :
      (fuel now : ℕ) (s : Scheduler)
      → length s.scheduled < fuel
      → IsHeap (times s.scheduled)
      → (s' : Scheduler) × (r : Expired) × (get_expired push_heap pop_heap fuel now s
          ≡ some (s', r))
        × IsHeap (times s'.scheduled)
        × Expires now s.scheduled s'.scheduled r
  unfolding get_expired
  get_expired-Expires fuel now s lt h =
      let (after, r, run, h', ex) = expire-Expires fuel now s.scheduled lt h in
      (record s { scheduled = after }, r, ground (arith, run), h', ex)

  All-later : (a b : ℕ) (xs : List Item) → a < b → All (λ y. b ≤ y.tp) xs → All (λ y. a < y.tp) xs
  All-later a b [] lt h = tt
  All-later a b (x ∷ xs) lt h = (omega (arith, h.0), All-later a b xs lt h.1)

  is_first-cases :
      (tp n : ℕ) (items : List Item)
      → IsHeap (times items)
      → (All (λ y. tp < y.tp) items × ((if is_first tp items then n + 1 else n) ≡ n + 1))
        ⊎ ((x : Item) × (xs : List Item) × (items ≡ x ∷ xs)
            × (x.tp ≤ tp)
            × ((if is_first tp items then n + 1 else n) ≡ n))
  is_first-cases tp n [] h = inl (tt, refl)
  is_first-cases tp n (x ∷ xs) h = elim (dec_le x.tp tp) [
    | yes le ↦ inr (x, xs, refl, le, ground arith)
    | no lt ↦
        inl ((omega arith, All-later tp x.tp xs (omega arith) (laws.least x xs h)), ground arith)
  ]

  -- A scheduled promise is added to the heap, and the worker is woken exactly if it expires before all
  -- the others: otherwise the first item expires no later.
  pub schedule-Perm :
      (id p tp : ℕ) (s : Scheduler)
      → IsHeap (times s.scheduled)
      → IsHeap (times (schedule push_heap pop_heap id p tp s).scheduled)
        × Permᴰ
            (schedule push_heap pop_heap id p tp s).scheduled
            (s.scheduled ++ record { tp = tp; p = p; ident = id } ∷ [])
        × ((All (λ y. tp < y.tp) s.scheduled
              × ((schedule push_heap pop_heap id p tp s).notified ≡ s.notified + 1))
            ⊎ ((x : Item) × (xs : List Item) × (s.scheduled ≡ x ∷ xs)
                × (x.tp ≤ tp)
                × ((schedule push_heap pop_heap id p tp s).notified ≡ s.notified)))
  unfolding schedule
  schedule-Perm id p tp s h =
      let (h', perm) = laws.pushes s.scheduled (record { tp = tp; p = p; ident = id }) h in
      (h', perm, is_first-cases tp s.notified s.scheduled h)
