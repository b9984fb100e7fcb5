-- ===== src/Publisher/Session.antt =====
-- A subscriber of publisher.h that reads several times.
use coroutines_classes.Prelude.{
  ℕ, zero, suc, ◌+◌, ◌-◌, ◌<◌, ◌≤◌, ◌≡◌, refl, List, [], ◌∷◌, Option, none, some, true, false,
  length, get_elem?, arith, sym, ap,
}
use coroutines_classes.Publisher.{Publisher, Reg, all_values, advance, get_value, next_ready}
use coroutines_classes.Publisher.Stream.{Holds}
use coroutines_classes.Publisher.Reading.{advance-held}

module _ {ℓ} {A : Type ℓ} where
  -- The values of `k` calls of `next_ready`, as far as they succeed.
  unfoldable pub read_times : ℕ → ℕ → Publisher A → Option (Publisher A × List A)
  read_times zero h p = some (p, [])
  read_times (suc k) h p = elim (next_ready h all_values p) [
    | none ↦ none
    | some (p', none) ↦ some (p', [])
    | some (p', some v) ↦ elim (read_times k h p') [ none ↦ none | some (q, vs) ↦ some (q, v ∷ vs) ]
  ]

  next_ready-item :
      (h : ℕ) (p p' : Publisher A) (v : A)
      → advance h all_values p ≡ some (p', true)
      → get_value h all_values p' ≡ some (some v)
      → next_ready h all_values p ≡ some (p', some v)
  unfolding next_ready
  next_ready-item h p p' v a g = ground arith

  read_times-cons :
      (k h : ℕ) (p p1 p2 : Publisher A) (v : A) (vs : List A)
      → next_ready h all_values p ≡ some (p1, some v)
      → read_times k h p1 ≡ some (p2, vs)
      → read_times (suc k) h p ≡ some (p2, v ∷ vs)
  unfolding read_times
  read_times-cons k h p p1 p2 v vs n r = ground arith

  order-cons :
      (v : A) (vs hist : List A) (n k : ℕ)
      → get_elem? hist (length hist - (n + 1)) ≡ some v
      → ((i : ℕ) → i < k → get_elem? vs i ≡ get_elem? hist (length hist - (n + 1 + 1 + i)))
      → (i : ℕ) → i < suc k
      → get_elem? (v ∷ vs) i ≡ get_elem? hist (length hist - (n + 1 + i))
  order-cons v vs hist n k e order zero lt =
      let same : n + 1 + 0 ≡ n + 1 = omega arith in rw same (sym e)
  order-cons v vs hist n k e order (suc i) lt =
      let same : n + 1 + suc i ≡ n + 1 + 1 + i = omega arith in rw same (order i (omega arith))

  -- A subscriber that reads all values, was not kicked, was not left behind (all the items that it has
  -- still to read are in the queue, from which `max_queue_len` may have removed some), and is behind
  -- by at least `k` items gets the next `k` items in the order in which they were published, from
  -- number `l.pos + 1` on: none is skipped or repeated. `hist` has all items that were published, the
  -- last one first, and the queue holds its beginning.
  pub read_times-items :
      (k h : ℕ) (l : Reg) (p : Publisher A) (hist : List A)
      → Holds p hist
      → p.pos ≤ 1 + l.pos + length p.items
      → get_elem? p.regs h ≡ some l
      → l.kicked ≡ false
      → l.pos + k < p.pos
      → (p' : Publisher A) × (vs : List A) × (read_times k h p ≡ some (p', vs))
        × (length vs ≡ k)
        × ((i : ℕ) → i < k → get_elem? vs i ≡ get_elem? hist (length hist - (l.pos + 1 + i)))
  unfolding read_times
  read_times-items zero h l p hist ho reach e kk b =
      (p, [], refl, refl, λ i lt. absurd (omega arith))
  read_times-items (suc k) h l p hist ho reach e kk b =
      let (p1, v, adv, got, item, here, ho1, pos1, items1) =
        advance-held h l p hist ho reach e kk (omega arith) in
      let (p2, vs, run, len, order) =
        read_times-items k h (record l { pos = l.pos + 1 }) p1 hist ho1
          (omega (arith, reach, pos1, ap length items1)) here kk (omega (arith, pos1, b)) in
      (
        p2,
        v ∷ vs,
        read_times-cons k h p p1 p2 v vs (next_ready-item h p p1 v adv got) run,
        ap suc len,
        order-cons v vs hist l.pos k item order,
      )
