-- ===== src/Publisher/Reading.antt =====
-- What a subscriber of publisher.h that reads all values gets from `advance`, `advance_suspend` and
-- `get_value`.
use coroutines_classes.Prelude.{
  ℕ, zero, suc, ◌+◌, ◌-◌, ◌≤◌, ◌<◌, ◌≡◌, ◌≢◌, refl, ◌∙◌, List, [], ◌∷◌, ◌++◌, some, true, false,
  ◌==◌, ◌&&◌, not, length, get_elem?, set, min, add64, sub64, word, arith, ap, get_elem?-some,
  get_elem?-set_self, lt_of_get_elem?, get_elem?-take, Bool-cases, inl, inr, sym,
}
use coroutines_classes.Publisher.{Publisher, Reg, all_values, advance, advance_suspend, get_value}
use coroutines_classes.Publisher.Push.{push, push_lk, cleared, woken, needed}
use coroutines_classes.Publisher.Stream.{Holds, needed-ge}

woken-has :
    (rs : List Reg) (h : ℕ) (l : Reg)
    → get_elem? rs h ≡ some l
    → l.used ≡ true
    → l.awt ≢ 0
    → (pre post : List ℕ) × (woken rs ≡ pre ++ l.awt ∷ post)
unfolding woken
woken-has [] h l e u n = cc
woken-has (x ∷ xs) zero l e u n = ([], woken xs, ground arith)
woken-has (x ∷ xs) (suc h) l e u n =
    let (pre, post, w) = woken-has xs h l e u n in
    elim (Bool-cases (x.used && not (x.awt == 0))) [
      | inl t ↦ (x.awt ∷ pre, post, rw t (ap (◌∷◌ x.awt) w))
      | inr f ↦ (pre, post, rw f w)
    ]

cleared-reads :
    (rs : List Reg) (h : ℕ) (l : Reg)
    → get_elem? rs h ≡ some l
    → l.used ≡ true
    → get_elem? (cleared rs) h ≡ some (record l { awt = 0 })
unfolding cleared
cleared-reads [] h l e u = cc
cleared-reads (x ∷ xs) zero l e u = ground arith
cleared-reads (x ∷ xs) (suc h) l e u = cleared-reads xs h l e u

module _ {ℓ} {A : Type ℓ} where
  abbrev pub moved : ℕ → Reg → Publisher A → Publisher A
  moved h l p = record p { regs = set p.regs h l }

  pub moved-reads :
      (h : ℕ) (l l' : Reg) (p : Publisher A)
      → get_elem? p.regs h ≡ some l
      → get_elem? (moved h l' p).regs h ≡ some l'
  moved-reads h l l' p e = get_elem?-set_self p.regs h l' (lt_of_get_elem? p.regs h l e)

  advance-moves :
      (h : ℕ) (l : Reg) (p : Publisher A)
      → get_elem? p.regs h ≡ some l
      → l.kicked ≡ false
      → p.pos < word
      → l.pos + 1 < p.pos
      → advance h all_values p ≡ some (moved h (record l { pos = l.pos + 1 }) p, true)
  unfolding advance
  advance-moves h l p e k lt b =
      let next : add64 l.pos 1 ≡ l.pos + 1 = omega arith in rw (e, k) (ground (arith, next))

  get_value-item :
      (h : ℕ) (l : Reg) (p : Publisher A) (v : A)
      → get_elem? p.regs h ≡ some l
      → l.kicked ≡ false
      → p.pos < word
      → l.pos < p.pos
      → get_elem? p.items (p.pos - l.pos - 1) ≡ some v
      → get_value h all_values p ≡ some (some v)
  unfolding get_value
  get_value-item h l p v e k lt b i =
      let at : sub64 (sub64 p.pos l.pos) 1 ≡ p.pos - l.pos - 1 = omega arith in
      rw (e, at) (ground (arith, lt_of_get_elem? p.items (p.pos - l.pos - 1) v i))

  item-numbered :
      (p : Publisher A) (hist : List A) (i : ℕ) (v : A)
      → Holds p hist
      → get_elem? p.items i ≡ some v
      → get_elem? hist i ≡ some v
  item-numbered p hist i v h e =
      sym (get_elem?-take (length p.items) i hist (lt_of_get_elem? p.items i v e))
      ∙ ap (λ xs. get_elem? xs i) (sym h.recent)
      ∙ e

  moved-Holds :
      (h : ℕ) (l : Reg) (p : Publisher A) (hist : List A) → Holds p hist → Holds (moved h l p) hist
  moved-Holds h l p hist k = record {
    numbered = k.numbered;
    small = k.small;
    recent = k.recent;
    within = k.within;
  }

  -- The next item of a subscriber whose unread items are all in the queue.
  pub advance-held :
      (h : ℕ) (l : Reg) (p : Publisher A) (hist : List A)
      → Holds p hist
      → p.pos ≤ 1 + l.pos + length p.items
      → get_elem? p.regs h ≡ some l
      → l.kicked ≡ false
      → l.pos + 1 < p.pos
      → (p' : Publisher A) × (v : A) × (advance h all_values p ≡ some (p', true))
        × (get_value h all_values p' ≡ some (some v))
        × (get_elem? hist (length hist - (l.pos + 1)) ≡ some v)
        × (get_elem? p'.regs h ≡ some (record l { pos = l.pos + 1 }))
        × Holds p' hist
        × (p'.pos ≡ p.pos)
        × (p'.items ≡ p.items)
  advance-held h l p hist ho reach e k b =
      let (v, at) = get_elem?-some p.items (p.pos - (l.pos + 1) - 1) (omega arith) in
      let l' : Reg = record l { pos = l.pos + 1 } in
      let here = moved-reads h l l' p e in
      let same : length hist - (l.pos + 1) ≡ p.pos - (l.pos + 1) - 1 = omega (arith, ho.numbered) in
      (
        moved h l' p,
        v,
        advance-moves h l p e k ho.small b,
        get_value-item h l' (moved h l' p) v here k ho.small b at,
        rw same (item-numbered p hist (p.pos - (l.pos + 1) - 1) v ho at),
        here,
        moved-Holds h l' p hist ho,
        refl,
        refl,
      )

  suspend-waits :
      (h awt : ℕ) (l : Reg) (p : Publisher A)
      → get_elem? p.regs h ≡ some l
      → l.kicked ≡ false
      → p.closed ≡ false
      → p.pos < word
      → l.pos + 1 ≡ p.pos
      → (advance h all_values p ≡ some (p, false))
        × (advance_suspend h awt p ≡ some (moved h (record l { pos = p.pos; awt = awt }) p, true))
  unfolding advance advance_suspend
  suspend-waits h awt l p e k c lt b =
      let next : add64 l.pos 1 ≡ p.pos = omega arith in
      (rw e (ground (arith, next)), rw (e, next) (ground arith))

  push-front :
      (v : A) (p : Publisher A)
      → 1 ≤ p.min_len
      → 1 ≤ p.max_len
      → get_elem? (push v p).items 0 ≡ some v
  unfolding push push_lk
  push-front v p m n =
      get_elem?-take
        (min (needed (add64 p.pos 1) p.min_len p.regs) (min p.max_len (suc (length p.items)))) 0
        (v ∷ p.items) (omega (arith, needed-ge (add64 p.pos 1) p.min_len p.regs))

  push-slot :
      (v : A) (p : Publisher A) (h : ℕ) (l : Reg)
      → p.pos + 1 < word
      → get_elem? p.regs h ≡ some l
      → l.used ≡ true
      → (get_elem? (push v p).regs h ≡ some (record l { awt = 0 })) × ((push v p).pos ≡ p.pos + 1)
  unfolding push push_lk
  push-slot v p h l lt e u = (cleared-reads p.regs h l e u, omega arith)

  push-log : (v : A) (p : Publisher A) → (push v p).log ≡ p.log ++ woken p.regs
  unfolding push push_lk
  push-log v p = refl

  -- A subscriber that has read everything of an open queue is suspended by `advance_suspend` after
  -- `advance` has failed; the next push wakes its awaiter, and `get_value` then gives it the item
  -- pushed.
  pub suspend-push :
      (h awt : ℕ) (l : Reg) (p : Publisher A) (v : A)
      → get_elem? p.regs h ≡ some l
      → l.used ≡ true
      → l.kicked ≡ false
      → p.closed ≡ false
      → p.pos + 1 < word
      → l.pos + 1 ≡ p.pos
      → awt ≢ 0
      → 1 ≤ p.min_len
      → 1 ≤ p.max_len
      → (p' : Publisher A) × (pre post : List ℕ) × (advance h all_values p ≡ some (p, false))
        × (advance_suspend h awt p ≡ some (p', true))
        × ((push v p').log ≡ p'.log ++ (pre ++ awt ∷ post))
        × (get_value h all_values (push v p') ≡ some (some v))
  suspend-push h awt l p v e u k c lt b n m mm =
      let l' : Reg = record l { pos = p.pos; awt = awt } in
      let p' = moved h l' p in
      let (no_item, waits) = suspend-waits h awt l p e k c (omega arith) b in
      let here = moved-reads h l l' p e in
      let (pre, post, w) = woken-has p'.regs h l' here u n in
      let (slot, pos) = push-slot v p' h l' lt here u in
      let first : (push v p').pos - p.pos - 1 ≡ 0 = omega arith in
      (
        p',
        pre,
        post,
        no_item,
        waits,
        push-log v p' ∙ ap (λ ws. p'.log ++ ws) w,
        get_value-item h (record l' { awt = 0 }) (push v p') v slot k (omega arith) (omega arith)
            (rw first (push-front v p' m mm)),
      )
