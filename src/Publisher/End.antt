-- ===== src/Publisher/End.antt =====
-- The end of the stream of publisher.h: what a subscriber reads after `close`.
use coroutines_classes.Prelude.{
  ℕ, ◌+◌, ◌-◌, ◌<◌, ◌≤◌, ◌≡◌, ◌≢◌, refl, [], none, some, true, false, length, get_elem?, arith,
  sub64, word, lt_of_get_elem?,
}
use coroutines_classes.Publisher.{
  Publisher, Reg, Mode, all_values, skip_if_behind, skip_to_recent, advance, advanced, get_value,
}
use coroutines_classes.Publisher.Reading.{moved, moved-reads}

module _ {ℓ} {A : Type ℓ} (h : ℕ) (l : Reg) (p : Publisher A) where
  advance-closed :
      (t : Mode)
      → get_elem? p.regs h ≡ some l
      → l.kicked ≡ false
      → p.closed ≡ true
      → advance h t p ≡ some (moved h (record l { pos = advanced t l.pos p }) p, true)
  unfolding advance advanced
  advance-closed t e k c = rw (e, k) (ground arith)

  advanced-last :
      (t : Mode)
      → p.pos < word
      → l.pos + 1 ≡ p.pos
      → length p.items ≤ p.pos
      → advanced t l.pos p ≡ p.pos
  unfolding advanced
  advanced-last all_values lt e n = omega arith
  advanced-last skip_if_behind lt e n = omega arith
  advanced-last skip_to_recent lt e n = omega arith

  advanced-past :
      (t : Mode)
      → p.pos + 1 < word
      → 0 < p.pos
      → l.pos ≡ p.pos
      → length p.items ≤ p.pos
      → advanced t l.pos p ≡ p.pos + 1
  unfolding advanced
  advanced-past all_values lt z e n = omega arith
  advanced-past skip_if_behind lt z e n = omega arith
  advanced-past skip_to_recent lt z e n = omega arith

  read-at_end :
      (t : Mode) → get_elem? p.regs h ≡ some l → l.pos ≡ p.pos → get_value h t p ≡ some none
  unfolding get_value
  read-at_end t e b = rw e (ground arith)

  read-past_all :
      get_elem? p.regs h ≡ some l
      → p.pos + 1 < word
      → l.pos ≡ p.pos + 1
      → length p.items ≤ p.pos
      → get_value h all_values p ≡ some none
  unfolding get_value
  read-past_all e lt b n =
      let at : sub64 (sub64 p.pos l.pos) 1 ≡ word - 2 = omega arith in rw (e, at) (ground arith)

  read-past_behind :
      (v : A)
      → get_elem? p.regs h ≡ some l
      → l.kicked ≡ false
      → p.pos + 1 < word
      → l.pos ≡ p.pos + 1
      → length p.items ≤ p.pos
      → get_elem? p.items (length p.items - 1) ≡ some v
      → get_value h skip_if_behind p ≡ some (some v)
  unfolding get_value
  read-past_behind v e k lt b n i =
      let at : sub64 (sub64 p.pos l.pos) 1 ≡ word - 2 = omega arith in
      let last : sub64 (length p.items) 1 ≡ length p.items - 1 =
        omega (arith, lt_of_get_elem? p.items (length p.items - 1) v i) in
      rw (e, at) (ground (arith, last))

module _ {ℓ} {A : Type ℓ} where
  -- A subscriber that has read everything of a closed queue goes on at once, whatever its mode, and
  -- then reads that there is no item.
  pub closed-ends :
      (h : ℕ) (l : Reg) (p : Publisher A) (t : Mode)
      → get_elem? p.regs h ≡ some l
      → l.kicked ≡ false
      → p.closed ≡ true
      → p.pos < word
      → l.pos + 1 ≡ p.pos
      → length p.items ≤ p.pos
      → (p' : Publisher A) × (advance h t p ≡ some (p', true))
        × (get_value h t p' ≡ some none)
        × (get_elem? p'.regs h ≡ some (record l { pos = p.pos }))
  closed-ends h l p t e k c lt b n =
      let l' : Reg = record l { pos = p.pos } in
      let here = moved-reads h l l' p e in
      (
        moved h l' p,
        rw (advanced-last h l p t lt b n) at (advance-closed h l p t e k c),
        read-at_end h l' (moved h l' p) t here refl,
        here,
      )

  -- The end of the stream does not last: where a subscriber that has been told that there is no item
  -- asks a closed queue again, one that reads all values is told so again, but one that skips what it
  -- has missed gets an item that was published before, the oldest one still held.
  pub closed-starts_over :
      (h : ℕ) (l : Reg) (p : Publisher A) (v : A)
      → get_elem? p.regs h ≡ some l
      → l.kicked ≡ false
      → p.closed ≡ true
      → p.pos + 1 < word
      → l.pos ≡ p.pos
      → length p.items ≤ p.pos
      → get_elem? p.items (length p.items - 1) ≡ some v
      → (p' : Publisher A) × (advance h all_values p ≡ some (p', true))
        × (get_value h all_values p' ≡ some none)
        × (advance h skip_if_behind p ≡ some (p', true))
        × (get_value h skip_if_behind p' ≡ some (some v))
  closed-starts_over h l p v e k c lt b n i =
      let pos : 0 < p.pos = omega (arith, lt_of_get_elem? p.items (length p.items - 1) v i) in
      let l' : Reg = record l { pos = p.pos + 1 } in
      let p' = moved h l' p in
      let here = moved-reads h l l' p e in
      (
        p',
        rw (advanced-past h l p all_values lt pos b n) at (advance-closed h l p all_values e k c),
        read-past_all h l' p' here lt refl n,
        rw (advanced-past h l p skip_if_behind lt pos b n) at
            (advance-closed h l p skip_if_behind e k c),
        read-past_behind h l' p' v here k lt refl n i,
      )

  -- On an empty queue a subscriber that was not kicked and whose position is not that of the queue
  -- reads out of its bounds, in either of the modes that skip.
  pub closed-out_of_bounds :
      (h : ℕ) (l : Reg) (p : Publisher A)
      → get_elem? p.regs h ≡ some l
      → l.kicked ≡ false
      → l.pos ≢ p.pos
      → p.items ≡ []
      → (get_value h skip_to_recent p ≡ none) × (get_value h skip_if_behind p ≡ none)
  unfolding get_value
  closed-out_of_bounds h l p e k n i = (rw (e, i) (ground arith), rw (e, i) (ground arith))
