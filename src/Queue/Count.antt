-- ===== src/Queue/Count.antt =====
-- `std_queue<void>` of queue.h: of a queue of nothing only the size is kept.
use coroutines_classes.Prelude.{
  ℕ, ◌+◌, ◌-◌, ◌≡◌, refl, List, [], ◌∷◌, ◌++◌, Bool, length, arith, max, length-append, ◌==◌,
}

unfoldable pub emplace : ℕ → ℕ
emplace sz = sz + 1

unfoldable pub pop : ℕ → ℕ
pop sz = max 1 sz - 1

unfoldable pub empty : ℕ → Bool
empty sz = sz == 0

pub data Op : Type 0 where
  emplaces pops : Op

-- The operations on the size, and on a queue of units.
pub count : List Op → ℕ → ℕ
unfolding emplace pop
count [] sz = sz
count (emplaces ∷ os) sz = count os (emplace sz)
count (pops ∷ os) sz = count os (pop sz)

abbrev drop_front : List (Unit {0}) → List (Unit {0})
drop_front [] = []
drop_front (u ∷ us) = us

unfoldable pub items : List Op → List (Unit {0}) → List (Unit {0})
items [] us = us
items (emplaces ∷ os) us = items os (us ++ tt ∷ [])
items (pops ∷ os) us = items os (drop_front us)

pop-length : (us : List (Unit {0})) → pop (length us) ≡ length (drop_front us)
unfolding pop
pop-length [] = omega arith
pop-length (u ∷ us) = omega arith

-- After any operations the size that is kept is that of a queue of units, on which a pop of the empty
-- queue does nothing.
pub count-length :
    (os : List Op) (us : List (Unit {0})) → count os (length us) ≡ length (items os us)
unfolding count items
count-length [] us = refl
count-length (emplaces ∷ os) us =
    rw (← length-append us (tt ∷ [])) (count-length os (us ++ tt ∷ []))
count-length (pops ∷ os) us = rw (pop-length us) (count-length os (drop_front us))
