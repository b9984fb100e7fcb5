-- ===== src/Publisher/Push.antt =====
-- How `publisher<T>::queue` of publisher.h takes new items and wakes its subscribers: `push`,
-- `push_lk`, `close` and `kick`.
use coroutines_classes.Prelude.{
  ℕ, List, [], ◌∷◌, ◌++◌, true, ◌==◌, ◌&&◌, not, if◌then◌else◌, length, take, min, max, add64,
  sub64,
}
use mathlib.Core.List.{reverse}
use coroutines_classes.Publisher.{Publisher, Reg}

-- The loop of `push_lk` over the registrations: what it leaves of them, whom it wakes, and how many
-- items are needed.
unfoldable pub cleared : List Reg → List Reg
cleared [] = []
cleared (x ∷ xs) = (if x.used then record x { awt = 0 } else x) ∷ cleared xs

unfoldable pub woken : List Reg → List ℕ
woken [] = []
woken (x ∷ xs) = if x.used && not (x.awt == 0) then x.awt ∷ woken xs else woken xs

unfoldable pub needed : ℕ → ℕ → List Reg → ℕ
needed pos n [] = n
needed pos n (x ∷ xs) = needed pos (if x.used then max n (sub64 pos x.pos) else n) xs

-- The loop of `kick_lk`: the first registration of the subscriber is marked.
unfoldable pub kicked_out : ℕ → List Reg → List Reg
kicked_out sub [] = []
kicked_out sub (x ∷ xs) =
    if x.used && x.sub == sub
    then record x { awt = 0; kicked = true } ∷ xs
    else x ∷ kicked_out sub xs

unfoldable pub kicked_awaiter : ℕ → List Reg → ℕ
kicked_awaiter sub [] = 0
kicked_awaiter sub (x ∷ xs) = if x.used && x.sub == sub then x.awt else kicked_awaiter sub xs

module _ {ℓ} {A : Type ℓ} where
  unfoldable pub push_lk : ℕ → Publisher A → Publisher A
  unfolding cleared woken needed
  push_lk count p =
      let pos = add64 p.pos count in
      let need = needed pos p.min_len p.regs in
      record p {
        pos = pos;
        regs = cleared p.regs;
        items = take (min need (min p.max_len (length p.items))) p.items;
        log = p.log ++ woken p.regs;
      }

  unfoldable pub push : A → Publisher A → Publisher A
  unfolding push_lk
  push v p = push_lk 1 (record p { items = v ∷ p.items })

  -- The items of a range, first come first.
  unfoldable pub push_all : List A → Publisher A → Publisher A
  unfolding push_lk
  push_all vs p =
      let d = length vs in
      let q = record p { items = reverse vs ++ p.items } in if d == 0 then q else push_lk d q

  unfoldable pub close : Publisher A → Publisher A
  unfolding push_lk
  close p = if p.closed then p else push_lk 0 (record p { closed = true })

  unfoldable pub kick : ℕ → Publisher A → Publisher A
  unfolding kicked_out kicked_awaiter
  kick sub p =
      let awt = kicked_awaiter sub p.regs in
      let q = record p { regs = kicked_out sub p.regs } in
      if awt == 0 then q else record q { log = q.log ++ awt ∷ [] }
