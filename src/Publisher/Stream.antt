-- ===== src/Publisher/Stream.antt =====
-- The stream of publisher.h: which items a subscriber that reads all values gets.
use coroutines_classes.Prelude.{
  ℕ, suc, ◌+◌, ◌≤◌, ◌<◌, ◌≡◌, ◌∙◌, List, [], ◌∷◌, true, if◌then◌else◌, length, take, min, max,
  add64, sub64, word, arith, All, ap, length-take, take-take,
}
use coroutines_classes.Publisher.{Publisher, Reg}
use coroutines_classes.Publisher.Push.{push, push_lk, cleared, needed}

-- A registration at `pos` finds all later items in a queue of `n` of them.
abbrev pub Reaches : ℕ → ℕ → Reg → Type 0
Reaches pos n r = r.used ≡ true → (pos ≤ 1 + r.pos + n)

-- It is at most `n` items behind.
abbrev pub Lags : ℕ → ℕ → Reg → Type 0
Lags pos n r = r.used ≡ true → (pos ≤ r.pos + n)

pub needed-ge : (pos n : ℕ) (rs : List Reg) → n ≤ needed pos n rs
unfolding needed
needed-ge pos n [] = omega arith
needed-ge pos n (x ∷ xs) =
    ground (arith, needed-ge pos (max n (sub64 pos x.pos)) xs, needed-ge pos n xs)

needed-Lags : (pos n k : ℕ) (rs : List Reg) → pos < word → needed pos n rs ≤ k → All (Lags pos k) rs
unfolding needed
needed-Lags pos n k [] lt h = tt
needed-Lags pos n k (x ∷ xs) lt h = (
  λ u. ground (arith, needed-ge pos (max n (sub64 pos x.pos)) xs),
  needed-Lags pos (if x.used then max n (sub64 pos x.pos) else n) k xs lt h,
)

-- What is kept of the queue, `n'`, is enough for those who are not too slow.
cleared-Reaches :
    (pos n n' need most : ℕ) (rs : List Reg)
    → min need (min most (suc n)) ≤ n'
    → All (Lags (pos + 1) need) rs
    → All (Lags pos most) rs
    → All (Reaches pos n) rs
    → All (Reaches (pos + 1) n') (cleared rs)
unfolding cleared
cleared-Reaches pos n n' need most [] e a b c = tt
cleared-Reaches pos n n' need most (x ∷ xs) e a b c =
    (λ u. ground (arith, a.0, b.0, c.0), cleared-Reaches pos n n' need most xs e a.1 b.1 c.1)

module _ {ℓ} {A : Type ℓ} where
  -- The queue holds the newest items of `hist`, which are all the items published, newest first; item
  -- number n, from 1 on, stands at `length hist - n`.
  pub record Holds (p : Publisher A) (hist : List A) : Type ℓ where
    pub numbered : p.pos ≡ length hist + 1
    pub small : p.pos < word
    pub recent : p.items ≡ take (length p.items) hist
    pub within : length p.items ≤ length hist

  take-recent :
      (m : ℕ) (xs hs : List A)
      → xs ≡ take (length xs) hs
      → m ≤ length xs
      → take m xs ≡ take (length (take m xs)) hs
  take-recent m xs hs e le =
      let n : length (take m xs) ≡ m = omega (arith, length-take m xs) in
      rw n (ap (take m) e ∙ take-take m (length xs) hs le)

  -- A push keeps the queue a piece of the stream, with the new item in front.
  pub push-Holds :
      (v : A) (p : Publisher A) (hist : List A)
      → p.pos + 1 < word
      → Holds p hist
      → Holds (push v p) (v ∷ hist)
  unfolding push push_lk
  push-Holds v p hist lt h = record {
    numbered = omega (arith, h.numbered);
    small = omega arith;
    recent =
        take-recent
          (min (needed (add64 p.pos 1) p.min_len p.regs) (min p.max_len (suc (length p.items))))
          (v ∷ p.items) (v ∷ hist) (ap (◌∷◌ v) h.recent) (omega arith);
    within = omega (
      arith,
      h.within,
      length-take
          (min (needed (add64 p.pos 1) p.min_len p.regs) (min p.max_len (suc (length p.items))))
          (v ∷ p.items),
    );
  }

  -- Every subscriber finds in the queue all the items that it has still to read.
  abbrev pub Keeps : Publisher A → Type 0
  Keeps p = All (Reaches p.pos (length p.items)) p.regs

  -- Where no subscriber lags behind by more items than the queue may hold, a push keeps in the
  -- queue all the items that some subscriber has still to read.
  pub push-Keeps :
      (v : A) (p : Publisher A)
      → p.pos + 1 < word
      → All (Lags p.pos p.max_len) p.regs
      → Keeps p
      → Keeps (push v p)
  unfolding push push_lk
  push-Keeps v p lt slow k =
      let next : add64 p.pos 1 ≡ p.pos + 1 = omega arith in
      rw next (
        cleared-Reaches p.pos (length p.items) _ (needed (p.pos + 1) p.min_len p.regs) p.max_len
          p.regs
          (omega (
            arith,
            length-take
                (min (needed (p.pos + 1) p.min_len p.regs) (min p.max_len (suc (length p.items))))
                (v ∷ p.items),
          ))
          (needed-Lags (p.pos + 1) p.min_len _ p.regs lt (omega arith)) slow k)
