-- ===== src/Function/Owning.antt =====
-- Who owns the callables of function.h: each instance belongs to one function, and goes with it.
use coroutines_classes.Prelude.{
  ℕ, ◌+◌, ◌<◌, ◌==◌, ◌≡◌, ◌≢◌, refl, sym, subst, ap, ◌∙◌, List, [], ◌∷◌, Option, none, some, Bool,
  false, if◌then◌else◌, length, arith, Bool-cases, inl, inr,
}
use coroutines_classes.Function.{
  Instance, World, at, put, delete_ptr, set_ptr, init, move_instance, take_from, move_construct,
  move_assign, destroy,
}
use coroutines_classes.Function.Slots.{
  one, holders, held, contents, length-put, holders-put, at-put_other, put-same, at-put_same,
  put-put, contents-put, contents-at, length-contents,
}

pub data Op : Type 0 where
  constructs : ℕ → ℕ → Op
  moves : ℕ → ℕ → Op
  assigns : ℕ → ℕ → Op
  destroys : ℕ → Op

-- What the operations are to do with the callables.
abbrev pub hand_over : ℕ → ℕ → List (Option ℕ) → List (Option ℕ)
hand_over b a cs = put a none (put b (at a cs) cs)

abbrev pub contract : Op → List (Option ℕ) → List (Option ℕ)
contract (constructs a c) cs = put a (some c) cs
contract (moves b a) cs = hand_over b a cs
contract (assigns b a) cs = if b == a then cs else hand_over b a cs
contract (destroys a) cs = put a none cs

-- A function is constructed where none is alive, and not from itself.
abbrev pub IsAllowed : Op → List (Option ℕ) → Type 0
IsAllowed (constructs a c) cs = (a < length cs) × (at a cs ≡ none)
IsAllowed (moves b a) cs = (b < length cs) × (a < length cs) × (b ≢ a) × (at b cs ≡ none)
IsAllowed (assigns b a) cs = (b < length cs) × (a < length cs)
IsAllowed (destroys a) cs = a < length cs

abbrev pub IsOwned : World → Type 0
IsOwned w = w.constructed ≡ w.destroyed + holders w.functions

none-held : (x : Option Instance) → held x ≡ none → x ≡ none
none-held none e = refl
none-held (some x) e = absurd cc

-- What is put where nothing was.
set_ptr-holders :
    (i : ℕ) (p : Option Instance) (w : World)
    → i < length w.functions
    → at i w.functions ≡ none
    → holders (set_ptr i p w).functions ≡ holders w.functions + one p
unfolding set_ptr
set_ptr-holders i p w lt e = omega (arith, holders-put i p w.functions lt, ap one e)

delete_ptr-functions : (p : Option Instance) (w : World) → (delete_ptr p w).functions ≡ w.functions
unfolding delete_ptr
delete_ptr-functions none w = refl
delete_ptr-functions (some x) w = refl

-- The pointer of `a` is deleted and reset.
drop_ptr-IsOwned :
    (a : ℕ) (p : Option Instance) (w : World)
    → at a w.functions ≡ p
    → a < length w.functions
    → IsOwned w
    → IsOwned (set_ptr a none (delete_ptr p w))
      × (contents (set_ptr a none (delete_ptr p w)).functions ≡ put a none (contents w.functions))
unfolding set_ptr delete_ptr
drop_ptr-IsOwned a none w e lt h =
    (omega (arith, h, holders-put a none w.functions lt, ap one e), contents-put a none w.functions)
drop_ptr-IsOwned a (some x) w e lt h =
    (omega (arith, h, holders-put a none w.functions lt, ap one e), contents-put a none w.functions)

-- The contents after the pointer of `a` has gone to `b`.
contents-handed :
    (b a : ℕ) (p q : Option Instance) (xs : List (Option Instance))
    → at a xs ≡ p
    → held q ≡ held p
    → contents (put a none (put b q xs)) ≡ hand_over b a (contents xs)
contents-handed b a p q xs e f =
    contents-put a none (put b q xs)
    ∙ ap (put a none) (
        contents-put b q xs
        ∙ ap (λ z. put b z (contents xs)) (f ∙ sym (contents-at a xs ∙ ap held e)))

holders-handed :
    (b a : ℕ) (p q : Option Instance) (xs : List (Option Instance))
    → at a xs ≡ p
    → b < length xs
    → a < length xs
    → b ≢ a
    → at b xs ≡ none
    → holders (put a none (put b q xs)) + one p ≡ holders xs + one q
holders-handed b a p q xs f lb la n e =
    let other = at-put_other a b q xs (λ k. n (sym k)) ∙ f in
    omega (
      arith,
      holders-put b q xs lb,
      ap one e,
      holders-put a none (put b q xs) (omega (arith, la, length-put b q xs)),
      ap one other,
    )

module _ (fits : ℕ → Bool) where
  unfoldable pub apply : Op → World → World
  unfolding init move_construct move_assign destroy
  apply (constructs a c) w = init fits a c w
  apply (moves b a) w = move_construct fits b a w
  apply (assigns b a) w = move_assign fits b a w
  apply (destroys a) w = destroy a w

  take_ptr-IsOwned :
      (b a : ℕ) (p : Option Instance) (w : World)
      → at a w.functions ≡ p
      → b < length w.functions
      → a < length w.functions
      → b ≢ a
      → at b w.functions ≡ none
      → IsOwned w
      → IsOwned (take_from fits b a p w)
        × (contents (take_from fits b a p w).functions ≡ hand_over b a (contents w.functions))
  unfolding take_from set_ptr move_instance
  take_ptr-IsOwned b a none w f lb la n e h = (
    omega (arith, h, holders-put b none w.functions lb, ap one e),
    ap contents (
          sym (
            put-same a none (put b none w.functions)
              (at-put_other a b none w.functions (λ k. n (sym k)) ∙ f)))
        ∙ contents-handed b a none none w.functions f refl,
  )
  take_ptr-IsOwned b a (some x) w f lb la n e h = (
    elim (Bool-cases x.small) [
      | inl s ↦ rw s (omega (arith, h, holders-handed b a (some x) _ w.functions f lb la n e))
      | inr s ↦ rw s (
          omega (
            arith,
            h,
            holders-handed b a (some x) (some (record { callable = x.callable; small = false }))
                w.functions f lb la n e,
          ))
    ],
    elim (Bool-cases x.small) [
      | inl s ↦ rw s (contents-handed b a (some x) _ w.functions f refl)
      | inr s ↦ rw s (
          contents-handed b a (some x) (some (record { callable = x.callable; small = false }))
            w.functions f refl)
    ],
  )

  hand_over-emptied :
      (b a : ℕ) (cs : List (Option ℕ)) → b ≢ a → hand_over b a (put b none cs) ≡ hand_over b a cs
  hand_over-emptied b a cs n =
      ap (put a none)
        (put-put b none _ cs ∙ ap (λ z. put b z cs) (at-put_other a b none cs (λ k. n (sym k))))

  assign-IsOwned :
      (b a : ℕ) (w : World)
      → b < length w.functions
      → a < length w.functions
      → b ≢ a
      → IsOwned w
      → IsOwned
          (take_from fits b a (at a w.functions) (set_ptr b none (delete_ptr (at b w.functions) w)))
        × (contents
              (take_from fits b a
                (at a w.functions)
                (set_ptr b none (delete_ptr (at b w.functions) w))).functions
            ≡ hand_over b a (contents w.functions))
  unfolding set_ptr
  assign-IsOwned b a w lb la n h =
      let w1 = set_ptr b none (delete_ptr (at b w.functions) w) in
      let (h1, c1) = drop_ptr-IsOwned b (at b w.functions) w refl lb h in
      let same : w1.functions ≡ put b none w.functions =
        ap (put b none) (delete_ptr-functions (at b w.functions) w) in
      let long = ap length same ∙ length-put b none w.functions in
      let (h2, c2) =
        take_ptr-IsOwned b a (at a w.functions) w1
          (ap (at a) same ∙ at-put_other a b none w.functions (λ k. n (sym k)))
          (omega (arith, lb, long)) (omega (arith, la, long)) n
          (ap (at b) same ∙ at-put_same b w.functions) h1 in
      (h2, c2 ∙ ap (hand_over b a) c1 ∙ hand_over-emptied b a (contents w.functions) n)

  -- The operations do with the callables what they are to do, and keep the count.
  apply-IsOwned :
      (op : Op) (w : World)
      → IsAllowed op (contents w.functions)
      → IsOwned w
      → IsOwned (apply op w)
        × (contents (apply op w).functions ≡ contract op (contents w.functions))
  unfolding apply init set_ptr move_construct move_assign destroy
  apply-IsOwned (constructs a c) w (lt, e) h =
      let empty = none-held _ (sym (contents-at a w.functions) ∙ e) in
      (
        omega (
          arith,
          h,
          holders-put a (some (record { callable = c; small = fits c })) w.functions
              (omega (arith, lt, length-contents w.functions)),
          ap one empty,
        ),
        contents-put a _ w.functions,
      )
  apply-IsOwned (moves b a) w (lb, la, n, e) h =
      take_ptr-IsOwned b a _ w refl (omega (arith, lb, length-contents w.functions))
        (omega (arith, la, length-contents w.functions)) n
        (none-held _ (sym (contents-at b w.functions) ∙ e)) h
  apply-IsOwned (assigns b a) w (lb, la) h = elim (Bool-cases (b == a)) [
    | inl e ↦ rw (move_assign, e) (h, refl)
    | inr e ↦
        rw (move_assign, e)
          (assign-IsOwned b a w (omega (arith, lb, length-contents w.functions))
            (omega (arith, la, length-contents w.functions)) (ground (arith, e)) h)
  ]
  apply-IsOwned (destroys a) w lt h =
      drop_ptr-IsOwned a _ w refl (omega (arith, lt, length-contents w.functions)) h

  unfoldable pub run : List Op → World → World
  run [] w = w
  run (op ∷ ops) w = run ops (apply op w)

  abbrev pub run_contract : List Op → List (Option ℕ) → List (Option ℕ)
  run_contract [] cs = cs
  run_contract (op ∷ ops) cs = run_contract ops (contract op cs)

  abbrev pub AllAllowed : List Op → List (Option ℕ) → Type 0
  AllAllowed [] cs = Unit
  AllAllowed (op ∷ ops) cs = IsAllowed op cs × AllAllowed ops (contract op cs)

  -- In each allowed history of constructions, moves, assignments and destructions, wherever the
  -- callables stand: each function holds the callable that the history gave it, unchanged, and as
  -- many instances exist as functions hold one. So none is destroyed twice or left over.
  pub run-IsOwned :
      (ops : List Op) (w : World)
      → AllAllowed ops (contents w.functions)
      → IsOwned w
      → IsOwned (run ops w)
        × (contents (run ops w).functions ≡ run_contract ops (contents w.functions))
  unfolding run
  run-IsOwned [] w ok h = (h, refl)
  run-IsOwned (op ∷ ops) w (ok, later) h =
      let (h1, c1) = apply-IsOwned op w ok h in
      let (h2, c2) = run-IsOwned ops (apply op w) (subst (AllAllowed ops) (sym c1) later) h1 in
      (h2, c2 ∙ ap (run_contract ops) c1)
