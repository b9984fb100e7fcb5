-- ===== src/Future/Runs.antt =====
-- Sequences of operations on a future of future.h, and what is observed of it.
use coroutines_classes.Prelude.{
  ℕ, ◌<◌, ◌≤◌, ◌≡◌, refl, List, Option, some, Bool, true, false, not, length, arith, ◌∙◌, ap, subst,
  ◌==◌, Bool-cases, inl, inr,
}
use coroutines_classes.Awaiter.{Chains, disabled_addr, instance_addr}
use coroutines_classes.Awaiter.Resume.{KeepsLinks}
use coroutines_classes.Awaiter.Subscribe.{honest}
use coroutines_classes.Future.{
  Cell, Stored, not_value, value, exception, set_value, get_value, ready, pending, initialized,
}
use coroutines_classes.Future.Contract.{
  View, Op, subscribes, sets, drops, destroys, assigns, constructs, waiting, settled, line, settle,
  operate, IsSettled, Implements, IsAllowed, outcome, is_settled,
}
use coroutines_classes.Future.Resolve.{set_value-Implements}
use coroutines_classes.Future.Steps.{Segment-head, step, step-Implements}

module _ {ℓ} {A : Type ℓ} where
  -- `value`, `ready`, `pending` and `initialized` show the state of the contract.
  pub observe-Implements :
      (c : Cell A) (v : View A)
      → Implements c v
      → (get_value c.future ≡ outcome v)
        × (ready c.future ≡ is_settled v)
        × (pending c.future ≡ not (is_settled v))
        × (initialized c.future ≡ false)
  unfolding get_value ready pending initialized
  observe-Implements c (waiting o xs) h =
      let away = Segment-head _ _ disabled_addr xs (omega arith) h.chained h.open_head in
      let begun = Segment-head _ _ instance_addr xs (omega arith) h.chained h.real in
      (
        rw h.no_result refl,
        ground (arith, away),
        ground (arith, away, begun),
        ground (arith, begun),
      )
  observe-Implements c (settled not_value xs) h =
      (rw h.result refl, rw h.marked refl, rw h.marked refl, rw h.marked refl)
  observe-Implements c (settled (value a) xs) h =
      (rw h.result refl, rw h.marked refl, rw h.marked refl, rw h.marked refl)
  observe-Implements c (settled (exception e) xs) h =
      (rw h.result refl, rw h.marked refl, rw h.marked refl, rw h.marked refl)

module _ {ℓ} {A : Type ℓ} (wake : ℕ → Chains → Chains) where
  -- `Reaches c v c' v'`: allowed operations of the code lead from `c` to `c'`, and those of the
  -- contract from `v` to `v'`.
  pub data Reaches : Cell A → View A → Cell A → View A → Type ℓ where
    stop : (c : Cell A) (v : View A) → Reaches c v c v
    go :
        (rounds : List Bool) (fuel : ℕ) (op : Op A) (c : Cell A) (v : View A) (c1 : Cell A)
        (c2 : Cell A) (w : View A) (b : Option Bool)
        → 2 ≤ honest rounds
        → length (line v) < fuel
        → IsAllowed op c v
        → step wake rounds fuel op c ≡ some (c1, b)
        → Reaches c1 (operate op v).0 c2 w
        → Reaches c v c2 w

module _ {ℓ} {A : Type ℓ} (wake : ℕ → Chains → Chains) (keeps : KeepsLinks wake)
    (still : (y : ℕ) (b : Chains) → (wake y b).head ≡ b.head) where
  some-first :
      (o : Option (Cell A × Option Bool)) (c c' : Cell A) (b b' : Option Bool)
      → o ≡ some (c, b)
      → o ≡ some (c', b')
      → c ≡ c'
  some-first o c c' b b' e f = cc

  -- Whatever sequence of allowed operations is run, the state goes on to stand for that of the
  -- contract.
  pub Reaches-Implements :
      (c c' : Cell A) (v v' : View A) → Reaches wake c v c' v' → Implements c v → Implements c' v'
  Reaches-Implements c c' v v' (stop _ _) h = h
  Reaches-Implements c c' v v' (go rounds fuel op _ _ c1 _ _ b enough lt ok run rest) h =
      let (c1', run', done) = step-Implements wake keeps still rounds fuel op c v enough lt ok h in
      Reaches-Implements c1 c' _ v' rest
        (subst (λ d. Implements d (operate op v).0) (some-first _ c1' c1 _ b run' run) done)

  operate-settled :
      (op : Op A) (r : Stored A) (xs : List ℕ) → (operate op (settled r xs)).0 ≡ settled r xs
  operate-settled (subscribes a) r xs = refl
  operate-settled (sets p s) r xs = refl
  operate-settled (drops p) r xs = refl
  operate-settled (destroys p) r xs = refl
  operate-settled (assigns p q) r xs = elim (Bool-cases (p == q)) [
    | inl e ↦ rw e refl
    | inr e ↦ rw e refl
  ]
  operate-settled (constructs p q) r xs = refl

  pub Reaches-settled :
      (r : Stored A) (xs : List ℕ) (c c' : Cell A) (v v' : View A)
      → Reaches wake c v c' v'
      → v ≡ settled r xs
      → v' ≡ settled r xs
  Reaches-settled r xs c c' v v' (stop _ _) e = e
  Reaches-settled r xs c c' v v' (go rounds fuel op _ _ c1 _ _ b enough lt ok run rest) e =
      Reaches-settled r xs c1 c' _ v' rest (ap (λ w. (operate op w).0) e ∙ operate-settled op r xs)

  some-reply :
      (o : Option (Cell A × Bool)) (c c' : Cell A) (b b' : Bool)
      → o ≡ some (c, b)
      → o ≡ some (c', b')
      → (c ≡ c') × (b ≡ b')
  some-reply o c c' b b' e f = (cc, cc)

  settle-true :
      (p : ℕ) (r : Stored A) (v : View A)
      → (settle p r v).1 ≡ true
      → (settle p r v).0 ≡ settled r (line v)
  settle-true p r (waiting o xs) t = elim (Bool-cases (p == o)) [
    | inl e ↦ rw e refl
    | inr e ↦ absurd (ground arith)
  ]
  settle-true p r (settled s xs) e = absurd cc

  -- A call of `set_value` that returns true settles the future.
  pub set_value-IsSettled :
      (fuel p : ℕ) (r : Stored A) (c c1 : Cell A) (v : View A)
      → length (line v) < fuel
      → Implements c v
      → set_value wake fuel p r c ≡ some (c1, true)
      → IsSettled c1 r (line v)
  set_value-IsSettled fuel p r c c1 v lt h run =
      let (c', run', done) = set_value-Implements wake keeps still fuel p r c v lt h in
      let (same, won) = some-reply _ c' c1 _ true run' run in
      subst (λ d. Implements d (settled r (line v))) same
        (subst (Implements c') (settle-true p r v won) done)

  -- What is settled stays so.
  pub Reaches-IsSettled :
      (r : Stored A) (xs : List ℕ) (c c' : Cell A) (w : View A)
      → IsSettled c r xs
      → Reaches wake c (settled r xs) c' w
      → IsSettled c' r xs
  Reaches-IsSettled r xs c c' w h rest =
      subst (Implements c') (Reaches-settled r xs c c' _ w rest refl)
        (Reaches-Implements c c' _ w rest h)

  -- From a state of the contract, with fuel above the number of those who wait: once a call of
  -- `set_value` has returned true, every awaiter that waited was resumed exactly once, the last to come
  -- first, and no sequence of allowed operations changes that or the result. The resumed code may
  -- change only the link of its own awaiter.
  pub set_value-first_wins :
      (fuel p : ℕ) (r : Stored A) (c c1 c2 : Cell A) (v w : View A)
      → length (line v) < fuel
      → Implements c v
      → set_value wake fuel p r c ≡ some (c1, true)
      → Reaches wake c1 (settled r (line v)) c2 w
      → (get_value c2.future ≡ outcome (settled r (line v)))
        × (ready c2.future ≡ true)
        × (c2.future.chains.log ≡ line v)
  set_value-first_wins fuel p r c c1 c2 v w lt h run rest =
      let done2 =
        Reaches-IsSettled r (line v) c1 c2 w (set_value-IsSettled fuel p r c c1 v lt h run) rest in
      let (got, is_ready, _, _) = observe-Implements c2 (settled r (line v)) done2 in
      (got, is_ready, done2.resumed)
