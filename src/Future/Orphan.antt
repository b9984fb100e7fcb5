-- ===== src/Future/Orphan.antt =====
-- The use of a promise of future.h when the construction of the value throws, and what the task of
-- `thread_pool::run` of thread_pool.h does then.
use coroutines_classes.Prelude.{
  ℕ, ◌≡◌, refl, sym, ◌∙◌, ap, subst, List, [], ◌∷◌, Option, some, Bool, true, false, ◌==◌, arith,
  update, Bool-cases, Option-cases, inl, inr,
}
use coroutines_classes.Awaiter.{Chains, subscribe_check_ready, exchange_weak, disabled_addr}
use coroutines_classes.Future.{
  Cell, Stored, exception, not_value, get_value, not_ready, claim, drop, destroy, set_value,
  move_construct, move_assign, subscribe_awaiter,
}
use coroutines_classes.Future.Contract.{
  Op, subscribes, sets, drops, destroys, assigns, constructs, IsWaiting,
}
use coroutines_classes.Future.Resolve.{update-no_owner}
use coroutines_classes.Future.Steps.{step}

module _ {ℓ} {A : Type ℓ} where
  -- `operator()` where `set` throws what the constructor of the value throws: the exception leaves the
  -- function before `resolve`, and nothing has been stored.
  unfoldable pub set_throws : ℕ → Cell A → Cell A
  unfolding claim
  set_throws p c = (claim p c).0

module _ {ℓ} {A : Type ℓ} (wake : ℕ → Chains → Chains) where
  -- The catch block of the task of `thread_pool::run`, which uses the promise again.
  unfoldable pub catch_use : ℕ → ℕ → ℕ → Cell A → Option (Cell A × Bool)
  unfolding set_throws
  catch_use fuel p e c = set_value wake fuel p (exception e) (set_throws p c)

  -- Any operations of the code, on any promises.
  pub data Goes : Cell A → Cell A → Type ℓ where
    stay : (c : Cell A) → Goes c c
    go :
        (rounds : List Bool) (fuel : ℕ) (op : Op A) (c c1 c2 : Cell A) (b : Option Bool)
        → step wake rounds fuel op c ≡ some (c1, b)
        → Goes c1 c2
        → Goes c c2

-- No promise refers to the future, which has no result, and nobody was resumed.
record IsOrphan {ℓ} {A : Type ℓ} (c : Cell A) : Type ℓ where
  no_owner : (q : ℕ) → c.owns q ≡ false
  no_result : c.future.stored ≡ not_value
  none_resumed : c.future.chains.log ≡ []

same-first {ℓ κ} :
    {X : Type ℓ} {Y : Type κ}
    → (x y : X) (a b : Y) → ◌≡◌ {A = Option (X × Y)} (some (x, a)) (some (y, b))
    → x ≡ y
same-first x y a b e = cc

exchange_weak-log :
    (spurious : Bool) (a : ℕ) (c : Chains) → (exchange_weak spurious a c).0.log ≡ c.log
unfolding exchange_weak
exchange_weak-log spurious a c = ground arith

subscribe_check_ready-log :
    (rounds : List Bool) (a m : ℕ) (c c' : Chains) (w : Bool)
    → subscribe_check_ready rounds a m c ≡ some (c', w)
    → c'.log ≡ c.log
unfolding subscribe_check_ready
subscribe_check_ready-log [] a m c c' w e = absurd cc
subscribe_check_ready-log (spurious ∷ rounds) a m c c' w e =
    let (d, done) = exchange_weak spurious a c in
    let kept : d.log ≡ c.log = exchange_weak-log spurious a c in
    elim (Bool-cases done) [
      | inl f ↦ ap (λ b. b.log) (sym (same-first d c' true w (rw f at e))) ∙ kept
      | inr f ↦ elim (Bool-cases (d.next a == m)) [
        | inl g ↦ ap (λ b. b.log) (sym (same-first _ c' false w (rw (f, g) at e))) ∙ kept
        | inr g ↦ subscribe_check_ready-log rounds a m d c' w (rw (f, g) at e) ∙ kept
      ]
    ]

no_owner-update :
    (owns : ℕ → Bool) (p : ℕ) → ((q : ℕ) → owns q ≡ false) → (q : ℕ) → update owns p false q ≡ false
no_owner-update owns p n q = ground (arith, n q)

module _ {ℓ} {A : Type ℓ} (wake : ℕ → Chains → Chains) where
  claim-IsOrphan : (p : ℕ) (c : Cell A) → IsOrphan c → IsOrphan (claim p c).0
  unfolding claim
  claim-IsOrphan p c h = record {
    no_owner = no_owner-update c.owns p h.no_owner;
    no_result = h.no_result;
    none_resumed = h.none_resumed;
  }

  move_construct-IsOrphan : (p q : ℕ) (c : Cell A) → IsOrphan c → IsOrphan (move_construct p q c)
  unfolding move_construct claim
  move_construct-IsOrphan p q c h = record {
    no_owner = λ r. ground (arith, h.no_owner r, h.no_owner q);
    no_result = h.no_result;
    none_resumed = h.none_resumed;
  }

  set_value-orphan :
      (fuel p : ℕ) (r : Stored A) (c : Cell A)
      → IsOrphan c
      → set_value wake fuel p r c ≡ some ((claim p c).0, false)
  unfolding set_value claim
  set_value-orphan fuel p r c h = rw (h.no_owner p) refl

  drop-orphan : (fuel p : ℕ) (c : Cell A) → IsOrphan c → drop wake fuel p c ≡ some (claim p c).0
  unfolding drop claim
  drop-orphan fuel p c h = rw (h.no_owner p) refl

  destroy-orphan : (fuel p : ℕ) (c : Cell A) → IsOrphan c → destroy wake fuel p c ≡ some c
  unfolding destroy
  destroy-orphan fuel p c h = rw (h.no_owner p) refl

  subscribe_awaiter-IsOrphan :
      (rounds : List Bool) (a : ℕ) (c c1 : Cell A) (b : Option Bool)
      → step wake rounds 0 (subscribes a) c ≡ some (c1, b)
      → IsOrphan c
      → IsOrphan c1
  unfolding step subscribe_awaiter
  subscribe_awaiter-IsOrphan rounds a c c1 b run h =
      elim (Option-cases (subscribe_check_ready rounds a disabled_addr c.future.chains)) [
        | inl f ↦ absurd (ground (arith, f))
        | inr ((ch, w), f) ↦ subst IsOrphan (same-first _ c1 _ b (rw f at run)) (record {
          no_owner = h.no_owner;
          no_result = h.no_result;
          none_resumed =
              subscribe_check_ready-log rounds a disabled_addr c.future.chains ch w f
              ∙ h.none_resumed;
        })
      ]

  step-IsOrphan :
      (rounds : List Bool) (fuel : ℕ) (op : Op A) (c c1 : Cell A) (b : Option Bool)
      → step wake rounds fuel op c ≡ some (c1, b)
      → IsOrphan c
      → IsOrphan c1
  unfolding step move_assign
  step-IsOrphan rounds fuel (subscribes a) c c1 b run h =
      subscribe_awaiter-IsOrphan rounds a c c1 b run h
  step-IsOrphan rounds fuel (sets p r) c c1 b run h =
      subst IsOrphan (same-first _ c1 _ b (rw (set_value-orphan fuel p r c h) at run))
        (claim-IsOrphan p c h)
  step-IsOrphan rounds fuel (drops p) c c1 b run h =
      subst IsOrphan (same-first _ c1 _ b (rw (drop-orphan fuel p c h) at run))
        (claim-IsOrphan p c h)
  step-IsOrphan rounds fuel (destroys p) c c1 b run h =
      subst IsOrphan (same-first _ c1 _ b (rw (destroy-orphan fuel p c h) at run)) h
  step-IsOrphan rounds fuel (assigns p q) c c1 b run h = elim (Bool-cases (p == q)) [
    | inl e ↦ subst IsOrphan (same-first _ c1 _ b (rw e at run)) h
    | inr e ↦
        subst IsOrphan (same-first _ c1 _ b (rw (e, drop-orphan fuel p c h) at run))
          (move_construct-IsOrphan p q _ (claim-IsOrphan p c h))
  ]
  step-IsOrphan rounds fuel (constructs p q) c c1 b run h =
      subst IsOrphan (same-first _ c1 _ b run) (move_construct-IsOrphan p q c h)

  Goes-IsOrphan : (c c1 : Cell A) → Goes wake c c1 → IsOrphan c → IsOrphan c1
  Goes-IsOrphan c _ (Goes.stay _) h = h
  Goes-IsOrphan c c2 (Goes.go rounds fuel op _ c1 _ b run rest) h =
      Goes-IsOrphan c1 c2 rest (step-IsOrphan rounds fuel op c c1 b run h)

  -- A future that never gets a result. Awaiters wait for it, its promise is used, and the construction
  -- of the value throws. The use of the promise in the catch block then returns false, and after any
  -- operations on any promises that follow, other awaiters included that subscribe, none of those who
  -- wait has been resumed, and the future has no value.
  pub set_throws-never :
      (p fuel e : ℕ) (xs : List ℕ) (c c2 : Cell A)
      → IsWaiting c p xs
      → Goes wake (claim p (set_throws p c)).0 c2
      → (catch_use wake fuel p e c ≡ some ((claim p (set_throws p c)).0, false))
        × (c2.future.chains.log ≡ [])
        × (get_value c2.future ≡ not_ready)
  unfolding catch_use set_throws get_value claim
  set_throws-never p fuel e xs c c2 h rest =
      let o : IsOrphan (claim p c).0 = record {
        no_owner = update-no_owner p c.owns h.sole;
        no_result = h.no_result;
        none_resumed = h.none_resumed;
      } in
      let last = Goes-IsOrphan _ c2 rest (claim-IsOrphan p (claim p c).0 o) in
      (
        set_value-orphan fuel p (exception e) (claim p c).0 o,
        last.none_resumed,
        rw last.no_result refl,
      )
