-- ===== src/Future/Steps.antt =====
-- The operations of future.h, each against its contract.
use coroutines_classes.Prelude.{
  ℕ, ◌<◌, ◌≤◌, ◌≡◌, ◌≢◌, refl, List, [], ◌∷◌, Option, some, none, Bool, false, ◌==◌, ◌>>=◌, length,
  arith, update, Bool-cases, inl, inr, NotMem, ◌∙◌, ap, subst, sym,
}
use coroutines_classes.Awaiter.{Chains, null, disabled_addr}
use coroutines_classes.Awaiter.Resume.{KeepsLinks}
use coroutines_classes.Awaiter.Subscribe.{
  honest, subscribe_check_ready-Subscribed, subscribe_check_ready-refused, Subscribed-Segment,
}
use coroutines_classes.Awaiter.Segment.{Segment}
use coroutines_classes.Future.{
  Cell, not_value, claim, drop, destroy, set_value, move_construct, move_assign, subscribe_awaiter,
}
use coroutines_classes.Future.Contract.{
  View, Op, subscribes, sets, drops, destroys, assigns, constructs, waiting, settled, line, settle,
  hand_over, wait_in, operate, IsWaiting, Implements, IsAllowed,
}
use coroutines_classes.Future.Resolve.{
  update-no_owner, IsSettled-claim, IsWaiting-claim, resolve-IsSettled, resolve-Segment,
  set_value-Implements,
}

-- The head of a chain that ends is none of its strangers.
pub Segment-head :
    (next : ℕ → ℕ) (p mark : ℕ) (xs : List ℕ)
    → mark ≢ null
    → Segment next p xs null
    → NotMem mark xs
    → p ≢ mark
Segment-head next p mark [] k s n e = k (sym e ∙ s)
Segment-head next p mark (x ∷ xs) k s n e = n.0 (sym e ∙ s.0)

module _ {ℓ} {A : Type ℓ} (wake : ℕ → Chains → Chains) where
  -- One operation of the code, with the Boolean that it returns.
  unfoldable pub step : List Bool → ℕ → Op A → Cell A → Option (Cell A × Option Bool)
  step rounds fuel (subscribes a) c = do (c', b) ← subscribe_awaiter rounds a c; some (c', some b)
  step rounds fuel (sets p r) c = do (c', b) ← set_value wake fuel p r c; some (c', some b)
  step rounds fuel (drops p) c = do c' ← drop wake fuel p c; some (c', none)
  step rounds fuel (destroys p) c = do c' ← destroy wake fuel p c; some (c', none)
  step rounds fuel (assigns p q) c = do c' ← move_assign wake fuel p q c; some (c', none)
  step rounds fuel (constructs p q) c = some (move_construct p q c, none)

module _ {ℓ} {A : Type ℓ} (wake : ℕ → Chains → Chains) (keeps : KeepsLinks wake)
    (still : (y : ℕ) (b : Chains) → (wake y b).head ≡ b.head) where
  drop-Implements :
      (fuel p : ℕ) (c : Cell A) (v : View A)
      → length (line v) < fuel
      → Implements c v
      → (c' : Cell A) × (drop wake fuel p c ≡ some c')
        × Implements c' (settle p not_value v).0
        × (c'.owns p ≡ false)
  unfolding drop claim
  drop-Implements fuel p c (settled s xs) lt h =
      let (done, none_owned) = IsSettled-claim wake keeps still p c s xs h in
      ((claim p c).0, rw none_owned refl, done, done.no_owner p)
  drop-Implements fuel p c (waiting o xs) lt h = elim (Bool-cases (p == o)) [
    | inl e ↦
        let h' = subst (λ q. IsWaiting c q xs) (ground arith) h in
        let (c', run, done) =
          resolve-IsSettled wake keeps still fuel not_value (claim p c).0 xs lt h'.chained
            h'.none_resumed h'.no_result (update-no_owner p c.owns h'.sole) in
        rw e (c', rw h'.owner run, done, done.no_owner p)
    | inr e ↦
        let (done, none_owned) = IsWaiting-claim wake keeps still p o c xs (ground arith) h in
        rw e ((claim p c).0, rw none_owned refl, done, done.sole p (ground arith))
  ]

  pub destroy-Implements :
      (fuel p : ℕ) (c : Cell A) (v : View A)
      → length (line v) < fuel
      → Implements c v
      → (c' : Cell A) × (destroy wake fuel p c ≡ some c') × Implements c' (settle p not_value v).0
  unfolding destroy
  destroy-Implements fuel p c (settled s xs) lt h = (c, rw (h.no_owner p) refl, h)
  destroy-Implements fuel p c (waiting o xs) lt h = elim (Bool-cases (p == o)) [
    | inl e ↦
        let h' : IsWaiting c p xs = subst (λ q. IsWaiting c q xs) (ground arith) h in
        let (c', run, head, log, stored, owns) =
          resolve-Segment wake keeps still fuel c xs lt h'.chained h'.none_resumed in
        let gone : Cell A = record c' { owns = update c'.owns p false } in
        rw e (
          gone,
          rw (h'.owner, run) refl,
          record {
            marked = head;
            result = stored ∙ h'.no_result;
            resumed = log;
            no_owner = update-no_owner p c'.owns (λ q n. ap (λ f. f q) owns ∙ h'.sole q n);
          },
        )
    | inr e ↦ rw e (c, rw (h.sole p (ground arith)) refl, h)
  ]

  move_construct-Implements :
      (p q : ℕ) (c : Cell A) (v : View A)
      → c.owns p ≡ false
      → Implements c v
      → Implements (move_construct p q c) (hand_over p q v)
  unfolding move_construct claim
  move_construct-Implements p q c (settled s xs) new h = record {
    marked = h.marked;
    result = h.result;
    resumed = h.resumed;
    no_owner = λ r. ground (arith, h.no_owner q, h.no_owner r);
  }
  move_construct-Implements p q c (waiting o xs) new h = elim (Bool-cases (q == o)) [
    | inl e ↦ rw e (record {
      chained = h.chained;
      open_head = h.open_head;
      real = h.real;
      none_resumed = h.none_resumed;
      no_result = h.no_result;
      owner = ground (arith, h.owner);
      sole = λ r n. ground (arith, h.sole r);
    })
    | inr e ↦ rw e (record {
      chained = h.chained;
      open_head = h.open_head;
      real = h.real;
      none_resumed = h.none_resumed;
      no_result = h.no_result;
      owner = ground (arith, h.owner);
      sole = λ r n. ground (arith, h.sole r, h.sole q);
    })
  ]

  pub subscribe_awaiter-Implements :
      (rounds : List Bool) (a : ℕ) (c : Cell A) (v : View A)
      → 2 ≤ honest rounds
      → IsAllowed (subscribes a) c v
      → Implements c v
      → (c' : Cell A) × (subscribe_awaiter rounds a c ≡ some (c', (wait_in a v).1))
        × Implements c' (wait_in a v).0
  unfolding subscribe_awaiter
  subscribe_awaiter-Implements [] a c (settled s xs) enough ok h = elim enough [ ]
  subscribe_awaiter-Implements (spurious ∷ rounds) a c (settled s xs) enough ok h =
      let (b, run, head, _, _, log) =
        subscribe_check_ready-refused spurious rounds a disabled_addr c.future.chains ok.4
          (omega arith) h.marked in
      (
        record c { future = record c.future { chains = b } },
        ground (arith, run),
        record {
          marked = head;
          result = h.result;
          resumed = log ∙ h.resumed;
          no_owner = h.no_owner;
        },
      )
  subscribe_awaiter-Implements rounds a c (waiting o xs) enough ok h =
      let (b, run, done) =
        subscribe_check_ready-Subscribed rounds a disabled_addr c.future.chains enough
          (Segment-head _ _ disabled_addr xs (omega arith) h.chained h.open_head) in
      (
        record c { future = record c.future { chains = b } },
        ground (arith, run),
        record {
          chained = Subscribed-Segment a c.future.chains b xs null done ok.0 ok.3 h.chained;
          open_head = (λ e. ok.1 (sym e), h.open_head);
          real = (λ e. ok.2 (sym e), h.real);
          none_resumed = done.quiet ∙ h.none_resumed;
          no_result = h.no_result;
          owner = h.owner;
          sole = h.sole;
        },
      )

  lose-line : (p : ℕ) (v : View A) → length (line (settle p not_value v).0) ≤ length (line v)
  lose-line p (waiting o xs) = elim (Bool-cases (p == o)) [
    | inl e ↦ rw e (omega arith)
    | inr e ↦ rw e (omega arith)
  ]
  lose-line p (settled s xs) = omega arith

  pub move_assign-Implements :
      (fuel p q : ℕ) (c : Cell A) (v : View A)
      → length (line v) < fuel
      → Implements c v
      → (c' : Cell A) × (move_assign wake fuel p q c ≡ some c')
        × Implements c' (operate (assigns p q) v).0
  unfolding move_assign
  move_assign-Implements fuel p q c v lt h = elim (Bool-cases (p == q)) [
    | inl e ↦ rw e (c, refl, h)
    | inr e ↦
        let (c', run, done, free) = drop-Implements fuel p c v lt h in
        rw (e, run) (move_construct p q c', refl, move_construct-Implements p q c' _ free done)
  ]

  pub step-Implements :
      (rounds : List Bool) (fuel : ℕ) (op : Op A) (c : Cell A) (v : View A)
      → 2 ≤ honest rounds
      → length (line v) < fuel
      → IsAllowed op c v
      → Implements c v
      → (c' : Cell A) × (step wake rounds fuel op c ≡ some (c', (operate op v).1))
        × Implements c' (operate op v).0
  unfolding step
  step-Implements rounds fuel (subscribes a) c v enough lt ok h =
      let (c', run, done) = subscribe_awaiter-Implements rounds a c v enough ok h in
      (c', rw run refl, done)
  step-Implements rounds fuel (sets p r) c v enough lt ok h =
      let (c', run, done) = set_value-Implements wake keeps still fuel p r c v lt h in
      (c', rw run refl, done)
  step-Implements rounds fuel (drops p) c v enough lt ok h =
      let (c', run, done, _) = drop-Implements fuel p c v lt h in (c', rw run refl, done)
  step-Implements rounds fuel (destroys p) c v enough lt ok h =
      let (c', run, done) = destroy-Implements fuel p c v lt h in (c', rw run refl, done)
  step-Implements rounds fuel (assigns p q) c v enough lt ok h =
      let (c', run, done) = move_assign-Implements fuel p q c v lt h in (c', rw run refl, done)
  step-Implements rounds fuel (constructs p q) c v enough lt ok h =
      (move_construct p q c, refl, move_construct-Implements p q c v ok h)
