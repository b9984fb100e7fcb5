-- ===== src/Future/Resolve.antt =====
-- The end of a future: its result is set, and all who wait are resumed.
use coroutines_classes.Prelude.{
  ℕ, ◌<◌, ◌≡◌, ◌≢◌, refl, List, [], ◌++◌, some, Bool, false, ◌==◌, ◌>>=◌, length, arith, update,
  Bool-cases, inl, inr, ◌∙◌, ap, subst,
}
use native.Mathlib.Decide.{ℕ_discrete}
use coroutines_classes.Awaiter.{Chains, null, disabled_addr}
use coroutines_classes.Awaiter.Resume.{KeepsLinks, resume_chain_set_ready-all}
use coroutines_classes.Awaiter.Segment.{Segment}
use coroutines_classes.Future.{Cell, Stored, claim, set, resolve, set_value}
use coroutines_classes.Future.Contract.{
  View, waiting, settled, line, settle, IsWaiting, IsSettled, Implements,
}

pub update-no_owner :
    (p : ℕ) (owns : ℕ → Bool)
    → ((q : ℕ) → q ≢ p → owns q ≡ false)
    → (q : ℕ) → update owns p false q ≡ false
update-no_owner p owns sole q = elim (ℕ_discrete q p) [
  | yes e ↦ ground arith
  | no n ↦ ground (arith, sole q n)
]

module _ {ℓ} {A : Type ℓ} (wake : ℕ → Chains → Chains) (keeps : KeepsLinks wake)
    (still : (y : ℕ) (b : Chains) → (wake y b).head ≡ b.head) where
  pub resolve-Segment :
      (fuel : ℕ) (c : Cell A) (xs : List ℕ)
      → length xs < fuel
      → Segment c.future.chains.next c.future.chains.head xs null
      → c.future.chains.log ≡ []
      → (c' : Cell A) × (resolve wake fuel c ≡ some c')
        × (c'.future.chains.head ≡ disabled_addr)
        × (c'.future.chains.log ≡ xs)
        × (c'.future.stored ≡ c.future.stored)
        × (c'.owns ≡ c.owns)
  unfolding resolve
  resolve-Segment fuel c xs lt s e =
      let (b, run, log, head) =
        resume_chain_set_ready-all wake keeps fuel disabled_addr c.future.chains xs still lt s in
      (
        record c { future = record c.future { chains = b } },
        ground (arith, run),
        head,
        log ∙ ap (λ l. l ++ xs) e,
        refl,
        refl,
      )

  pub resolve-IsSettled :
      (fuel : ℕ) (r : Stored A) (c : Cell A) (xs : List ℕ)
      → length xs < fuel
      → Segment c.future.chains.next c.future.chains.head xs null
      → c.future.chains.log ≡ []
      → c.future.stored ≡ r
      → ((q : ℕ) → c.owns q ≡ false)
      → (c' : Cell A) × (resolve wake fuel c ≡ some c') × IsSettled c' r xs
  resolve-IsSettled fuel r c xs lt s e st no_owner =
      let (c', run, head, log, stored, owns) = resolve-Segment fuel c xs lt s e in
      (
        c',
        run,
        record {
          marked = head;
          result = stored ∙ st;
          resumed = log;
          no_owner = λ q. ap (λ f. f q) owns ∙ no_owner q;
        },
      )

  pub IsSettled-claim :
      (p : ℕ) (c : Cell A) (s : Stored A) (xs : List ℕ)
      → IsSettled c s xs
      → IsSettled (claim p c).0 s xs × ((claim p c).1 ≡ false)
  unfolding claim
  IsSettled-claim p c s xs h = (
    record {
      marked = h.marked;
      result = h.result;
      resumed = h.resumed;
      no_owner = update-no_owner p c.owns (λ q _. h.no_owner q);
    },
    h.no_owner p,
  )

  pub IsWaiting-claim :
      (p o : ℕ) (c : Cell A) (xs : List ℕ)
      → p ≢ o
      → IsWaiting c o xs
      → IsWaiting (claim p c).0 o xs × ((claim p c).1 ≡ false)
  unfolding claim
  IsWaiting-claim p o c xs n h = (
    record {
      chained = h.chained;
      open_head = h.open_head;
      real = h.real;
      none_resumed = h.none_resumed;
      no_result = h.no_result;
      owner = ground (arith, h.owner);
      sole = λ q k. ground (arith, h.sole q k);
    },
    h.sole p n,
  )

  set-resolve :
      (fuel p : ℕ) (r : Stored A) (c : Cell A) (xs : List ℕ)
      → length xs < fuel
      → IsWaiting c p xs
      → (c' : Cell A) × ((do b ← set r (claim p c).0; resolve wake fuel b) ≡ some c')
        × IsSettled c' r xs
  unfolding set claim
  set-resolve fuel p r c xs lt h =
      let c1 : Cell A = record {
        future = record c.future { stored = r };
        owns = update c.owns p false;
      } in
      let (c', run, done) =
        resolve-IsSettled fuel r c1 xs lt h.chained h.none_resumed refl
          (update-no_owner p c.owns h.sole) in
      (c', rw h.no_result run, done)

  pub set_value-Implements :
      (fuel p : ℕ) (r : Stored A) (c : Cell A) (v : View A)
      → length (line v) < fuel
      → Implements c v
      → (c' : Cell A) × (set_value wake fuel p r c ≡ some (c', (settle p r v).1))
        × Implements c' (settle p r v).0
  unfolding set_value
  set_value-Implements fuel p r c (settled s xs) lt h =
      let (done, none_owned) = IsSettled-claim p c s xs h in
      ((claim p c).0, rw none_owned refl, done)
  set_value-Implements fuel p r c (waiting o xs) lt h = elim (Bool-cases (p == o)) [
    | inl e ↦
        let (c', run, done) =
          set-resolve fuel p r c xs lt (subst (λ q. IsWaiting c q xs) (ground arith) h) in
        rw e (c', ground (arith, run, h.owner), done)
    | inr e ↦
        let (done, none_owned) = IsWaiting-claim p o c xs (ground arith) h in
        rw e ((claim p c).0, rw none_owned refl, done)
  ]
