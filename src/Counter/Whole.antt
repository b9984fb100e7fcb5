-- ===== src/Counter/Whole.antt =====
-- The operations of counter.h when no other thread comes between.
use coroutines_classes.Prelude.{
  ℕ, ◌+◌, ◌<◌, ◌≤◌, ◌≡◌, ◌≢◌, refl, Option, some, Bool, true, false, ◌==◌, List, [], ◌∷◌, ◌++◌,
  arith, Bool-cases, inl, inr, add64, sub64, word, ◌∙◌, ap, ◌>>=◌, length, NotMem,
}
use coroutines_classes.Awaiter.{Chains, null}
use coroutines_classes.Awaiter.Segment.{Segment}
use coroutines_classes.Awaiter.Resume.{KeepsLinks, resume_chain-all}
use coroutines_classes.Awaiter.Subscribe.{honest, subscribe-Subscribed, Subscribed-Segment}
use coroutines_classes.Counter.{
  Counter, not_positive, increment, decrement, set_value, subscribe_awaiter, count_down, release,
  check_count, enter, difference, add_difference,
}
use coroutines_classes.Counter.Awake.{release-empty}

-- The count, who waits (the last to come first), and who was resumed.
pub record Tally : Type 0 where
  pub count : ℕ
  pub line : List ℕ
  pub resumed : List ℕ

pub data Use : Type 0 where
  increments : Use
  decrements : Use
  sets : ℕ → Use
  waits : ℕ → Use

abbrev pub let_go : Bool → Tally → Tally
let_go false t = t
let_go true t = record t { line = []; resumed = t.resumed ++ t.line }

abbrev pub use_tally : Use → Tally → Tally
use_tally increments t = record t { count = add64 t.count 1 }
use_tally decrements t = let_go (sub64 t.count 1 == 0) (record t { count = sub64 t.count 1 })
use_tally (sets val) t = let_go (not_positive val) (record t { count = val })
use_tally (waits a) t = let_go (not_positive t.count) (record t { line = a ∷ t.line })

-- The counter stands for the tally.
pub record Implements (c : Counter) (t : Tally) : Type 0 where
  pub counted : c.count ≡ t.count
  pub chained : Segment c.chains.next c.chains.head t.line null
  pub logged : c.chains.log ≡ t.resumed

abbrev pub IsAllowed : Use → Tally → Type 0
IsAllowed increments t = Unit
IsAllowed decrements t = Unit
IsAllowed (sets val) t = (t.count < word) × (val < word)
IsAllowed (waits a) t = (a ≢ null) × NotMem a t.line

add64-sub64 : (a b : ℕ) → a < word → b < word → add64 a (sub64 b a) ≡ b
add64-sub64 a b p q = omega arith

module _ (wake : ℕ → Chains → Chains) where
  -- One operation of the code.
  unfoldable pub use_counter : List Bool → ℕ → Use → Counter → Option Counter
  use_counter rounds fuel increments c = some (increment c).0
  use_counter rounds fuel decrements c = do (c', _) ← decrement wake fuel c; some c'
  use_counter rounds fuel (sets val) c = set_value wake fuel val c
  use_counter rounds fuel (waits a) c = do (c', _) ← subscribe_awaiter wake rounds fuel a c; some c'

module _ (wake : ℕ → Chains → Chains) (keeps : KeepsLinks wake)
    (still : (y : ℕ) (b : Chains) → (wake y b).head ≡ b.head) where
  release-Implements :
      (fuel : ℕ) (c : Counter) (t : Tally)
      → length t.line < fuel
      → Implements c t
      → (c' : Counter) × (release wake fuel c ≡ some c') × Implements c' (let_go true t)
  unfolding release
  release-Implements fuel c t lt h =
      let (b, run, log) = resume_chain-all wake keeps fuel c.chains t.line lt h.chained in
      (
        record c { chains = b },
        rw run refl,
        record {
          counted = h.counted;
          chained = release-empty wake keeps still fuel c (record c { chains = b }) (rw run refl);
          logged = log ∙ ap (λ l. l ++ t.line) h.logged;
        },
      )

  -- With fuel above the number of those who wait and two rounds that do not fail spuriously, each
  -- operation succeeds and does to the counter what it does to the tally: a count that comes down to
  -- zero, a value set that is not positive, and a subscription while the count is not positive resume
  -- all who wait, once each. An awaiter is a real one that does not wait already, and the count and the
  -- value set are words. The resumed code may change only the link of its own awaiter.
  pub use_counter-Implements :
      (rounds : List Bool) (fuel : ℕ) (u : Use) (c : Counter) (t : Tally)
      → 2 ≤ honest rounds
      → length t.line + 1 < fuel
      → IsAllowed u t
      → Implements c t
      → (c' : Counter) × (use_counter wake rounds fuel u c ≡ some c')
        × Implements c' (use_tally u t)
  unfolding use_counter increment decrement count_down set_value difference add_difference
      subscribe_awaiter enter check_count
  use_counter-Implements rounds fuel increments c t enough lt ok h = (
    (increment c).0,
    refl,
    record { counted = ap (λ n. add64 n 1) h.counted; chained = h.chained; logged = h.logged },
  )
  use_counter-Implements rounds fuel decrements c t enough lt ok h =
      let r = sub64 c.count 1 in
      let c1 : Counter = record c { count = r } in
      let h1 : Implements c1 (record t { count = sub64 t.count 1 }) = record {
        counted = ap (λ n. sub64 n 1) h.counted;
        chained = h.chained;
        logged = h.logged;
      } in
      let (c', run, done) =
        release-Implements fuel c1 (record t { count = sub64 t.count 1 }) (omega arith) h1 in
      elim (Bool-cases (r == 0)) [
        | inl e ↦ rw (rw h.counted at e) (c', rw (e, run) refl, done)
        | inr e ↦ rw (rw h.counted at e) (c1, rw e refl, h1)
      ]
  use_counter-Implements rounds fuel (sets val) c t enough lt ok h =
      let c1 : Counter = record c { count = val } in
      let h1 : Implements c1 (record t { count = val }) = record {
        counted = refl;
        chained = h.chained;
        logged = h.logged;
      } in
      let (c', run, done) =
        release-Implements fuel c1 (record t { count = val }) (omega arith) h1 in
      rw (add64-sub64 c.count val (omega (arith, h.counted, ok)) ok.1)
        (elim (Bool-cases (not_positive val)) [
          | inl e ↦ rw e (c', run, done)
          | inr e ↦ rw e (c1, refl, h1)
        ])
  use_counter-Implements rounds fuel (waits a) c t enough lt ok h =
      let (b, run, sub) = subscribe-Subscribed rounds a c.chains enough in
      let c1 : Counter = record c { chains = b } in
      let h1 : Implements c1 (record t { line = a ∷ t.line }) = record {
        counted = h.counted;
        chained = Subscribed-Segment a c.chains b t.line null sub ok.0 ok.1 h.chained;
        logged = sub.quiet ∙ h.logged;
      } in
      let (c', go, done) =
        release-Implements fuel c1 (record t { line = a ∷ t.line }) (omega arith) h1 in
      elim (Bool-cases (not_positive c.count)) [
        | inl e ↦ rw (rw h.counted at e) (c', rw (run, e, go) refl, done)
        | inr e ↦ rw (rw h.counted at e) (c1, rw (run, e) refl, h1)
      ]
