-- ===== src/Future/Listening.antt =====
-- `abstract_listening_awaiter` and `co_awaiter::sync` of awaiter.h, and `discard` of future.h: ways to
-- wait for a future of future.h without a coroutine.
--
-- A function is given in the part that asks whether the future is ready, and the part that
-- subscribes; another thread can resolve the future between them.
use coroutines_classes.Prelude.{
  ℕ, ◌<◌, ◌≤◌, ◌≡◌, ◌≢◌, refl, sym, ◌∙◌, ap, subst, List, [], ◌∷◌, ◌++◌, Option, some, Bool, true,
  false, if◌then◌else◌, ◌>>=◌, length, NotMem,
}
use coroutines_classes.Awaiter.{Chains, null, disabled_addr, instance_addr}
use coroutines_classes.Awaiter.Resume.{KeepsLinks}
use coroutines_classes.Awaiter.Segment.{Segment}
use coroutines_classes.Awaiter.Subscribe.{honest}
use coroutines_classes.Future.{Cell, Stored, ready, pending, subscribe_awaiter, set_value}
use coroutines_classes.Future.Contract.{
  View, waiting, settled, subscribes, IsWaiting, IsSettled, Implements, IsAllowed,
}
use coroutines_classes.Future.Steps.{subscribe_awaiter-Implements}
use coroutines_classes.Future.Runs.{
  Reaches, Reaches-IsSettled, observe-Implements, set_value-IsSettled,
}

module _ {ℓ} {A : Type ℓ} where
  -- The awaiter `x` is resumed by the one that waits with it.
  abbrev pub resume_self : ℕ → Cell A → Cell A
  resume_self x c =
      let f = c.future in
      record c { future = record f { chains = record f.chains { log = f.chains.log ++ x ∷ [] } } }

  -- The second part of `handle_suspend`, which does not look at what `subscribe_awaiter` returns.
  unfoldable pub handle_subscribe : List Bool → ℕ → Cell A → Option (Cell A)
  handle_subscribe rounds x c = do (c', _) ← subscribe_awaiter rounds x c; some c'

  unfoldable pub handle_suspend : List Bool → ℕ → Cell A → Option (Cell A)
  unfolding handle_subscribe
  handle_suspend rounds x c =
      let later = handle_subscribe rounds x c in
      if ready c.future then some (resume_self x c) else later

  -- `discard`: the awaiter is resumed where it could not subscribe.
  unfoldable pub discard : List Bool → ℕ → Cell A → Option (Cell A)
  discard rounds x c = do
    (c', waits) ← subscribe_awaiter rounds x c
    some (if waits then c' else resume_self x c')

  -- The second part of `sync`: whether the thread has to wait for the flag of its awaiter.
  unfoldable pub sync_subscribe : List Bool → ℕ → Cell A → Option (Cell A × Bool)
  sync_subscribe rounds x c = subscribe_awaiter rounds x c

  unfoldable pub sync : List Bool → ℕ → Cell A → Option (Cell A × Bool)
  unfolding sync_subscribe
  sync rounds x c =
      let later = sync_subscribe rounds x c in if ready c.future then some (c, false) else later

  -- The awaiter waits, or it is resumed as the one after `xs`.
  abbrev pub IsAnswered : ℕ → View A → Cell A → Type 0
  IsAnswered x (waiting p xs) c = Segment c.future.chains.next c.future.chains.head (x ∷ xs) null
  IsAnswered x (settled r xs) c = c.future.chains.log ≡ xs ++ x ∷ []

module _ {ℓ} {A : Type ℓ} (wake : ℕ → Chains → Chains) (keeps : KeepsLinks wake)
    (still : (y : ℕ) (b : Chains) → (wake y b).head ≡ b.head) where
  subscribed-same :
      (o : Option (Cell A × Bool)) (b : Bool) (c c' : Cell A)
      → o ≡ some (c, b)
      → (do (d, _) ← o; some d) ≡ some c'
      → c ≡ c'
  subscribed-same o b c c' e f =
      let g : some c ≡ some c' = ap (λ z. do (d, _) ← z; some d) (sym e) ∙ f in cc

  -- A lost callback. The future is not ready when `handle_suspend` asks; then its promise is used, and
  -- only then does the awaiter `x` subscribe. It is not subscribed, and no sequence of allowed
  -- operations that follows resumes it. The resumed code may change only the link of its own awaiter.
  pub handle_suspend-lost :
      (rounds : List Bool) (fuel x p : ℕ) (r : Stored A) (c c1 c2 c3 : Cell A) (xs : List ℕ)
      (w : View A)
      → 2 ≤ honest rounds
      → length xs < fuel
      → x ≢ null
      → x ≢ disabled_addr
      → x ≢ instance_addr
      → NotMem x xs
      → IsWaiting c p xs
      → set_value wake fuel p r c ≡ some (c1, true)
      → c1.future.chains.next x ≡ null
      → handle_subscribe rounds x c1 ≡ some c2
      → Reaches wake c2 (settled r xs) c3 w
      → (ready c.future ≡ false) × NotMem x c3.future.chains.log
  unfolding handle_subscribe
  handle_suspend-lost rounds fuel x p r c c1 c2 c3 xs w enough lt n d i new h run link late later =
      let done1 : IsSettled c1 r xs =
        set_value-IsSettled wake keeps still fuel p r c c1 (waiting p xs) lt h run in
      let (c2', run2, done2) =
        subscribe_awaiter-Implements wake keeps still rounds x c1 (settled r xs) enough
          (n, d, i, tt, link) done1 in
      let same : c2' ≡ c2 = subscribed-same _ false c2' c2 run2 late in
      let done3 =
        Reaches-IsSettled wake keeps still r xs c2 c3 w (subst (λ z. IsSettled z r xs) same done2)
          later in
      ((observe-Implements c (waiting p xs) h).1, subst (NotMem x) (sym done3.resumed) new)

  -- Whatever happens before it subscribes, `discard` leaves no awaiter behind: on a future that is
  -- still pending the awaiter waits in its chain, and on one that has been resolved it is resumed
  -- at once. `sync` waits for the flag of its awaiter in the first case only. The resumed code may
  -- change only the link of its own awaiter.
  pub discard-IsAnswered :
      (rounds : List Bool) (x : ℕ) (c : Cell A) (v : View A)
      → 2 ≤ honest rounds
      → IsAllowed (subscribes x) c v
      → Implements c v
      → (c1 : Cell A) × (c2 : Cell A) × (discard rounds x c ≡ some c1)
        × IsAnswered x v c1
        × (sync_subscribe rounds x c ≡ some (c2, pending c.future))
  unfolding discard sync_subscribe
  discard-IsAnswered rounds x c (waiting p xs) enough ok h =
      let (c', run, done) =
        subscribe_awaiter-Implements wake keeps still rounds x c (waiting p xs) enough ok h in
      let (_, _, waits, _) = observe-Implements c (waiting p xs) h in
      (c', c', rw run refl, done.chained, rw (run, waits) refl)
  discard-IsAnswered rounds x c (settled r xs) enough ok h =
      let (c', run, done) =
        subscribe_awaiter-Implements wake keeps still rounds x c (settled r xs) enough ok h in
      let (_, _, waits, _) = observe-Implements c (settled r xs) h in
      (resume_self x c', c', rw run refl, ap (λ l. l ++ x ∷ []) done.resumed, rw (run, waits) refl)
