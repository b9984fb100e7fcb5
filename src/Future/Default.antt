-- ===== src/Future/Default.antt =====
-- `promise_with_default` of future.h: a promise that sets a default value when it is destroyed.
--
-- `self_moved` is what a value is after it was moved to itself, which its type decides.
use coroutines_classes.Prelude.{
  ℕ, ◌<◌, ◌≡◌, ◌≢◌, refl, List, Option, some, ◌==◌, ◌>>=◌, if◌then◌else◌, length, subst, ==_ne,
  ==_refl,
}
use coroutines_classes.Awaiter.{Chains}
use coroutines_classes.Awaiter.Resume.{KeepsLinks}
use coroutines_classes.Future.{Cell, value, set_value, move_assign}
use coroutines_classes.Future.Contract.{waiting, operate, assigns, IsWaiting, IsSettled, Implements}
use coroutines_classes.Future.Resolve.{set_value-Implements}
use coroutines_classes.Future.Steps.{move_assign-Implements}

pub record PromiseWithDefault {ℓ} (A : Type ℓ) : Type ℓ where
  pub promise : ℕ
  pub def : A

module _ {ℓ} {A : Type ℓ} (wake : ℕ → Chains → Chains) where
  -- The destructor.
  unfoldable pub destroy_default : ℕ → PromiseWithDefault A → Cell A → Option (Cell A)
  destroy_default fuel d c = do (c', _) ← set_value wake fuel d.promise (value d.def) c; some c'

  -- The assignment that moves `e` to `d`.
  unfoldable pub assign_default :
      (A → A)
      → ℕ
      → PromiseWithDefault A
      → PromiseWithDefault A
      → Cell A
      → Option (PromiseWithDefault A × Cell A)
  assign_default self_moved fuel d e c =
      let moved = (do
        c' ← move_assign wake fuel d.promise e.promise c
        some (record d { def = self_moved d.def }, c')) in
      if d.promise == e.promise then some (d, c) else moved

module _ {ℓ} {A : Type ℓ} (wake : ℕ → Chains → Chains) (keeps : KeepsLinks wake)
    (still : (y : ℕ) (b : Chains) → (wake y b).head ≡ b.head) where
  hands_over :
      (p q : ℕ) (xs : List ℕ)
      → p ≢ q
      → (operate {A = A} (assigns p q) (waiting q xs)).0 ≡ waiting p xs
  hands_over p q xs n = rw (==_ne p q n, ==_refl q) refl

  -- Where a promise that refers to the future is moved by assignment to another one, the default value
  -- does not move with it: when the target is destroyed, the future gets the target's own former
  -- default, moved to itself, and those who wait are resumed.
  pub destroy-assign_default :
      (self_moved : A → A) (fuel : ℕ) (d e : PromiseWithDefault A) (c : Cell A) (xs : List ℕ)
      → length xs < fuel
      → d.promise ≢ e.promise
      → IsWaiting c e.promise xs
      → (d' : PromiseWithDefault A) × (c1 c2 : Cell A) × (assign_default wake self_moved fuel d e c
          ≡ some (d', c1))
        × (destroy_default wake fuel d' c1 ≡ some c2)
        × IsSettled c2 (value (self_moved d.def)) xs
  unfolding assign_default destroy_default
  destroy-assign_default self_moved fuel d e c xs lt n h =
      let d' : PromiseWithDefault A = record d { def = self_moved d.def } in
      let (c1, run1, done1) =
        move_assign-Implements wake keeps still fuel d.promise e.promise c (waiting e.promise xs) lt
          h in
      let held : IsWaiting c1 d.promise xs =
        subst (Implements c1) (hands_over d.promise e.promise xs n) done1 in
      let (c2, run2, done2) =
        set_value-Implements wake keeps still fuel d.promise (value (self_moved d.def)) c1
          (waiting d.promise xs) lt held in
      (
        d',
        c1,
        c2,
        rw (==_ne d.promise e.promise n, run1) refl,
        rw run2 refl,
        (rw (==_refl d.promise) at done2),
      )
