-- ===== src/Future/Transform.antt =====
-- `future_transform_context` of future.h: when a future is resolved, a function of its value
-- resolves another.
--
-- The function ends as `value()` does: it returns, or it throws an exception. `unready` is the
-- exception that `value()` of a future without a value throws.
use mathlib.Core.Option
use coroutines_classes.Prelude.{
  ℕ, ◌<◌, ◌≡◌, refl, ◌∙◌, ap, subst, List, Option, some, true, length, arith,
}
use coroutines_classes.Awaiter.{Chains}
use coroutines_classes.Awaiter.Resume.{KeepsLinks}
use coroutines_classes.Future.{
  Cell, Future, Stored, value, exception, Got, returned, thrown, not_ready, get_value, set_value,
}
use coroutines_classes.Future.Contract.{waiting, settled, settle, IsWaiting, IsSettled, Implements}
use coroutines_classes.Future.Resolve.{set_value-Implements}

-- `catch (...)`: what the promise is called with.
unfoldable pub caught {ℓ} : {A : Type ℓ} → ℕ → Got A → Stored A
caught unready (returned v) = value v
caught unready (thrown e) = exception e
caught unready not_ready = exception unready

-- `fn(this->value())`
unfoldable pub apply {ℓ ℓ'} : {A : Type ℓ} → {B : Type ℓ'} → (A → Got B) → Got A → Got B
apply fn (returned v) = fn v
apply fn (thrown e) = thrown e
apply fn not_ready = not_ready

module _ (wake : ℕ → Chains → Chains) (unready : ℕ) where
  -- `resume` of the context that holds the promise `p` of the future `d`.
  unfoldable pub transform_resume {ℓ ℓ'} :
      {A : Type ℓ} → {B : Type ℓ'} → (A → Got B) → ℕ → ℕ → Future A → Cell B → Option (Cell B)
  unfolding caught apply
  transform_resume fn fuel p f d =
      Option.map (λ (d', _). d') (set_value wake fuel p (caught unready (apply fn (get_value f))) d)

-- The functions one after the other.
abbrev pub both {ℓ ℓ' ℓ''} :
    {A : Type ℓ} → {B : Type ℓ'} → {C : Type ℓ''} → (A → Got B) → (B → Got C) → A → Got C
both f g v = apply g (f v)

settle-own {ℓ} :
    {A : Type ℓ}
    → (p : ℕ) (r : Stored A) (xs : List ℕ) → settle p r (waiting p xs) ≡ (settled r xs, true)
settle-own p r xs = ground arith

-- What is caught is what `value()` of the resolved future gives.
get_value-caught {ℓ ℓ'} :
    {B : Type ℓ}
    → {C : Type ℓ'} → (unready : ℕ) (g : B → Got C) (a : Got B) (c : Cell B)
    → c.future.stored ≡ caught unready a
    → caught unready (apply g (get_value c.future)) ≡ caught unready (apply g a)
unfolding get_value caught apply
get_value-caught unready g (returned v) c e = rw e refl
get_value-caught unready g (thrown x) c e = rw e refl
get_value-caught unready g not_ready c e = rw e refl

apply-both {ℓ ℓ' ℓ''} :
    {A : Type ℓ}
    → {B : Type ℓ'} → {C : Type ℓ''} → (f : A → Got B) (g : B → Got C) (a : Got A)
    → apply g (apply f a) ≡ apply (both f g) a
unfolding apply
apply-both f g (returned v) = refl
apply-both f g (thrown e) = refl
apply-both f g not_ready = refl

module _ (wake : ℕ → Chains → Chains) (keeps : KeepsLinks wake)
    (still : (y : ℕ) (b : Chains) → (wake y b).head ≡ b.head) (unready : ℕ) where
  -- It resolves the future, also if there is no value to apply the function to.
  transform_resume-IsSettled {ℓ ℓ'} :
      {A : Type ℓ}
      → {B : Type ℓ'} → (fn : A → Got B) (fuel p : ℕ) (f : Future A) (d : Cell B) (xs : List ℕ)
      → length xs < fuel
      → IsWaiting d p xs
      → (d' : Cell B) × (transform_resume wake unready fn fuel p f d ≡ some d')
        × IsSettled d' (caught unready (apply fn (get_value f))) xs
  unfolding transform_resume
  transform_resume-IsSettled fn fuel p f d xs lt h =
      let r = caught unready (apply fn (get_value f)) in
      let (d', run, done) = set_value-Implements wake keeps still fuel p r d (waiting p xs) lt h in
      (d', rw run refl, subst (λ v. Implements d' v.0) (settle-own p r xs) done)

  -- Transforming twice is transforming once, with the functions one after the other. `f` transforms
  -- the source into the result of the first future (of the promise `p`), and `g` that into the
  -- second (of the promise `q`): both are resolved, each with fuel above the number of those who
  -- wait for it, and the second as if one function had transformed the source, exceptions included.
  -- The resumed code may change only the link of its own awaiter.
  pub transform_resume-both {ℓ ℓ' ℓ''} :
      {A : Type ℓ}
      → {B : Type ℓ'} → {C : Type ℓ''}
      → (f : A → Got B) (g : B → Got C) (fuel p q : ℕ) (source : Future A) (c : Cell B) (d : Cell C)
        (xs ys : List ℕ)
      → length xs < fuel
      → length ys < fuel
      → IsWaiting c p xs
      → IsWaiting d q ys
      → (c' : Cell B) × (d' : Cell C) × (transform_resume wake unready f fuel p source c ≡ some c')
        × (transform_resume wake unready g fuel q c'.future d ≡ some d')
        × (transform_resume wake unready (both f g) fuel q source d ≡ some d')
        × IsSettled d' (caught unready (apply (both f g) (get_value source))) ys
  unfolding transform_resume
  transform_resume-both f g fuel p q source c d xs ys ltx lty hc hd =
      let (c', runc, donec) = transform_resume-IsSettled f fuel p source c xs ltx hc in
      let (d', rund, doned) = transform_resume-IsSettled (both f g) fuel q source d ys lty hd in
      let same =
        get_value-caught unready g (apply f (get_value source)) c' donec.result
        ∙ ap (caught unready) (apply-both f g (get_value source)) in
      (c', d', runc, rw same rund, rund, doned)
