-- ===== src/Future/Handles.antt =====
-- `resolve_resume` of future.h: one of the awaiters is left to the caller, by its handle.
use coroutines_classes.Prelude.{
  ℕ, zero, suc, ◌<◌, ◌≡◌, refl, List, [], ◌∷◌, ◌++◌, Option, some, none, Bool, true, false, length,
  arith, update, Bool-cases, inl, inr, ◌∙◌, ap, sym, append-nil, append_assoc, Distinct, All,
  NotMem, subst,
}
use coroutines_classes.Awaiter.{Chains, null, disabled_addr, resume}
use coroutines_classes.Awaiter.Resume.{KeepsLinks, resume_chain_lk-loop, woken-all}
use coroutines_classes.Awaiter.Segment.{Segment, Segment-agree, Segment-Distinct, Segment-update}
use coroutines_classes.Future.{Cell, resume_handles, resolve_resume}

module _ (direct : ℕ → Bool) where
  -- Of the awaiters `xs`, those of `log` were resumed, and the one of the handle was left out: those in
  -- front of it have no handle.
  abbrev pub IsLeftOut : Option ℕ → List ℕ → List ℕ → Type 0
  IsLeftOut none xs log = All (λ x. direct x ≡ false) xs × (log ≡ xs)
  IsLeftOut (some h) xs log =
      (before after : List ℕ) × (xs ≡ before ++ h ∷ after)
      × All (λ x. direct x ≡ false) before
      × (direct h ≡ true)
      × (log ≡ before ++ after)

  pub IsLeftOut-cons :
      (x : ℕ) (h : Option ℕ) (xs log : List ℕ)
      → direct x ≡ false
      → IsLeftOut h xs log
      → IsLeftOut h (x ∷ xs) (x ∷ log)
  IsLeftOut-cons x none xs log d (ds, e) = ((d, ds), ap (◌∷◌ x) e)
  IsLeftOut-cons x (some h) xs log d (before, after, e, ds, dh, l) =
      (x ∷ before, after, ap (◌∷◌ x) e, (d, ds), dh, ap (◌∷◌ x) l)

  module _ (wake : ℕ → Chains → Chains) (keeps : KeepsLinks wake) where
    resumed-Segment :
        (x : ℕ) (c : Chains) (xs : List ℕ)
        → NotMem x xs
        → Segment c.next (c.next x) xs null
        → Segment (resume wake x (record c { next = update c.next x null })).next (c.next x) xs null
    unfolding resume
    resumed-Segment x c xs n s =
        Segment-agree c.next _ x (c.next x) xs null
          (λ q k. ground (
            arith,
            keeps.links x (record c { next = update c.next x null; log = c.log ++ x ∷ [] }) q,
          ))
          n s

    resume-log :
        (x : ℕ) (c : Chains)
        → (resume wake x (record c { next = update c.next x null })).log ≡ c.log ++ x ∷ []
    unfolding resume
    resume-log x c = keeps.quiet x _

    resume_handles-IsLeftOut :
        (fuel x : ℕ) (c : Chains) (xs : List ℕ)
        → length xs < fuel
        → Distinct xs
        → Segment c.next x xs null
        → (h : Option ℕ) × (c' : Chains) × (log : List ℕ) × (resume_handles wake direct fuel x c
            ≡ some (h, c'))
          × (c'.log ≡ c.log ++ log)
          × IsLeftOut h xs log
    unfolding resume_handles
    resume_handles-IsLeftOut zero x c xs lt d s = elim lt [ ]
    resume_handles-IsLeftOut (suc fuel) x c [] lt d s =
        (none, c, [], ground arith, sym (append-nil c.log), (tt, refl))
    resume_handles-IsLeftOut (suc fuel) x c (y ∷ ys) lt d s =
        let apart : NotMem x ys = subst (λ z. NotMem z ys) (sym s.0) d.0 in
        let tail : Segment c.next (c.next x) ys null =
          subst (λ z. Segment c.next (c.next z) ys null) (sym s.0) s.2 in
        elim (Bool-cases (direct x)) [
          | inl e ↦
              let unlinked : Chains = record c { next = update c.next x null } in
              let seg = Segment-update c.next x null (c.next x) ys null apart tail in
              let (c', run, log) =
                resume_chain_lk-loop wake keeps fuel (c.next x) null 0 unlinked ys (omega arith) d.1
                  seg in
              (
                some x,
                c',
                ys,
                ground (arith, run, e),
                log ∙ ap (◌++◌ c.log) (woken-all wake keeps unlinked.next (c.next x) ys seg),
                ([], ys, ap (λ z. z ∷ ys) (sym s.0), tt, e, refl),
              )
          | inr e ↦
              let (h, c', log, run, l, out) =
                resume_handles-IsLeftOut fuel (c.next x)
                  (resume wake x (record c { next = update c.next x null })) ys (omega arith) d.1
                  (resumed-Segment x c ys apart tail) in
              (
                h,
                c',
                x ∷ log,
                ground (arith, run, e),
                l ∙ ap (λ l'. l' ++ log) (resume-log x c) ∙ append_assoc c.log (x ∷ []) log,
                subst (λ z. IsLeftOut h (z ∷ ys) (x ∷ log)) s.0 (IsLeftOut-cons x h ys log e out),
              )
        ]

    -- `resolve_resume` resumes every awaiter of the chain once, the last to
    -- come first, but for the first that has a handle, which is returned; fuel above the number of
    -- the awaiters is enough. (The resumed code may change only the link of its own awaiter.)
    pub resolve_resume-IsLeftOut {ℓ} :
        {A : Type ℓ} (fuel : ℕ) (c : Cell A) (xs : List ℕ)
        → length xs < fuel
        → Segment c.future.chains.next c.future.chains.head xs null
        → (h : Option ℕ) × (c' : Cell A) × (log : List ℕ) × (resolve_resume wake direct fuel c
            ≡ some (h, c'))
          × (c'.future.chains.log ≡ c.future.chains.log ++ log)
          × IsLeftOut h xs log
          × (c'.future.stored ≡ c.future.stored)
    unfolding resolve_resume
    resolve_resume-IsLeftOut fuel c xs lt s =
        let f = c.future.chains in
        let (h, b, log, run, l, out) =
          resume_handles-IsLeftOut fuel f.head (record f { head = disabled_addr }) xs lt
            (Segment-Distinct f.next f.head xs null s) s in
        (
          h,
          record c { future = record c.future { chains = b } },
          log,
          ground (arith, run),
          l,
          out,
          refl,
        )
