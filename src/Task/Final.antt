-- ===== src/Task/Final.antt =====
-- `final_awaiter` of task.h: those who wait for a task are resumed at its end.
use coroutines_classes.Prelude.{
  ℕ, zero, suc, ◌<◌, ◌≡◌, refl, List, [], ◌∷◌, ◌++◌, Option, some, none, Bool, length, arith,
  Bool-cases, inl, inr, ◌∙◌, ap, sym, append-nil, append_assoc, Distinct, NotMem, subst,
}
use coroutines_classes.Awaiter.{Chains, null, disabled_addr, resume}
use coroutines_classes.Awaiter.Resume.{KeepsLinks}
use coroutines_classes.Awaiter.Segment.{Segment, Segment-agree, Segment-Distinct}
use coroutines_classes.Future.Handles.{IsLeftOut, IsLeftOut-cons}
use coroutines_classes.Task.{resume_rest, resume_until, final_resume}

module _ (wake : ℕ → Chains → Chains) (keeps : KeepsLinks wake) where
  -- The rest of the chain is as it was when an awaiter has been resumed.
  resume-rest_of :
      (x y : ℕ) (c : Chains) (ys : List ℕ)
      → Distinct (y ∷ ys)
      → Segment c.next x (y ∷ ys) null
      → Segment (resume wake x c).next (c.next x) ys null
        × ((resume wake x c).log ≡ c.log ++ y ∷ [])
  unfolding resume
  resume-rest_of x y c ys d s =
      let c' : Chains = record c { log = c.log ++ x ∷ [] } in
      let tail : Segment c.next (c.next x) ys null =
        subst (λ z. Segment c.next (c.next z) ys null) (sym s.0) s.2 in
      (
        Segment-agree c.next _ x (c.next x) ys null (keeps.links x c')
            (subst (λ z. NotMem z ys) (sym s.0) d.0) tail,
        keeps.quiet x c' ∙ ap (λ z. c.log ++ z ∷ []) s.0,
      )

  resume_rest-all :
      (fuel x : ℕ) (c : Chains) (xs : List ℕ)
      → length xs < fuel
      → Distinct xs
      → Segment c.next x xs null
      → (c' : Chains) × (resume_rest wake fuel x c ≡ some c') × (c'.log ≡ c.log ++ xs)
  unfolding resume_rest
  resume_rest-all zero x c xs lt d s = elim lt [ ]
  resume_rest-all (suc fuel) x c [] lt d s = (c, ground arith, sym (append-nil c.log))
  resume_rest-all (suc fuel) x c (y ∷ ys) lt d s =
      let (tail, log) = resume-rest_of x y c ys d s in
      let (c', run, l) =
        resume_rest-all fuel (c.next x) (resume wake x c) ys (omega arith) d.1 tail in
      (
        c',
        ground (arith, run, s.0, s.1),
        l ∙ ap (λ z. z ++ ys) log ∙ append_assoc c.log (y ∷ []) ys,
      )

  module _ (direct : ℕ → Bool) where
    resume_until-IsLeftOut :
        (fuel x : ℕ) (c : Chains) (xs : List ℕ)
        → length xs < fuel
        → Distinct xs
        → Segment c.next x xs null
        → (h : Option ℕ) × (c' : Chains) × (log : List ℕ) × (resume_until wake direct fuel x c
            ≡ some (h, c'))
          × (c'.log ≡ c.log ++ log)
          × IsLeftOut direct h xs log
    unfolding resume_until
    resume_until-IsLeftOut zero x c xs lt d s = elim lt [ ]
    resume_until-IsLeftOut (suc fuel) x c [] lt d s =
        (none, c, [], ground arith, sym (append-nil c.log), (tt, refl))
    resume_until-IsLeftOut (suc fuel) x c (y ∷ ys) lt d s = elim (Bool-cases (direct x)) [
      | inl e ↦
          let tail : Segment c.next (c.next x) ys null =
            subst (λ z. Segment c.next (c.next z) ys null) (sym s.0) s.2 in
          let (c', run, log) = resume_rest-all fuel (c.next x) c ys (omega arith) d.1 tail in
          (
            some x,
            c',
            ys,
            ground (arith, run, e, s.0, s.1),
            log,
            ([], ys, ap (λ z. z ∷ ys) (sym s.0), tt, e, refl),
          )
      | inr e ↦
          let (tail, step) = resume-rest_of x y c ys d s in
          let (h, c', log, run, l, out) =
            resume_until-IsLeftOut fuel (c.next x) (resume wake x c) ys (omega arith) d.1 tail in
          (
            h,
            c',
            y ∷ log,
            ground (arith, run, e, s.0, s.1),
            l ∙ ap (λ z. z ++ log) step ∙ append_assoc c.log (y ∷ []) log,
            IsLeftOut-cons direct y h ys log (ap direct (sym s.0) ∙ e) out,
          )
    ]

    -- At the end of a task each of those who wait is resumed once, the last to come first, but for
    -- the first that has a handle, which is returned. Fuel above their number is enough, and the
    -- resumed code may change only the link of its own awaiter.
    pub final_resume-IsLeftOut :
        (fuel : ℕ) (c : Chains) (xs : List ℕ)
        → length xs < fuel
        → Segment c.next c.head xs null
        → (h : Option ℕ) × (c' : Chains) × (log : List ℕ) × (final_resume wake direct fuel c
            ≡ some (h, c'))
          × (c'.log ≡ c.log ++ log)
          × IsLeftOut direct h xs log
    unfolding final_resume
    final_resume-IsLeftOut fuel c xs lt s =
        resume_until-IsLeftOut fuel c.head (record c { head = disabled_addr }) xs lt
          (Segment-Distinct c.next c.head xs null s) s
