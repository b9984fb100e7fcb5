-- ===== src/Awaiter/Resume.antt =====
-- `resume_chain_lk` of awaiter.h: the loop that resumes a whole chain.
use coroutines_classes.Prelude.{
  ℕ, zero, suc, ◌+◌, ◌<◌, ◌≡◌, refl, ◌≢◌, List, [], ◌∷◌, ◌++◌, arith, length, some, update, ◌==◌,
  if◌then◌else◌, Bool-cases, inl, inr, Distinct, append_assoc, append-nil, sym, ◌∙◌, ap,
}
use coroutines_classes.Awaiter.Segment.{Segment, Segment-agree, Segment-Distinct}
use coroutines_classes.Awaiter.{
  Chains, resume_chain_set_ready, resume_chain_lk, resume_chain, null, release,
}

-- The awaiters that are resumed: all but the one to be skipped.
abbrev pub woken : ℕ → List ℕ → List ℕ
woken skip [] = []
woken skip (x ∷ xs) = if x == skip then woken skip xs else x ∷ woken skip xs

-- What the loop relies on: `resume` of an awaiter may put that awaiter into a chain again, but it
-- leaves the links of the others alone. (The record of resumptions is the model's.)
pub record KeepsLinks (wake : ℕ → Chains → Chains) : Type 0 where
  pub links : (y : ℕ) (c : Chains) (q : ℕ) → q ≢ y → (wake y c).next q ≡ c.next q
  pub quiet : (y : ℕ) (c : Chains) → (wake y c).log ≡ c.log

module _ (wake : ℕ → Chains → Chains) (keeps : KeepsLinks wake) where
  pub release-others :
      (y skip : ℕ) (c : Chains) (q : ℕ) → q ≢ y → (release wake y skip c).next q ≡ c.next q
  unfolding release
  release-others y skip c q n =
      ground
        (arith, keeps.links y (record c { next = update c.next y null; log = c.log ++ y ∷ [] }) q)

  release-log :
      (y skip : ℕ) (c : Chains) → (release wake y skip c).log ≡ c.log ++ woken skip (y ∷ [])
  unfolding release
  release-log y skip c = ground (
    arith,
    append-nil c.log,
    keeps.quiet y (record c { next = update c.next y null; log = c.log ++ y ∷ [] }),
  )

  woken-cons :
      (skip x : ℕ) (xs : List ℕ) → woken skip (x ∷ []) ++ woken skip xs ≡ woken skip (x ∷ xs)
  woken-cons skip x xs = ground arith

  pub resume_chain_lk-loop :
      (fuel chain skip n : ℕ) (c : Chains) (xs : List ℕ)
      → length xs < fuel
      → Distinct xs
      → Segment c.next chain xs null
      → (c' : Chains) × (resume_chain_lk wake fuel chain skip n c ≡ some (n + length xs, c'))
        × (c'.log ≡ c.log ++ woken skip xs)
  unfolding resume_chain_lk
  resume_chain_lk-loop zero chain skip n c xs h d s = elim h [ ]
  resume_chain_lk-loop (suc fuel) chain skip n c [] h d s =
      (c, ground arith, sym (append-nil c.log))
  resume_chain_lk-loop (suc fuel) chain skip n c (x ∷ xs) h d s =
      let (c', run, done) =
        resume_chain_lk-loop fuel (c.next chain) skip (n + 1) (release wake chain skip c) xs
          (omega arith) d.1
          (Segment-agree c.next (release wake chain skip c).next chain (c.next chain) xs null
            (release-others chain skip c) (rw s.0 d.0) (rw s.0 s.2)) in
      (
        c',
        ground (arith, run),
        done ∙ rw (release-log chain skip c, append_assoc, woken-cons skip chain xs) (rw s.0),
      )

  pub woken-all : (next : ℕ → ℕ) (p : ℕ) (xs : List ℕ) → Segment next p xs null → woken null xs ≡ xs
  woken-all next p [] s = refl
  woken-all next p (x ∷ xs) s = ground (arith, woken-all next (next x) xs)

  -- A chain that stands for `xs` is resumed whole, the last subscriber first, but for the one to be
  -- skipped: the count is that of all its awaiters, and fuel above their number is enough. The
  -- resumed awaiters may subscribe again.
  pub resume_chain-Segment :
      (fuel skip : ℕ) (c : Chains) (xs : List ℕ)
      → length xs < fuel
      → Segment c.next c.head xs null
      → (c' : Chains) × (resume_chain wake fuel skip c ≡ some (length xs, c'))
        × (c'.log ≡ c.log ++ woken skip xs)
  unfolding resume_chain
  resume_chain-Segment fuel skip c xs h s =
      let (c', run, log) =
        resume_chain_lk-loop fuel c.head skip 0 (record c { head = null }) xs h
          (Segment-Distinct c.next c.head xs null s) s in
      (c', ground (arith, run), log)

  -- With no awaiter to skip, every awaiter of the chain is resumed once.
  pub resume_chain-all :
      (fuel : ℕ) (c : Chains) (xs : List ℕ)
      → length xs < fuel
      → Segment c.next c.head xs null
      → (c' : Chains) × (resume_chain wake fuel null c ≡ some (length xs, c'))
        × (c'.log ≡ c.log ++ xs)
  resume_chain-all fuel c xs h s =
      let (c', run, log) = resume_chain-Segment fuel null c xs h s in
      (c', run, log ∙ ap (◌++◌ c.log) (woken-all c.next c.head xs s))

  release-head :
      ((y : ℕ) (c : Chains) → (wake y c).head ≡ c.head)
      → (y skip : ℕ) (c : Chains) → (release wake y skip c).head ≡ c.head
  unfolding release
  release-head still y skip c =
      ground (arith, still y (record c { next = update c.next y null; log = c.log ++ y ∷ [] }))

  pub resume_chain_lk-head :
      ((y : ℕ) (c : Chains) → (wake y c).head ≡ c.head)
      → (fuel chain skip n : ℕ) (c : Chains) (m : ℕ) (c' : Chains)
      → resume_chain_lk wake fuel chain skip n c ≡ some (m, c')
      → c'.head ≡ c.head
  unfolding resume_chain_lk
  resume_chain_lk-head still zero chain skip n c m c' e = cc
  resume_chain_lk-head still (suc fuel) chain skip n c m c' e = elim (Bool-cases (chain == null)) [
    | inl stop ↦ ground arith
    | inr go ↦
        resume_chain_lk-head still fuel (c.next chain) skip (n + 1) (release wake chain skip c) m c'
          (ground arith)
        ∙ release-head still chain skip c
  ]

  -- `resume_chain_set_ready` resumes every awaiter of the chain once, and where the resumed awaiters
  -- leave the head alone it ends marked with the ready state.
  pub resume_chain_set_ready-all :
      (fuel ready_state : ℕ) (c : Chains) (xs : List ℕ)
      → ((y : ℕ) (b : Chains) → (wake y b).head ≡ b.head)
      → length xs < fuel
      → Segment c.next c.head xs null
      → (c' : Chains) × (resume_chain_set_ready wake fuel ready_state null c ≡ some (length xs, c'))
        × (c'.log ≡ c.log ++ xs)
        × (c'.head ≡ ready_state)
  unfolding resume_chain_set_ready
  resume_chain_set_ready-all fuel ready_state c xs still h s =
      let (c', run, log) =
        resume_chain_lk-loop fuel c.head null 0 (record c { head = ready_state }) xs h
          (Segment-Distinct c.next c.head xs null s) s in
      (
        c',
        ground (arith, run),
        log ∙ ap (◌++◌ c.log) (woken-all c.next c.head xs s),
        resume_chain_lk-head still fuel c.head null 0 _ _ c' run,
      )
