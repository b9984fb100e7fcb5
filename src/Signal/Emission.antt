-- ===== src/Signal/Emission.antt =====
-- One emission of signal.h: who is resumed, and who listens after it.
use coroutines_classes.Prelude.{
  ℕ, zero, suc, ◌+◌, ◌<◌, ◌≤◌, ◌≡◌, ◌≢◌, refl, sym, ◌∙◌, ap, subst, List, [], ◌∷◌, ◌++◌, Option,
  none, some, Bool, true, false, if◌then◌else◌, length, NotMem, Distinct, All, arith, append_assoc,
  append-nil, Bool-cases, inl, inr, update,
}
use coroutines_classes.Awaiter.{Chains, null, resume, resume_chain, resume_chain_lk, release}
use coroutines_classes.Awaiter.Segment.{Segment, Segment-agree, Segment-update, Segment-Distinct}
use coroutines_classes.Awaiter.Subscribe.{
  honest, subscribe-Subscribed, Subscribed, Subscribed-Segment,
}
use coroutines_classes.Awaiter.Resume.{KeepsLinks}
use coroutines_classes.Signal.{State, subscribe_again, listener_resume, emit, destroy, await_resume}

pub subscribe_again-Subscribed :
    (rounds : List Bool) (x : ℕ) (c : Chains)
    → 2 ≤ honest rounds
    → Subscribed x c (subscribe_again rounds x c)
unfolding subscribe_again
subscribe_again-Subscribed rounds x c enough =
    let (c', run, done) = subscribe-Subscribed rounds x c enough in rw (subscribe_again, run) done

-- Those who listen after an emission to `xs`: the ones that stay, in front of those who are there
-- already.
abbrev pub rejoin : (ℕ → Bool) → List ℕ → List ℕ → List ℕ
rejoin stays [] ys = ys
rejoin stays (x ∷ xs) ys = rejoin stays xs (if stays x then x ∷ ys else ys)

abbrev Apart : List ℕ → List ℕ → Type 0
Apart xs ys = All (λ x. NotMem x ys) xs

Apart-cons : (x : ℕ) (xs ys : List ℕ) → NotMem x xs → Apart xs ys → Apart xs (x ∷ ys)
Apart-cons x [] ys n h = tt
Apart-cons x (z ∷ xs) ys n h = ((λ e. n.0 (sym e), h.0), Apart-cons x xs ys n.1 h.1)

Apart-nil : (xs : List ℕ) → Apart xs []
Apart-nil [] = tt
Apart-nil (x ∷ xs) = (tt, Apart-nil xs)

Apart-rejoins :
    (b : Bool) (x : ℕ) (xs ys : List ℕ)
    → NotMem x xs
    → Apart xs ys
    → Apart xs (if b then x ∷ ys else ys)
Apart-rejoins true x xs ys n h = Apart-cons x xs ys n h
Apart-rejoins false x xs ys n h = h

module _ {ℓ} {A : Type ℓ} (fn : ℕ → A → Bool) (rounds : List Bool)
    (enough : 2 ≤ honest rounds) where
  stays : Option A → ℕ → Bool
  stays none x = false
  stays (some v) x = fn x v

  listener_resume-KeepsLinks : (o : Option A) → KeepsLinks (listener_resume fn rounds o)
  unfolding listener_resume
  listener_resume-KeepsLinks none = record { links = λ y c q n. refl; quiet = λ y c. refl }
  listener_resume-KeepsLinks (some v) = record {
    links = λ y c q n. ground (arith, (subscribe_again-Subscribed rounds y c enough).others q n);
    quiet = λ y c. ground (arith, (subscribe_again-Subscribed rounds y c enough).quiet);
  }

  listener_resume-rejoins :
      (o : Option A) (x : ℕ) (c : Chains) (ys : List ℕ)
      → x ≢ null
      → NotMem x ys
      → Segment c.next c.head ys null
      → Segment
          (listener_resume fn rounds o x c).next
          (listener_resume fn rounds o x c).head
          (if stays o x then x ∷ ys else ys)
          null
  unfolding listener_resume stays
  listener_resume-rejoins none x c ys n new seg = seg
  listener_resume-rejoins (some v) x c ys n new seg = elim (Bool-cases (fn x v)) [
    | inl e ↦
        rw e (
          Subscribed-Segment x c _ ys null (subscribe_again-Subscribed rounds x c enough) n new seg)
    | inr e ↦ rw e seg
  ]

  -- What `release` hands to the listener.
  abbrev taken : ℕ → Chains → Chains
  taken x c = record c { next = update c.next x null; log = c.log ++ x ∷ [] }

  release-listener :
      (o : Option A) (x : ℕ) (c : Chains)
      → x ≢ null
      → release (listener_resume fn rounds o) x null c ≡ listener_resume fn rounds o x (taken x c)
  unfolding release resume
  release-listener o x c n = ground arith

  release-step :
      (o : Option A) (x : ℕ) (c : Chains) (xs ys : List ℕ)
      → x ≢ null
      → NotMem x xs
      → NotMem x ys
      → Apart xs ys
      → Segment c.next (c.next x) xs null
      → Segment c.next c.head ys null
      → (c1 : Chains) × (release (listener_resume fn rounds o) x null c ≡ c1)
        × Segment c1.next (c.next x) xs null
        × Segment c1.next c1.head (if stays o x then x ∷ ys else ys) null
        × Apart xs (if stays o x then x ∷ ys else ys)
        × (c1.log ≡ c.log ++ x ∷ [])
  release-step o x c xs ys n newx newy apart s t =
      let keeps = listener_resume-KeepsLinks o in
      let t' = Segment-update c.next x null c.head ys null newy t in
      let s' = Segment-update c.next x null (c.next x) xs null newx s in
      (
        listener_resume fn rounds o x (taken x c),
        release-listener o x c n,
        Segment-agree (taken x c).next _ x (c.next x) xs null (keeps.links x (taken x c)) newx s',
        listener_resume-rejoins o x (taken x c) ys n newy t',
        Apart-rejoins (stays o x) x xs ys newx apart,
        keeps.quiet x (taken x c),
      )

  -- The loop resumes `xs`; those of `ys` listen already.
  emit-loop :
      (o : Option A) (fuel chain n : ℕ) (c : Chains) (xs ys : List ℕ)
      → length xs < fuel
      → Distinct xs
      → Apart xs ys
      → Segment c.next chain xs null
      → Segment c.next c.head ys null
      → (c' : Chains) × (resume_chain_lk (listener_resume fn rounds o) fuel chain null n c
          ≡ some (n + length xs, c'))
        × (c'.log ≡ c.log ++ xs)
        × Segment c'.next c'.head (rejoin (stays o) xs ys) null
  unfolding resume_chain_lk
  emit-loop o zero chain n c xs ys lt d apart s t = elim lt [ ]
  emit-loop o (suc fuel) chain n c [] ys lt d apart s t =
      (c, ground arith, sym (append-nil c.log), t)
  emit-loop o (suc fuel) chain n c (x ∷ xs) ys lt d apart s t =
      let (c1, call, s1, t1, apart1, log1) =
        release-step o chain c xs ys (rw s.0 s.1) (rw s.0 d.0) (rw s.0 apart.0) apart.1 (rw s.0 s.2)
          t in
      let (c', run, log, seg) =
        emit-loop o fuel (c.next chain) (n + 1) c1 xs _ (omega arith) d.1 apart1 s1 t1 in
      (
        c',
        rw call (ground (arith, run, s.0, s.1)),
        log
            ∙ ap (λ l. l ++ xs) log1
            ∙ append_assoc c.log (chain ∷ []) xs
            ∙ ap (λ z. c.log ++ z ∷ xs) s.0,
        subst
            (λ z.
              Segment c'.next c'.head (rejoin (stays o) xs (if stays o z then z ∷ ys else ys)) null)
            s.0 seg,
      )

  -- The whole loop of an emission, or of the destructor.
  resume_chain-calls :
      (o : Option A) (fuel : ℕ) (c : Chains) (xs : List ℕ)
      → length xs < fuel
      → Segment c.next c.head xs null
      → (c' : Chains) × (resume_chain (listener_resume fn rounds o) fuel null c
          ≡ some (length xs, c'))
        × (c'.log ≡ c.log ++ xs)
        × Segment c'.next c'.head (rejoin (stays o) xs []) null
  unfolding resume_chain
  resume_chain-calls o fuel c xs lt s =
      let (c', run, log, done) =
        emit-loop o fuel c.head 0 (record c { head = null }) xs [] lt
          (Segment-Distinct c.next c.head xs null s) (Apart-nil xs) s refl in
      (c', ground (arith, run), log, done)

  rejoin-nobody : (xs ys : List ℕ) → rejoin (stays none) xs ys ≡ ys
  unfolding stays
  rejoin-nobody [] ys = refl
  rejoin-nobody (x ∷ xs) ys = rejoin-nobody xs ys

  rejoin-stays :
      (v : A) (xs ys : List ℕ) → rejoin (stays (some v)) xs ys ≡ rejoin (λ x. fn x v) xs ys
  unfolding stays
  rejoin-stays v xs ys = refl

  -- An emission resumes each of those who listen once, the last to come first, and those who
  -- stay listen on, in the opposite order.
  pub emit-calls :
      (fuel : ℕ) (v : A) (s : State A) (xs : List ℕ)
      → length xs < fuel
      → Segment s.chains.next s.chains.head xs null
      → (s' : State A) × (emit fn rounds fuel v s ≡ some s')
        × (s'.cur_val ≡ some v)
        × (s'.chains.log ≡ s.chains.log ++ xs)
        × Segment s'.chains.next s'.chains.head (rejoin (λ x. fn x v) xs []) null
  unfolding emit
  emit-calls fuel v s xs lt seg =
      let (c', run, log, done) = resume_chain-calls (some v) fuel s.chains xs lt seg in
      (
        record { chains = c'; cur_val = some v },
        rw run refl,
        refl,
        log,
        subst (λ l. Segment c'.next c'.head l null) (rejoin-stays v xs []) done,
      )

  -- The destructor of the state resumes each of those who listen once, and nobody stays.
  pub destroy-calls :
      (fuel : ℕ) (s : State A) (xs : List ℕ)
      → length xs < fuel
      → Segment s.chains.next s.chains.head xs null
      → (c' : Chains) × (destroy fn rounds fuel s ≡ some c')
        × (c'.log ≡ s.chains.log ++ xs)
        × (c'.head ≡ null)
  unfolding destroy await_resume
  destroy-calls fuel s xs lt seg =
      let (c', run, log, done) = resume_chain-calls none fuel s.chains xs lt seg in
      (c', rw run refl, log, subst (λ l. Segment c'.next c'.head l null) (rejoin-nobody xs []) done)
