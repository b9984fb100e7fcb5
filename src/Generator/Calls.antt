-- ===== src/Generator/Calls.antt =====
-- One call of a generator of generator.h: what it answers to each kind of caller.
use coroutines_classes.Prelude.{
  ℕ, zero, suc, ◌≤◌, ◌≡◌, refl, ◌∙◌, ap, Option, none, some, Bool, true, false, if◌then◌else◌,
  arith,
}
use coroutines_classes.Generator.{
  Body, yields, awaits, returns, throws, Caller, awaiter, syncing, promise, Generator, Next, busy,
  answer, yield_suspend, final_suspend, await_transform, run_body, drive, next_async, next_future,
  wait_flag, next_sync,
}

-- What a body does next, once all that it awaits has been resumed.
pub data Head {ℓ} (A : Type ℓ) : Type ℓ where
  item : A → Body A → Head A
  over : Head A
  failed : ℕ → Head A

module _ {ℓ} {A : Type ℓ} where
  abbrev pub head : Body A → Head A
  head (yields v b) = item v b
  head (awaits b) = head b
  head returns = over
  head (throws e) = failed e

  -- How often the body awaits before that.
  abbrev pub pauses : Body A → ℕ
  pauses (yields v b) = 0
  pauses (awaits b) = suc (pauses b)
  pauses returns = 0
  pauses (throws e) = 0

  -- Nobody has called the generator, and `b` is left of it.
  pub record IsIdle (b : Body A) (g : Generator A) : Type ℓ where
    pub free : g.caller ≡ none
    pub clean : g.exp ≡ none
    pub undone : g.done ≡ false
    pub rest : g.body ≡ b
    pub alive : g.finished ≡ false

  pub record HasEnded (e : Option ℕ) (d : Bool) (g : Generator A) : Type ℓ where
    pub free : g.caller ≡ none
    pub error : g.exp ≡ e
    pub mark : g.done ≡ d
    pub empty : g.ret ≡ none
    pub ended : g.finished ≡ true

  -- The state after the answer.
  abbrev pub Answers : Head A → Generator A → Type ℓ
  Answers (item v b) g = IsIdle b g × (g.ret ≡ some v)
  Answers over g = HasEnded none true g
  Answers (failed e) g = HasEnded (some e) false g

  await_transform-called :
      (g : Generator A) (c : Caller) → g.caller ≡ some c → await_transform g ≡ g
  unfolding await_transform
  await_transform-called g c e = rw e refl

  await_transform-free :
      (g : Generator A) → g.caller ≡ none → await_transform g ≡ (record g { caller = some syncing })
  unfolding await_transform
  await_transform-free g e = rw e refl

  -- A running body is driven to its answer, which goes to the caller.
  drive-Answers :
      (fuel : ℕ) (b : Body A) (g : Generator A) (c : Caller)
      → pauses b ≤ fuel
      → g.caller ≡ some c
      → g.exp ≡ none
      → g.done ≡ false
      → g.finished ≡ false
      → (g' : Generator A) × (drive fuel (run_body b g) ≡ answer g' (some c)) × Answers (head b) g'
  unfolding drive run_body yield_suspend final_suspend
  drive-Answers fuel (yields v b) g c lt hc he hd hf = (
    (run_body (yields v b) g).0,
    ap (answer (run_body (yields v b) g).0) hc,
    (record { free = refl; clean = he; undone = hd; rest = refl; alive = hf }, refl),
  )
  drive-Answers fuel returns g c lt hc he hd hf = (
    (run_body returns g).0,
    ap (answer (run_body returns g).0) hc,
    record { free = refl; error = he; mark = refl; empty = refl; ended = refl },
  )
  drive-Answers fuel (throws e) g c lt hc he hd hf = (
    (run_body (throws e) g).0,
    ap (answer (run_body (throws e) g).0) hc,
    record { free = refl; error = refl; mark = hd; empty = refl; ended = refl },
  )
  drive-Answers zero (awaits b) g c lt hc he hd hf = absurd (omega arith)
  drive-Answers (suc fuel) (awaits b) g c lt hc he hd hf =
      let (g', run, done) =
        drive-Answers fuel b (record g { body = b }) c (omega arith) hc he hd hf in
      (g', rw (await_transform-called (record g { body = b }) c hc) run, done)

  -- What a call of an idle generator computes to.
  idle-call :
      (o : Option Caller) (ended : Bool) (gone called : Next A)
      → o ≡ none
      → ended ≡ false
      → (elim o as (λ _. Next A) [ some _ ↦ busy | none ↦ if ended then gone else called ]) ≡ called
  idle-call o ended gone called e f = rw (e, f) refl

  -- What a call of one that has ended computes to.
  pub ended-call :
      (o : Option Caller) (ended : Bool) (gone called : Next A)
      → o ≡ none
      → ended ≡ true
      → (elim o as (λ _. Next A) [ some _ ↦ busy | none ↦ if ended then gone else called ]) ≡ gone
  ended-call o ended gone called e f = rw (e, f) refl

  pub next_async-Answers :
      (fuel x : ℕ) (b : Body A) (g : Generator A)
      → pauses b ≤ fuel
      → IsIdle b g
      → (g' : Generator A) × (next_async fuel x g ≡ answer g' (some (awaiter x)))
        × Answers (head b) g'
  unfolding next_async
  next_async-Answers fuel x b g lt h =
      let g1 : Generator A = record g { caller = some (awaiter x) } in
      let (g', run, done) =
        drive-Answers fuel b (record g { caller = some (awaiter x) }) (awaiter x) lt refl h.clean
          h.undone h.alive in
      (
        g',
        idle-call g.caller g.finished _ _ h.free h.alive
            ∙ ap (λ z. drive fuel (run_body z g1)) h.rest
            ∙ run,
        done,
      )

  pub next_future-Answers :
      (fuel p : ℕ) (b : Body A) (g : Generator A)
      → pauses b ≤ fuel
      → IsIdle b g
      → (g' : Generator A) × (next_future fuel p g ≡ answer g' (some (promise p)))
        × Answers (head b) g'
  unfolding next_future
  next_future-Answers fuel p b g lt h =
      let g1 : Generator A = record g { caller = some (promise p) } in
      let (g', run, done) =
        drive-Answers fuel b (record g { caller = some (promise p) }) (promise p) lt refl h.clean
          h.undone h.alive in
      (
        g',
        idle-call g.caller g.finished _ _ h.free h.alive
            ∙ ap (λ z. drive fuel (run_body z g1)) h.rest
            ∙ run,
        done,
      )

  wait_flag-Answers :
      (fuel : ℕ) (b : Body A) (g : Generator A)
      → pauses b ≤ fuel
      → IsIdle b g
      → (g' : Generator A) × (c : Option Caller) × (wait_flag fuel (run_body b g) ≡ answer g' c)
        × Answers (head b) g'
  unfolding wait_flag run_body yield_suspend final_suspend drive
  wait_flag-Answers fuel (yields v b) g lt h = (
    (run_body (yields v b) g).0,
    none,
    refl,
    (
      record { free = refl; clean = h.clean; undone = h.undone; rest = refl; alive = h.alive },
      refl,
    ),
  )
  wait_flag-Answers fuel returns g lt h = (
    (run_body returns g).0,
    none,
    refl,
    record { free = refl; error = h.clean; mark = refl; empty = refl; ended = refl },
  )
  wait_flag-Answers fuel (throws e) g lt h = (
    (run_body (throws e) g).0,
    none,
    refl,
    record { free = refl; error = refl; mark = h.undone; empty = refl; ended = refl },
  )
  wait_flag-Answers zero (awaits b) g lt h = absurd (omega arith)
  wait_flag-Answers (suc fuel) (awaits b) g lt h =
      let (g', run, done) =
        drive-Answers fuel b (record g { body = b; caller = some syncing }) syncing (omega arith)
          refl h.clean h.undone h.alive in
      (g', some syncing, rw (await_transform-free (record g { body = b }) h.free) run, done)

  pub next_sync-Answers :
      (fuel : ℕ) (b : Body A) (g : Generator A)
      → pauses b ≤ fuel
      → IsIdle b g
      → (g' : Generator A) × (c : Option Caller) × (next_sync fuel g ≡ answer g' c)
        × Answers (head b) g'
  unfolding next_sync
  next_sync-Answers fuel b g lt h =
      let (g', c, run, done) = wait_flag-Answers fuel b g lt h in
      (
        g',
        c,
        idle-call g.caller g.finished _ _ h.free h.alive
            ∙ ap (λ z. wait_flag fuel (run_body z g)) h.rest
            ∙ run,
        done,
      )

  -- The three ways to ask an idle generator for its next value, with fuel for the times that its
  -- body awaits before it answers: the awaiter, the thread that waits, or the promise gets the
  -- answer, and each of them the same that the body gives next: a value, the end, or an exception.
  -- The generator is then idle again or has ended.
  pub next-Answers :
      (fuel x p : ℕ) (b : Body A) (g : Generator A)
      → pauses b ≤ fuel
      → IsIdle b g
      → (ga gs gf : Generator A) × (c : Option Caller) × (next_async fuel x g
          ≡ answer ga (some (awaiter x)))
        × (next_sync fuel g ≡ answer gs c)
        × (next_future fuel p g ≡ answer gf (some (promise p)))
        × Answers (head b) ga
        × Answers (head b) gs
        × Answers (head b) gf
  next-Answers fuel x p b g lt h =
      let (ga, runa, donea) = next_async-Answers fuel x b g lt h in
      let (gs, c, runs, dones) = next_sync-Answers fuel b g lt h in
      let (gf, runf, donef) = next_future-Answers fuel p b g lt h in
      (ga, gs, gf, c, runa, runs, runf, donea, dones, donef)
