-- ===== src/Generator/Collect.antt =====
-- A loop over a generator of generator.h: what it collects, and what a call after the end does.
use coroutines_classes.Prelude.{
  ℕ, zero, suc, ◌<◌, ◌≤◌, ◌≡◌, refl, ◌∙◌, ap, List, [], ◌∷◌, Option, none, some, Bool,
  if◌then◌else◌, ◌>>=◌, length, arith, cond_false,
}
use coroutines_classes.Future.{
  Stored, not_value, value, exception, Got, returned, thrown, not_ready,
}
use coroutines_classes.Generator.{
  Body, yields, awaits, returns, throws, Caller, awaiter, promise, Generator, Next, busy, no_more,
  answer, next_async, next_future, next_sync, co_next, bool_next, get_value, prepare_result,
  await_resume,
}
use coroutines_classes.Generator.Calls.{
  Head, item, over, failed, head, pauses, IsIdle, HasEnded, Answers, next_async-Answers,
  next_sync-Answers, next_future-Answers, ended-call,
}

-- The three ways to ask: `co_await next()`, the operator `bool` of `next()`, and the future.
pub data Mode : Type 0 where
  by_await : ℕ → Mode
  by_bool : Mode
  by_future : ℕ → Mode

pub data Outcome {ℓ} (A : Type ℓ) : Type ℓ where
  ends : Outcome A
  gives : A → Outcome A
  fails : ℕ → Outcome A
  unready : Outcome A

module _ {ℓ} {A : Type ℓ} where
  unfoldable pub ask : Mode → ℕ → Generator A → Next A
  ask (by_await x) fuel g = co_next fuel x g
  ask by_bool fuel g = bool_next fuel g
  ask (by_future p) fuel g = next_future fuel p g

  abbrev pub got_outcome : Got A → Outcome A
  got_outcome (returned v) = gives v
  got_outcome (thrown e) = fails e
  got_outcome not_ready = unready

  abbrev pub stored_outcome : Option (Stored A) → Outcome A
  stored_outcome none = unready
  stored_outcome (some not_value) = ends
  stored_outcome (some (value v)) = gives v
  stored_outcome (some (exception e)) = fails e

  -- What the caller then sees: the result of `next()` and of `value()`, or that of the future.
  unfoldable pub seen : Mode → Generator A → Outcome A
  unfolding await_resume get_value prepare_result
  seen (by_await x) g = if await_resume g then got_outcome (get_value g) else ends
  seen by_bool g = if await_resume g then got_outcome (get_value g) else ends
  seen (by_future p) g = stored_outcome (prepare_result g)

  abbrev pub append_outcome : Outcome A → Option (List A × Option ℕ) → Option (List A × Option ℕ)
  append_outcome ends rest = some ([], none)
  append_outcome (gives v) rest = do (vs, e) ← rest; some (v ∷ vs, e)
  append_outcome (fails e) rest = some ([], some e)
  append_outcome unready rest = none

  -- The loop of a caller: the values it collects, and the exception that ends it.
  unfoldable pub collect : Mode → ℕ → ℕ → Generator A → Option (List A × Option ℕ)
  unfolding ask seen
  collect mode fuel zero g = none
  collect mode fuel (suc n) g = elim (ask mode fuel g) [
    | answer g' c ↦ append_outcome (seen mode g') (collect mode fuel n g')
    | _ ↦ none
  ]

  -- What the body yields, how it ends, and how often it awaits.
  abbrev pub values : Body A → List A
  values (yields v b) = v ∷ values b
  values (awaits b) = values b
  values returns = []
  values (throws e) = []

  abbrev pub ending : Body A → Option ℕ
  ending (yields v b) = ending b
  ending (awaits b) = ending b
  ending returns = none
  ending (throws e) = some e

  abbrev pub all_pauses : Body A → ℕ
  all_pauses (yields v b) = all_pauses b
  all_pauses (awaits b) = suc (all_pauses b)
  all_pauses returns = 0
  all_pauses (throws e) = 0

  abbrev pub Unfolds : Body A → Head A → Type ℓ
  Unfolds b (item v b') =
      (values b ≡ v ∷ values b') × (ending b ≡ ending b') × (all_pauses b' ≤ all_pauses b)
  Unfolds b over = (values b ≡ []) × (ending b ≡ none)
  Unfolds b (failed e) = (values b ≡ []) × (ending b ≡ some e)

  Unfolds-awaits : (b : Body A) (h : Head A) → Unfolds b h → Unfolds (awaits b) h
  Unfolds-awaits b (item v b') (vs, e, lt) = (vs, e, omega arith)
  Unfolds-awaits b over u = u
  Unfolds-awaits b (failed e) u = u

  pub head-Unfolds : (b : Body A) → Unfolds b (head b)
  head-Unfolds (yields v b) = (refl, refl, omega arith)
  head-Unfolds (awaits b) = Unfolds-awaits b (head b) (head-Unfolds b)
  head-Unfolds returns = (refl, refl)
  head-Unfolds (throws e) = (refl, refl)

  pauses-all_pauses : (b : Body A) → pauses b ≤ all_pauses b
  pauses-all_pauses (yields v b) = omega arith
  pauses-all_pauses (awaits b) = omega (arith, pauses-all_pauses b)
  pauses-all_pauses returns = omega arith
  pauses-all_pauses (throws e) = omega arith

  abbrev outcome : Head A → Outcome A
  outcome (item v b) = gives v
  outcome over = ends
  outcome (failed e) = fails e

  seen-Answers :
      (mode : Mode) (h : Head A) (g : Generator A) → Answers h g → seen mode g ≡ outcome h
  unfolding seen await_resume get_value prepare_result
  seen-Answers (by_await x) (item v b) g (i, r) = rw (i.undone, i.clean, r) refl
  seen-Answers by_bool (item v b) g (i, r) = rw (i.undone, i.clean, r) refl
  seen-Answers (by_future p) (item v b) g (i, r) = rw (i.undone, i.clean, r) refl
  seen-Answers (by_await x) over g h = rw h.mark refl
  seen-Answers by_bool over g h = rw h.mark refl
  seen-Answers (by_future p) over g h = rw h.mark refl
  seen-Answers (by_await x) (failed e) g h = rw (h.mark, h.error) refl
  seen-Answers by_bool (failed e) g h = rw (h.mark, h.error) refl
  seen-Answers (by_future p) (failed e) g h = rw (h.mark, h.error) refl

  ask-Answers :
      (mode : Mode) (fuel : ℕ) (b : Body A) (g : Generator A)
      → pauses b ≤ fuel
      → IsIdle b g
      → (g' : Generator A) × (c : Option Caller) × (ask mode fuel g ≡ answer g' c)
        × Answers (head b) g'
  unfolding ask co_next bool_next
  ask-Answers (by_await x) fuel b g lt h =
      let (g', run, done) = next_async-Answers fuel x b g lt h in
      (g', some (awaiter x), cond_false g.done _ _ h.undone ∙ run, done)
  ask-Answers by_bool fuel b g lt h =
      let (g', c, run, done) = next_sync-Answers fuel b g lt h in
      (g', c, cond_false g.done _ _ h.undone ∙ run, done)
  ask-Answers (by_future p) fuel b g lt h =
      let (g', run, done) = next_future-Answers fuel p b g lt h in (g', _, run, done)

  collect-rest :
      (mode : Mode) (fuel n : ℕ) (b : Body A) (d : Head A) (g : Generator A)
      → all_pauses b ≤ fuel
      → length (values b) < suc n
      → Unfolds b d
      → Answers d g
      → ((b' : Body A)
          → all_pauses b' ≤ fuel
          → length (values b') < n
          → IsIdle b' g
          → collect mode fuel n g ≡ some (values b', ending b'))
      → append_outcome (outcome d) (collect mode fuel n g) ≡ some (values b, ending b)
  collect-rest mode fuel n b (item v b') g enough lt (vs, e, less) (i, r) again =
      rw (again b' (omega (arith, less, enough)) (omega (arith, lt, ap length vs)) i)
        (rw (vs, e) refl)
  collect-rest mode fuel n b over g enough lt (vs, e) done again = rw (vs, e) refl
  collect-rest mode fuel n b (failed x) g enough lt (vs, e) done again = rw (vs, e) refl

  -- Each way to ask collects all that the body yields, in order, and ends as the body does: from an
  -- idle generator, with fuel for the times that the body awaits, and more turns than values.
  pub collect-values :
      (mode : Mode) (fuel n : ℕ) (b : Body A) (g : Generator A)
      → all_pauses b ≤ fuel
      → length (values b) < n
      → IsIdle b g
      → collect mode fuel n g ≡ some (values b, ending b)
  unfolding collect
  collect-values mode fuel zero b g enough lt h = absurd (omega arith)
  collect-values mode fuel (suc n) b g enough lt h =
      let (g', c, run, done) = ask-Answers mode fuel b g (omega (arith, pauses-all_pauses b)) h in
      rw (collect, run)
        (rw (seen-Answers mode (head b) g' done) (
          collect-rest mode fuel n b (head b) g' enough lt (head-Unfolds b) done
            (λ b' e l i. collect-values mode fuel n b' g' e l i)))

  -- After the end. A generator that has returned answers `next()` again, and its state stays the
  -- same. One asked for a future, or asked after an exception, throws, and keeps its caller: every
  -- call after that fails the assertion, whoever calls.
  pub HasEnded-calls :
      (fuel x p : ℕ) (e : Option ℕ) (d : Bool) (g : Generator A)
      → HasEnded e d g
      → (g1 g2 : Generator A) × (co_next fuel x g ≡ (if d then answer g none else no_more g1))
        × (bool_next fuel g ≡ (if d then answer g none else no_more g))
        × (next_future fuel p g ≡ no_more g2)
        × (next_async fuel x g1 ≡ busy)
        × (next_sync fuel g1 ≡ busy)
        × (next_async fuel x g2 ≡ busy)
        × (next_future fuel p g2 ≡ busy)
  unfolding co_next bool_next next_async next_sync next_future
  HasEnded-calls fuel x p e d g h =
      let g1 : Generator A = record g { caller = some (awaiter x) } in
      let g2 : Generator A = record g { caller = some (promise p) } in
      (
        g1,
        g2,
        ap (λ z. if z then answer g none else next_async fuel x g) h.mark
            ∙ ap (λ z. if d then answer g none else z)
                (ended-call g.caller g.finished _ _ h.free h.ended),
        ap (λ z. if z then answer g none else next_sync fuel g) h.mark
            ∙ ap (λ z. if d then answer g none else z)
                (ended-call g.caller g.finished _ _ h.free h.ended),
        ended-call g.caller g.finished _ _ h.free h.ended,
        refl,
        refl,
        refl,
        refl,
      )
