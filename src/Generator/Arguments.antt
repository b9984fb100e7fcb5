-- ===== src/Generator/Arguments.antt =====
-- Generators of generator.h with an argument: what the body gets at each `co_yield`.
--
-- A body yields and goes on with the argument of the next call, or asks for the current argument
-- (`co_yield nullptr`). `Frame` is where it stands: at its beginning, or at a yield. The caller is
-- a thread that uses `next` and `value`. `null_argument` is the use of a null pointer `_arg`.
use coroutines_classes.Prelude.{
  ℕ, ◌≡◌, refl, ap, ◌∙◌, List, [], ◌∷◌, Option, none, some, Bool, true, false, cond_false,
  if◌then◌else◌,
}

pub data ArgBody {ℓ κ} (A : Type ℓ) (B : Type κ) : Type (ℓ ⊔ κ) where
  yields : A → (B → ArgBody A B) → ArgBody A B
  peeks : (B → ArgBody A B) → ArgBody A B
  returns : ArgBody A B
  throws : ℕ → ArgBody A B

pub data Frame {ℓ κ} (A : Type ℓ) (B : Type κ) : Type (ℓ ⊔ κ) where
  initial : ArgBody A B → Frame A B
  yielded : (B → ArgBody A B) → Frame A B
  final : Frame A B

pub record ArgGenerator {ℓ κ} (A : Type ℓ) (B : Type κ) : Type (ℓ ⊔ κ) where
  pub arg : Option B
  pub ret : Option A
  pub exp : Option ℕ
  pub done : Bool
  pub frame : Frame A B

-- How a call ends.
pub data Call {ℓ κ} (A : Type ℓ) (B : Type κ) : Type (ℓ ⊔ κ) where
  null_argument : Call A B
  no_more : Call A B
  called : ArgGenerator A B → Call A B

-- What `next` and `value` then give.
pub data Seen {ℓ} (A : Type ℓ) : Type ℓ where
  ended : Seen A
  gave : A → Seen A
  failed : ℕ → Seen A
  unset : Seen A

-- What a body answers to an argument.
pub data Reply {ℓ κ} (A : Type ℓ) (B : Type κ) : Type (ℓ ⊔ κ) where
  item : A → (B → ArgBody A B) → Reply A B
  over : Reply A B
  error : ℕ → Reply A B

-- The values so far, if the loop goes on.
abbrev pub go_on {ℓ} : {A : Type ℓ} → Seen A → Option (List (Seen A)) → Option (List (Seen A))
go_on (gave v) none = none
go_on (gave v) (some vs) = some (gave v ∷ vs)
go_on ended rest = some (ended ∷ [])
go_on (failed e) rest = some (failed e ∷ [])
go_on unset rest = none

module _ {ℓ κ} {A : Type ℓ} {B : Type κ} where
  unfoldable pub create : ArgBody A B → ArgGenerator A B
  create b = record { arg = none; ret = none; exp = none; done = false; frame = initial b }

  unfoldable pub set_arg : B → ArgGenerator A B → ArgGenerator A B
  set_arg a g = record g { arg = some a }

  -- `yield_suspend`, which resets the argument.
  unfoldable pub yield_value : A → (B → ArgBody A B) → ArgGenerator A B → ArgGenerator A B
  yield_value v k g = record g { ret = some v; frame = yielded k; arg = none }

  unfoldable pub final_suspend : ArgGenerator A B → ArgGenerator A B
  final_suspend g = record g { ret = none; frame = final; arg = none }

  -- The body runs, with what `_arg` points to.
  unfoldable pub run_body : ArgBody A B → ArgGenerator A B → Option B → Call A B
  run_body (yields v k) g p = called (yield_value v k g)
  run_body (peeks k) g none = null_argument
  run_body (peeks k) g (some a) = run_body (k a) g (some a)
  run_body returns g p = called (final_suspend (record g { done = true }))
  run_body (throws e) g p = called (final_suspend (record g { exp = some e }))

  -- Where the coroutine is resumed: `yield_suspend::await_resume` reads the argument.
  unfoldable pub resume_frame : Frame A B → ArgGenerator A B → Option B → Call A B
  unfolding run_body
  resume_frame (initial b) g p = run_body b g p
  resume_frame (yielded k) g none = null_argument
  resume_frame (yielded k) g (some a) = run_body (k a) g (some a)
  resume_frame final g p = no_more

  -- `next(a)` with its operator `bool`.
  unfoldable pub next : B → ArgGenerator A B → Call A B
  unfolding resume_frame set_arg
  next a g = let g' = set_arg a g in if g.done then called g' else resume_frame g.frame g' g'.arg

  -- The result of `next`, and `value()`.
  unfoldable pub see : ArgGenerator A B → Seen A
  see g =
      let got : Seen A = elim g.ret [ some v ↦ gave v | none ↦ unset ] in
      let value : Seen A = elim g.exp [ some e ↦ failed e | none ↦ got ] in
      if g.done then ended else value

  -- A loop that calls the generator with these arguments, and stops where it ends or fails.
  unfoldable pub feed : List B → ArgGenerator A B → Option (List (Seen A))
  unfolding next see
  feed [] g = some []
  feed (a ∷ args) g = elim (next a g) [
    | null_argument ↦ none
    | no_more ↦ none
    | called g' ↦ go_on (see g') (feed args g')
  ]

  abbrev pub reply_to : B → ArgBody A B → Reply A B
  reply_to a (yields v k) = item v k
  reply_to a (peeks k) = reply_to a (k a)
  reply_to a returns = over
  reply_to a (throws e) = error e

  -- The body as a function from arguments to values: each argument is what the `co_yield` gives
  -- that the body stands at, and every `co_yield nullptr` before the next value.
  abbrev pub replies : (B → ArgBody A B) → List B → List (Seen A)
  replies f [] = []
  replies f (a ∷ args) = elim (reply_to a (f a)) [
    | item v k ↦ gave v ∷ replies k args
    | over ↦ ended ∷ []
    | error e ↦ failed e ∷ []
  ]

  -- The generator after the answer.
  abbrev pub Replies : Reply A B → ArgGenerator A B → Type (ℓ ⊔ κ)
  Replies (item v k) g =
      (g.frame ≡ yielded k) × (g.exp ≡ none) × (g.done ≡ false) × (see g ≡ gave v)
  Replies over g = (g.frame ≡ final) × (see g ≡ ended)
  Replies (error e) g = (g.frame ≡ final) × (see g ≡ failed e)

  run_body-Replies :
      (b : ArgBody A B) (a : B) (g : ArgGenerator A B)
      → g.exp ≡ none
      → g.done ≡ false
      → (g' : ArgGenerator A B) × (run_body b g (some a) ≡ called g') × Replies (reply_to a b) g'
  unfolding run_body yield_value final_suspend see
  run_body-Replies (yields v k) a g e d = (yield_value v k g, refl, (refl, e, d, rw (e, d) refl))
  run_body-Replies (peeks k) a g e d = run_body-Replies (k a) a g e d
  run_body-Replies returns a g e d = (_, refl, (refl, refl))
  run_body-Replies (throws n) a g e d = (_, refl, (refl, rw d refl))

  called-feeds :
      (r : Reply A B) (g : ArgGenerator A B) (args : List B)
      → Replies r g
      → ((f : B → ArgBody A B)
          → g.frame ≡ yielded f
          → g.exp ≡ none
          → g.done ≡ false
          → feed args g ≡ some (replies f args))
      → go_on (see g) (feed args g)
        ≡ some (elim r as (λ _. List (Seen A)) [
          | item v k ↦ gave v ∷ replies k args
          | over ↦ ended ∷ []
          | error e ↦ failed e ∷ []
        ])
  called-feeds (item v k) g args (f, e, d, s) later = rw (s, later k f e d) refl
  called-feeds over g args (f, s) later = rw s refl
  called-feeds (error e) g args (f, s) later = rw s refl

  next-yielded :
      (a : B) (f : B → ArgBody A B) (g : ArgGenerator A B)
      → g.frame ≡ yielded f
      → g.done ≡ false
      → next a g ≡ run_body (f a) (record g { arg = some a }) (some a)
  unfolding next set_arg resume_frame
  next-yielded a f g w d =
      cond_false _ _ _ d ∙ ap (λ z. resume_frame z (record g { arg = some a }) (some a)) w

  yielded-feeds :
      (args : List B) (f : B → ArgBody A B) (g : ArgGenerator A B)
      → g.frame ≡ yielded f
      → g.exp ≡ none
      → g.done ≡ false
      → feed args g ≡ some (replies f args)
  unfolding feed next set_arg resume_frame
  yielded-feeds [] f g w e d = refl
  yielded-feeds (a ∷ args) f g w e d =
      let (g', run, h) = run_body-Replies (f a) a (record g { arg = some a }) e d in
      rw (feed, next-yielded a f g w d, run)
        (called-feeds (reply_to a (f a)) g' args h (λ k. yielded-feeds args k g'))

  -- A generator with an argument is the function of its body: whatever the arguments, a loop over
  -- its calls gets what the body answers to them in order, no null argument is read, and no call is
  -- made of a coroutine that has ended.
  pub feed-replies :
      (b : ArgBody A B) (args : List B) → feed args (create b) ≡ some (replies (λ _. b) args)
  unfolding feed next set_arg resume_frame create
  feed-replies b [] = refl
  feed-replies b (a ∷ args) =
      let (g', run, h) = run_body-Replies b a (record (create b) { arg = some a }) refl refl in
      rw (feed, run) (called-feeds (reply_to a b) g' args h (λ k. yielded-feeds args k g'))
