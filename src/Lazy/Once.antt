-- ===== src/Lazy/Once.antt =====
-- A lazy coroutine of lazy.h begins once, whichever threads start, cancel and resume it.
use coroutines_classes.Prelude.{
  ℕ, ◌+◌, ◌≡◌, sym, ap, List, [], ◌∷◌, Option, some, Bool, true, false, if◌then◌else◌, ◌>>=◌,
  length, arith,
}
use coroutines_classes.Lazy.{
  Lazy, init, take_handle, start, get_start_handle, cancel, resume, Op, starts, gets_handle,
  cancels, resumes, operate,
}

unfoldable pub run : List Op → Lazy → Option Lazy
run [] l = some l
run (op ∷ ops) l = do l' ← operate op l; run ops l'

-- Whether somebody asks for the coroutine to start.
abbrev pub is_asked : List Op → Bool
is_asked [] = false
is_asked (starts ∷ ops) = true
is_asked (gets_handle ∷ ops) = true
is_asked (cancels ∷ ops) = is_asked ops
is_asked (resumes ∷ ops) = is_asked ops

-- How the body begins, at the first resumption: canceled if `c` or if it was canceled before.
abbrev pub beginning : Bool → List Op → List Bool
beginning c [] = []
beginning c (starts ∷ ops) = beginning c ops
beginning c (gets_handle ∷ ops) = beginning c ops
beginning c (cancels ∷ ops) = beginning true ops
beginning c (resumes ∷ ops) = c ∷ []

abbrev pub count : Bool → ℕ
count true = 1
count false = 0

some-lazy : (k l : Lazy) → some k ≡ some l → k ≡ l
some-lazy k l e = cc

-- Nobody has the handle of a coroutine that has begun, and nobody gets it.
begun-stays :
    (ops : List Op) (c : Bool) (b : List Bool) (l : Lazy)
    → run ops (record { started = true; canceled = c; given = 0; begun = b }) ≡ some l
    → (l.begun ≡ b) × (l.given ≡ 0)
unfolding run operate start take_handle get_start_handle cancel resume
begun-stays [] c b l e =
    let z = some-lazy _ l e in (ap (λ y. y.begun) (sym z), ap (λ y. y.given) (sym z))
begun-stays (starts ∷ ops) c b l e = begun-stays ops c b l e
begun-stays (gets_handle ∷ ops) c b l e = begun-stays ops c b l e
begun-stays (cancels ∷ ops) c b l e = begun-stays ops true b l e
begun-stays (resumes ∷ ops) c b l e = absurd cc

run-from :
    (ops : List Op) (s c : Bool) (l : Lazy)
    → run ops (record { started = s; canceled = c; given = count s; begun = [] }) ≡ some l
    → (l.begun ≡ beginning c ops)
      × (l.given + length l.begun ≡ (if s then 1 else count (is_asked ops)))
unfolding run operate start take_handle get_start_handle cancel resume
run-from [] true c l e =
    let z = some-lazy _ l e in
    (ap (λ y. y.begun) (sym z), ap (λ y. y.given + length y.begun) (sym z))
run-from [] false c l e =
    let z = some-lazy _ l e in
    (ap (λ y. y.begun) (sym z), ap (λ y. y.given + length y.begun) (sym z))
run-from (starts ∷ ops) true c l e = run-from ops true c l e
run-from (starts ∷ ops) false c l e = run-from ops true c l e
run-from (gets_handle ∷ ops) true c l e = run-from ops true c l e
run-from (gets_handle ∷ ops) false c l e = run-from ops true c l e
run-from (cancels ∷ ops) s c l e = run-from ops s true l e
run-from (resumes ∷ ops) true c l e =
    let (b, g) = begun-stays ops c (c ∷ []) l e in (b, omega (arith, g, ap length b))
run-from (resumes ∷ ops) false c l e = absurd cc

-- A lazy coroutine begins at most once, in any order of the steps of any number of threads: one
-- handle is given out if anybody asks for the start, and none else; it is still on its way, or it
-- was resumed and the body has begun; and the body began with the exception of a canceled coroutine
-- exactly if `mark_canceled` came before that, even after a call of `start`.
pub run-begins :
    (ops : List Op) (l : Lazy)
    → run ops init ≡ some l
    → (l.begun ≡ beginning false ops) × (l.given + length l.begun ≡ count (is_asked ops))
unfolding init
run-begins ops l e = run-from ops false false l e
