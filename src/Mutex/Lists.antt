-- ===== src/Mutex/Lists.antt =====
-- Lists of waiting awaiters: requests are stacked, and a queue is built from them by turning them over.
use coroutines_classes.Prelude.{
  ℕ, ◌≡◌, refl, ap, ◌∙◌, sym, List, [], ◌∷◌, ◌++◌, arith, NotMem, append_assoc, length, ◌+◌, ◌≤◌,
  length-append,
}

-- The requests of `rs`, last come first, turned over onto `qs`.
abbrev pub turn_onto : List ℕ → List ℕ → List ℕ
turn_onto [] qs = qs
turn_onto (r ∷ rs) qs = turn_onto rs (r ∷ qs)

pub turn_onto-append : (rs qs ys : List ℕ) → turn_onto rs (qs ++ ys) ≡ turn_onto rs qs ++ ys
turn_onto-append [] qs ys = refl
turn_onto-append (r ∷ rs) qs ys = turn_onto-append rs (r ∷ qs) ys

-- The order in which the lock is handed over: the queue, then the requests, first come first.
abbrev pub waiting : List ℕ → List ℕ → List ℕ
waiting qs rs = qs ++ turn_onto rs []

pub waiting-request : (qs rs : List ℕ) (a : ℕ) → waiting qs (a ∷ rs) ≡ waiting qs rs ++ a ∷ []
waiting-request qs rs a =
    ap (◌++◌ qs) (turn_onto-append rs [] (a ∷ []))
    ∙ sym (append_assoc qs (turn_onto rs []) (a ∷ []))

-- The lists have no awaiter in common.
abbrev pub Apart : List ℕ → List ℕ → Type 0
Apart [] ys = Unit {0}
Apart (x ∷ xs) ys = NotMem x ys × Apart xs ys

pub Apart-cons : (r : ℕ) (rs qs : List ℕ) → NotMem r rs → Apart rs qs → Apart rs (r ∷ qs)
Apart-cons r [] qs n a = tt
Apart-cons r (x ∷ rs) qs n a = ((λ e. n.0 (sym e), a.0), Apart-cons r rs qs n.1 a.1)

pub Apart-nil : (rs : List ℕ) → Apart rs []
Apart-nil [] = tt
Apart-nil (x ∷ rs) = (tt, Apart-nil rs)

pub Apart-tail : (q : ℕ) (rs qs : List ℕ) → Apart rs (q ∷ qs) → NotMem q rs × Apart rs qs
Apart-tail q [] qs a = (tt, tt)
Apart-tail q (x ∷ rs) qs a =
    let (n, b) = Apart-tail q rs qs a.1 in ((λ e. a.0.0 (sym e), n), (a.0.1, b))

pub NotMem-turn_onto :
    (a : ℕ) (rs qs : List ℕ) → NotMem a rs → NotMem a qs → NotMem a (turn_onto rs qs)
NotMem-turn_onto a [] qs n k = k
NotMem-turn_onto a (r ∷ rs) qs n k = NotMem-turn_onto a rs (r ∷ qs) n.1 (n.0, k)

NotMem-unturn : (a : ℕ) (rs qs : List ℕ) → NotMem a (turn_onto rs qs) → NotMem a rs × NotMem a qs
NotMem-unturn a [] qs n = (tt, n)
NotMem-unturn a (r ∷ rs) qs n = let (k, l) = NotMem-unturn a rs (r ∷ qs) n in ((l.0, k), l.1)

NotMem-split : (a : ℕ) (xs ys : List ℕ) → NotMem a (xs ++ ys) → NotMem a xs × NotMem a ys
NotMem-split a [] ys n = (tt, n)
NotMem-split a (x ∷ xs) ys n = let (k, l) = NotMem-split a xs ys n.1 in ((n.0, k), l)

pub NotMem-waiting : (a : ℕ) (qs rs : List ℕ) → NotMem a (waiting qs rs) → NotMem a qs × NotMem a rs
NotMem-waiting a qs rs n =
    let (k, l) = NotMem-split a qs (turn_onto rs []) n in (k, (NotMem-unturn a rs [] l).0)

pub length-turn_onto : (rs qs : List ℕ) → length (turn_onto rs qs) ≡ length rs + length qs
length-turn_onto [] qs = omega arith
length-turn_onto (r ∷ rs) qs = omega (arith, length-turn_onto rs (r ∷ qs))

pub length-requests : (qs rs : List ℕ) → length rs ≤ length (waiting qs rs)
length-requests qs rs = omega (arith, length-append qs (turn_onto rs []), length-turn_onto rs [])

pub turn_onto-turn_onto :
    (rs qs ys : List ℕ) → turn_onto (turn_onto rs qs) ys ≡ turn_onto qs (rs ++ ys)
turn_onto-turn_onto [] qs ys = refl
turn_onto-turn_onto (r ∷ rs) qs ys = turn_onto-turn_onto rs (r ∷ qs) ys
