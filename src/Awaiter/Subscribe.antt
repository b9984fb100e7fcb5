-- ===== src/Awaiter/Subscribe.antt =====
-- The subscription loops of awaiter.h, `subscribe` and `subscribe_check_ready`.
use coroutines_classes.Prelude.{
  ℕ, suc, ◌≤◌, ◌≡◌, refl, ◌≢◌, List, [], ◌∷◌, arith, Bool, true, false, NotMem, some, update, ◌==◌,
  Bool-cases, inl, inr, sym, ◌∙◌,
}
use coroutines_classes.Awaiter.Segment.{Segment, Segment-agree}
use coroutines_classes.Awaiter.{Chains, exchange_weak, subscribe, subscribe_check_ready, null}

-- How many rounds do not fail spuriously.
abbrev pub honest : List Bool → ℕ
honest [] = 0
honest (true ∷ rounds) = honest rounds
honest (false ∷ rounds) = suc (honest rounds)

-- `this` stands in front of the chain, and nothing else has changed.
pub record Subscribed (this : ℕ) (c c' : Chains) : Type 0 where
  pub linked : c'.next this ≡ c.head
  pub top : c'.head ≡ this
  pub others : (q : ℕ) → q ≢ this → c'.next q ≡ c.next q
  pub quiet : c'.log ≡ c.log

-- A failed round stores the head in `_next` of the awaiter; the rest is as it was.
record Tried (this : ℕ) (c c' : Chains) : Type 0 where
  top : c'.head ≡ c.head
  others : (q : ℕ) → q ≢ this → c'.next q ≡ c.next q
  quiet : c'.log ≡ c.log

Tried-round : (this : ℕ) (c : Chains) → Tried this c (exchange_weak true this c).0
unfolding exchange_weak
Tried-round this c = record { top = refl; others = λ q n. ground arith; quiet = refl }

Tried-trans : (this : ℕ) (a b c : Chains) → Tried this a b → Tried this b c → Tried this a c
Tried-trans this a b c s t = record {
  top = t.top ∙ s.top;
  others = λ q n. t.others q n ∙ s.others q n;
  quiet = t.quiet ∙ s.quiet;
}

Subscribed-win :
    (this : ℕ) (a c : Chains)
    → Tried this a c
    → c.head ≡ c.next this
    → Subscribed this a (record c { head = this })
Subscribed-win this a c t e = record {
  linked = sym e ∙ t.top;
  top = refl;
  others = t.others;
  quiet = t.quiet;
}

subscribe-primed :
    (rounds : List Bool) (this : ℕ) (a c : Chains)
    → 1 ≤ honest rounds
    → Tried this a c
    → c.head ≡ c.next this
    → (c' : Chains) × (subscribe rounds this c ≡ some c') × Subscribed this a c'
unfolding subscribe
subscribe-primed [] this a c h t e = elim h [ ]
subscribe-primed (false ∷ rounds) this a c h t e =
    (record c { head = this }, ground arith, Subscribed-win this a c t e)
subscribe-primed (true ∷ rounds) this a c h t e =
    subscribe-primed rounds this a (exchange_weak true this c).0 h
      (Tried-trans this a c _ t (Tried-round this c)) (ground arith)

subscribe-loop :
    (rounds : List Bool) (this : ℕ) (a c : Chains)
    → 2 ≤ honest rounds
    → Tried this a c
    → (c' : Chains) × (subscribe rounds this c ≡ some c') × Subscribed this a c'
unfolding subscribe
subscribe-loop [] this a c h t = elim h [ ]
subscribe-loop (true ∷ rounds) this a c h t =
    subscribe-loop rounds this a (exchange_weak true this c).0 h
      (Tried-trans this a c _ t (Tried-round this c))
subscribe-loop (false ∷ rounds) this a c h t = elim (Bool-cases (c.head == c.next this)) [
  | inl e ↦ (record c { head = this }, rw e, Subscribed-win this a c t (ground arith))
  | inr e ↦ rw e (
      subscribe-primed rounds this a (exchange_weak true this c).0 (omega arith)
        (Tried-trans this a c _ t (Tried-round this c)) (ground arith))
]

-- Two rounds that do not fail spuriously are enough for `subscribe`: the awaiter then stands in front
-- of the chain, its link leads to the former head, and no other link and no resumption is touched.
pub subscribe-Subscribed :
    (rounds : List Bool) (this : ℕ) (c : Chains)
    → 2 ≤ honest rounds
    → (c' : Chains) × (subscribe rounds this c ≡ some c') × Subscribed this c c'
subscribe-Subscribed rounds this c h =
    subscribe-loop rounds this c c h (record { top = refl; others = λ q n. refl; quiet = refl })

-- What a subscription means for the list of waiting awaiters.
pub Subscribed-Segment :
    (this : ℕ) (c c' : Chains) (xs : List ℕ) (stop : ℕ)
    → Subscribed this c c'
    → this ≢ stop
    → NotMem this xs
    → Segment c.next c.head xs stop
    → Segment c'.next c'.head (this ∷ xs) stop
Subscribed-Segment this c c' xs stop s n new seg =
    (s.top, n, rw s.linked (Segment-agree c.next c'.next this c.head xs stop s.others new seg))

-- A subscription puts the awaiter in front of the list that the chain stands for: the last to come
-- is the first of the chain.
pub subscribe-Segment :
    (rounds : List Bool) (this : ℕ) (c : Chains) (xs : List ℕ)
    → 2 ≤ honest rounds
    → this ≢ null
    → NotMem this xs
    → Segment c.next c.head xs null
    → (c' : Chains) × (subscribe rounds this c ≡ some c') × Segment c'.next c'.head (this ∷ xs) null
subscribe-Segment rounds this c xs h n new seg =
    let (c', run, done) = subscribe-Subscribed rounds this c h in
    (c', run, Subscribed-Segment this c c' xs null done n new seg)

check_ready-primed :
    (rounds : List Bool) (this ready_state : ℕ) (a c : Chains)
    → 1 ≤ honest rounds
    → a.head ≢ ready_state
    → Tried this a c
    → c.head ≡ c.next this
    → (c' : Chains) × (subscribe_check_ready rounds this ready_state c ≡ some (c', true))
      × Subscribed this a c'
unfolding subscribe_check_ready
check_ready-primed [] this ready_state a c h n t e = elim h [ ]
check_ready-primed (false ∷ rounds) this ready_state a c h n t e =
    (record c { head = this }, ground arith, Subscribed-win this a c t e)
check_ready-primed (true ∷ rounds) this ready_state a c h n t e =
    let again = Tried-trans this a c _ t (Tried-round this c) in
    let (c', run, done) =
      check_ready-primed rounds this ready_state a (exchange_weak true this c).0 h n again
        (ground arith) in
    (c', ground (arith, run, t.top), done)

check_ready-loop :
    (rounds : List Bool) (this ready_state : ℕ) (a c : Chains)
    → 2 ≤ honest rounds
    → a.head ≢ ready_state
    → Tried this a c
    → (c' : Chains) × (subscribe_check_ready rounds this ready_state c ≡ some (c', true))
      × Subscribed this a c'
unfolding subscribe_check_ready
check_ready-loop [] this ready_state a c h n t = elim h [ ]
check_ready-loop (true ∷ rounds) this ready_state a c h n t =
    let again = Tried-trans this a c _ t (Tried-round this c) in
    let (c', run, done) =
      check_ready-loop rounds this ready_state a (exchange_weak true this c).0 h n again in
    (c', ground (arith, run, t.top), done)
check_ready-loop (false ∷ rounds) this ready_state a c h n t =
    elim (Bool-cases (c.head == c.next this)) [
      | inl e ↦ (record c { head = this }, rw e, Subscribed-win this a c t (ground arith))
      | inr e ↦
          let again = Tried-trans this a c _ t (Tried-round this c) in
          let (c', run, done) =
            check_ready-primed rounds this ready_state a (exchange_weak true this c).0 (omega arith)
              n again (ground arith) in
          (c', ground (arith, run, t.top), done)
    ]

-- On a chain that is not marked ready, two rounds that do not fail spuriously are enough, and the
-- awaiter is subscribed as by `subscribe`.
pub subscribe_check_ready-Subscribed :
    (rounds : List Bool) (this ready_state : ℕ) (c : Chains)
    → 2 ≤ honest rounds
    → c.head ≢ ready_state
    → (c' : Chains) × (subscribe_check_ready rounds this ready_state c ≡ some (c', true))
      × Subscribed this c c'
subscribe_check_ready-Subscribed rounds this ready_state c h n =
    check_ready-loop rounds this ready_state c c h n
      (record { top = refl; others = λ q k. refl; quiet = refl })

-- On a chain that is marked ready the awaiter is not subscribed: the head keeps the mark, `_next` of
-- the awaiter is null again, and no other link and no resumption is touched.
pub subscribe_check_ready-refused :
    (spurious : Bool) (rounds : List Bool) (this ready_state : ℕ) (c : Chains)
    → c.next this ≡ null
    → ready_state ≢ null
    → c.head ≡ ready_state
    → (c' : Chains) × (subscribe_check_ready (spurious ∷ rounds) this ready_state c
        ≡ some (c', false))
      × (c'.head ≡ ready_state)
      × (c'.next this ≡ null)
      × ((q : ℕ) → q ≢ this → c'.next q ≡ c.next q)
      × (c'.log ≡ c.log)
unfolding subscribe_check_ready
subscribe_check_ready-refused spurious rounds this ready_state c e n r = (
  record c { next = update (update c.next this c.head) this null },
  ground arith,
  r,
  ground arith,
  λ q k. ground arith,
  refl,
)
