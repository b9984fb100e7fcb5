-- ===== src/Aggregator/Invariant.antt =====
-- What holds while the aggregator of generator_aggregator.h runs, in whatever order its generators
-- answer.
use coroutines_classes.Prelude.{
  ℕ, zero, suc, ◌+◌, ◌≤◌, ◌≡◌, ◌≢◌, refl, sym, ◌∙◌, ap, subst, List, [], ◌∷◌, ◌++◌, Option, none,
  some, ◌==◌, if◌then◌else◌, update, length, NotMem, NotMem-append, length-append, arith,
  append_assoc,
}
use native.Mathlib.Decide.{ℕ_discrete}
use coroutines_classes.Generator.{Body, returns}
use coroutines_classes.Generator.Calls.{Head, item, over, failed}
use coroutines_classes.Generator.Collect.{values, ending, Unfolds}
use coroutines_classes.Aggregator.{Aggregator, range, body_at, start, fin, charge, handle_answer}

length-range : (n : ℕ) → length (range n) ≡ n
length-range zero = refl
length-range (suc n) = ap suc (length-range n)

range-beyond : (i n : ℕ) → NotMem i (range n) → n ≤ i
range-beyond i zero h = omega arith
range-beyond i (suc n) h = omega (arith, h.0, range-beyond i n h.1)

NotMem-parts : (j : ℕ) (xs ys : List ℕ) → NotMem j (xs ++ ys) → NotMem j xs × NotMem j ys
NotMem-parts j [] ys h = (tt, h)
NotMem-parts j (x ∷ xs) ys h = let (a, b) = NotMem-parts j xs ys h.1 in ((h.0, a), b)

NotMem-insert : (j i : ℕ) (xs ys : List ℕ) → j ≢ i → NotMem j (xs ++ ys) → NotMem j (xs ++ i ∷ ys)
NotMem-insert j i xs ys n h =
    let (a, b) = NotMem-parts j xs ys h in NotMem-append j xs (i ∷ ys) a (n, b)

module _ {ℓ} {A : Type ℓ} where
  -- What the generator `i` has contributed.
  abbrev pub part : ℕ → List (ℕ × A) → List A
  part i [] = []
  part i (p ∷ ps) = if i == p.0 then p.1 ∷ part i ps else part i ps

  part-last : (i : ℕ) (ps : List (ℕ × A)) (v : A) → part i (ps ++ (i, v) ∷ []) ≡ part i ps ++ v ∷ []
  part-last i [] v = ground arith
  part-last i (p ∷ ps) v = ground (arith, part-last i ps v)

  part-other :
      (i j : ℕ) (ps : List (ℕ × A)) (v : A) → i ≢ j → part i (ps ++ (j, v) ∷ []) ≡ part i ps
  part-other i j [] v n = ground arith
  part-other i j (p ∷ ps) v n = ground (arith, part-other i j ps v n)

  -- The exception at the end.
  abbrev pub Rethrows : List (Body A) → Option ℕ → Type 0
  Rethrows list none = (i : ℕ) → ending (body_at list i) ≡ none
  Rethrows list (some e) = (i : ℕ) × (ending (body_at list i) ≡ some e)

  -- No exception was caught, and none is left behind; or the one that is kept is of a generator.
  abbrev pub Caught : List (Body A) → Aggregator A → Option ℕ → Type 0
  Caught list s none = (i : ℕ) → NotMem i s.pending → NotMem i s.queue → ending (s.slots i) ≡ none
  Caught list s (some e) = (i : ℕ) × (ending (body_at list i) ≡ some e)

  pub record IsMerging (list : List (Body A)) (s : Aggregator A) : Type ℓ where
    pub counted : s.count ≡ length s.pending + length s.queue
    pub parts : (i : ℕ) → part i s.yielded ++ values (s.slots i) ≡ values (body_at list i)
    pub endings : (i : ℕ) → ending (s.slots i) ≡ ending (body_at list i)
    pub drained : (i : ℕ) → NotMem i s.pending → NotMem i s.queue → values (s.slots i) ≡ []
    pub caught : Caught list s s.exp

  body_at-beyond : (list : List (Body A)) (i : ℕ) → length list ≤ i → body_at list i ≡ returns
  body_at-beyond [] i le = refl
  body_at-beyond (b ∷ bs) zero le = absurd (omega arith)
  body_at-beyond (b ∷ bs) (suc i) le = body_at-beyond bs i (omega arith)

  pub start-IsMerging : (list : List (Body A)) → IsMerging list (start list)
  unfolding start
  start-IsMerging list = record {
    counted = omega (arith, length-range (length list));
    parts = λ i. refl;
    endings = λ i. refl;
    drained = λ i n _. ap values (body_at-beyond list i (range-beyond i (length list) n));
    caught = λ i n _. ap ending (body_at-beyond list i (range-beyond i (length list) n));
  }

  update-same : (f : ℕ → Body A) (i : ℕ) (b : Body A) → update f i b i ≡ b
  update-same f i b = ground arith

  update-other : (f : ℕ → Body A) (i j : ℕ) (b : Body A) → j ≢ i → update f i b j ≡ f j
  update-other f i j b n = ground arith

  pub answers-IsMerging :
      (list : List (Body A)) (s : Aggregator A) (before after : List ℕ) (i : ℕ)
      → s.pending ≡ before ++ i ∷ after
      → IsMerging list s
      → IsMerging list (record s { pending = before ++ after; queue = s.queue ++ i ∷ [] })
  answers-IsMerging list s before after i e h = record {
    counted = omega (
      arith,
      h.counted,
      ap length e,
      length-append before (i ∷ after),
      length-append before after,
      length-append s.queue (i ∷ []),
    );
    parts = h.parts;
    endings = h.endings;
    drained = λ j n m. let (old, new) = was j n m in h.drained j old new;
    caught = keep s.exp h.caught;
  }
    where
      was :
          (j : ℕ)
          → NotMem j (before ++ after)
          → NotMem j (s.queue ++ i ∷ [])
          → NotMem j s.pending × NotMem j s.queue
      was j n m =
          let (old, new) = NotMem-parts j s.queue (i ∷ []) m in
          (subst (NotMem j) (sym e) (NotMem-insert j i before after new.0 n), old)

      keep :
          (o : Option ℕ)
          → Caught list s o
          → Caught list (record s { pending = before ++ after; queue = s.queue ++ i ∷ [] }) o
      keep none c = λ j n m. let (old, new) = was j n m in c j old new
      keep (some x) c = c

  pub pops-IsMerging :
      (list : List (Body A)) (s : Aggregator A) (i : ℕ) (rest : List ℕ) (d : Head A)
      → s.queue ≡ i ∷ rest
      → Unfolds (s.slots i) d
      → IsMerging list s
      → IsMerging list (handle_answer i d (record s { queue = rest }))
  unfolding handle_answer fin charge
  pops-IsMerging list s i rest (item v b) e (vs, en, _) h = record {
    counted = omega (arith, h.counted, ap length e);
    parts = λ j. elim (ℕ_discrete j i) [
      | yes same ↦ rw same (
          ap (λ l. l ++ values (update s.slots i b i)) (part-last i s.yielded v)
          ∙ ap (λ z. (part i s.yielded ++ v ∷ []) ++ values z) (update-same s.slots i b)
          ∙ append_assoc (part i s.yielded) (v ∷ []) (values b)
          ∙ ap (λ l. part i s.yielded ++ l) (sym vs)
          ∙ h.parts i)
      | no n ↦
          ap (λ l. l ++ values (update s.slots i b j)) (part-other j i s.yielded v n)
          ∙ ap (λ z. part j s.yielded ++ values z) (update-other s.slots i j b n)
          ∙ h.parts j
    ];
    endings = λ j. ground (arith, en, h.endings j, h.endings i);
    drained = λ j n m.
        ap values (update-other s.slots i j b n.0)
        ∙ h.drained j n.1 (subst (NotMem j) (sym e) (n.0, m));
    caught = keep s.exp h.caught;
  }
    where
      keep :
          (o : Option ℕ)
          → Caught list s o
          → Caught list (handle_answer i (item v b) (record s { queue = rest })) o
      keep none c = λ j n m.
          ap ending (update-other s.slots i j b n.0) ∙ c j n.1 (subst (NotMem j) (sym e) (n.0, m))
      keep (some x) c = c
  pops-IsMerging list s i rest over e (vs, en) h = record {
    counted = omega (arith, h.counted, ap length e);
    parts = h.parts;
    endings = h.endings;
    drained = λ j n m. elim (ℕ_discrete j i) [
      | yes same ↦ rw same vs
      | no k ↦ h.drained j n (subst (NotMem j) (sym e) (k, m))
    ];
    caught = keep s.exp h.caught;
  }
    where
      keep : (o : Option ℕ) → Caught list s o → Caught list (fin (record s { queue = rest })) o
      keep none c = λ j n m. elim (ℕ_discrete j i) [
        | yes same ↦ rw same en
        | no k ↦ c j n (subst (NotMem j) (sym e) (k, m))
      ]
      keep (some x) c = c
  pops-IsMerging list s i rest (failed x) e (vs, en) h = record {
    counted = omega (arith, h.counted, ap length e);
    parts = h.parts;
    endings = h.endings;
    drained = λ j n m. elim (ℕ_discrete j i) [
      | yes same ↦ rw same vs
      | no k ↦ h.drained j n (subst (NotMem j) (sym e) (k, m))
    ];
    caught = (i, sym (h.endings i) ∙ en);
  }
