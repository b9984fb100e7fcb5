-- ===== src/Publisher/Slots.antt =====
-- The registrations of publisher.h: the list of free slots that runs through the field `_pos`.
use coroutines_classes.Prelude.{
  ℕ, ◌+◌, ◌≡◌, ◌≢◌, refl, sym, ◌∙◌, List, [], ◌∷◌, ◌++◌, none, some, true, false, length, get_elem?,
  set, arith, All, NotMem, lt_of_get_elem?, length-set, length-append, get_elem?-set_self,
  get_elem?-set_ne, get_elem?-append_last, get_elem?-append_left,
}
use coroutines_classes.Awaiter.Segment.{Segment, Segment-agree, Segment-Distinct}
use coroutines_classes.Publisher.{Publisher, Reg, fresh, subscribe_at, leave}

-- The field that holds the next free slot, for a free slot.
abbrev pub slot_next : List Reg → ℕ → ℕ
slot_next rs i = elim (get_elem? rs i) [ none ↦ 0 | some l ↦ l.pos ]

abbrev pub IsFreeSlot : List Reg → ℕ → Type 0
IsFreeSlot rs h = (l : Reg) × (get_elem? rs h ≡ some l) × (l.used ≡ false)

module _ {ℓ} {A : Type ℓ} where
  -- The free slots are those of the list, which ends behind the last registration.
  pub record Slots (p : Publisher A) (frees : List ℕ) : Type 0 where
    pub chain : Segment (slot_next p.regs) p.next_free frees (length p.regs)
    pub unused : All (IsFreeSlot p.regs) frees

slot_next-agree :
    (rs : List Reg) (h : ℕ) (r : Reg) (q : ℕ) → q ≢ h → slot_next (set rs h r) q ≡ slot_next rs q
slot_next-agree rs h r q n = rw (get_elem?-set_ne rs h q r (λ e. n (sym e)), slot_next)

slot_next-at : (rs : List Reg) (h : ℕ) (l : Reg) → get_elem? rs h ≡ some l → slot_next rs h ≡ l.pos
slot_next-at rs h l e = rw (e, slot_next)

chain-set :
    (rs : List Reg) (h : ℕ) (r : Reg) (a : ℕ) (frees : List ℕ)
    → NotMem h frees
    → Segment (slot_next rs) a frees (length rs)
    → Segment (slot_next (set rs h r)) a frees (length (set rs h r))
chain-set rs h r a frees n c = rw (length-set rs h r) (
    Segment-agree (slot_next rs) (slot_next (set rs h r)) h a frees (length rs)
      (slot_next-agree rs h r) n c)

free-NotMem :
    (rs : List Reg) (h : ℕ) (l : Reg) (frees : List ℕ)
    → get_elem? rs h ≡ some l
    → l.used ≡ true
    → All (IsFreeSlot rs) frees
    → NotMem h frees
free-NotMem rs h l [] e u a = tt
free-NotMem rs h l (x ∷ xs) e u ((k, f, nu), a) = (λ eq. cc, free-NotMem rs h l xs e u a)

unused-set :
    (rs : List Reg) (h : ℕ) (r : Reg) (frees : List ℕ)
    → NotMem h frees
    → All (IsFreeSlot rs) frees
    → All (IsFreeSlot (set rs h r)) frees
unused-set rs h r [] n a = tt
unused-set rs h r (x ∷ xs) n ((k, f, nu), a) =
    ((k, get_elem?-set_ne rs h x r n.0 ∙ f, nu), unused-set rs h r xs n.1 a)

module _ {ℓ} {A : Type ℓ} where
  -- What `subscribe` and `leave` keep: the registrations in use, but for one slot.
  abbrev pub Untouched : Publisher A → Publisher A → ℕ → Type 0
  Untouched p p' h =
      (i : ℕ) (k : Reg) → i ≢ h → get_elem? p.regs i ≡ some k → get_elem? p'.regs i ≡ some k

  -- A subscriber gets a slot that nobody uses, and no other registration is touched; the free slots
  -- are kept in order.
  pub subscribe_at-Slots :
      (sub at : ℕ) (p : Publisher A) (frees : List ℕ)
      → Slots p frees
      → (p' : Publisher A) × (h : ℕ) × (frees' : List ℕ) × (subscribe_at sub at p ≡ some (p', h))
        × Slots p' frees'
        × (get_elem? p'.regs h ≡ some (fresh sub at))
        × ((k : Reg) → get_elem? p.regs h ≡ some k → k.used ≡ false)
        × Untouched p p' h
  unfolding subscribe_at
  subscribe_at-Slots sub at p [] s = (
    record p { regs = p.regs ++ fresh sub at ∷ []; next_free = length p.regs + 1 },
    length p.regs,
    [],
    ground (arith, s.chain),
    record { chain = omega (arith, length-append p.regs (fresh sub at ∷ [])); unused = tt },
    get_elem?-append_last p.regs (fresh sub at),
    λ k e. absurd (omega (arith, lt_of_get_elem? p.regs (length p.regs) k e)),
    λ i k n e. get_elem?-append_left p.regs (fresh sub at ∷ []) i k e,
  )
  subscribe_at-Slots sub at p (x ∷ xs) s =
      let (l, e, u) = s.unused.0 in
      let f : get_elem? p.regs p.next_free ≡ some l = rw s.chain.0 e in
      let d = Segment-Distinct (slot_next p.regs) p.next_free (x ∷ xs) (length p.regs) s.chain in
      let lt = lt_of_get_elem? p.regs x l e in
      (
        record p { regs = set p.regs p.next_free (fresh sub at); next_free = l.pos },
        p.next_free,
        xs,
        rw f (ground arith),
        record {
          chain =
              rw (s.chain.0, ← slot_next-at p.regs x l e)
                (chain-set p.regs x (fresh sub at) (slot_next p.regs x) xs d.0 s.chain.2);
          unused = rw s.chain.0 (unused-set p.regs x (fresh sub at) xs d.0 s.unused.1);
        },
        get_elem?-set_self p.regs p.next_free (fresh sub at) (rw s.chain.0 lt),
        λ k g. cc,
        λ i k n g. get_elem?-set_ne p.regs p.next_free i (fresh sub at) (λ q. n (sym q)) ∙ g,
      )

  -- A slot that is left becomes the first free one, and no other registration is touched.
  pub leave-Slots :
      (h : ℕ) (l : Reg) (p : Publisher A) (frees : List ℕ)
      → Slots p frees
      → get_elem? p.regs h ≡ some l
      → l.used ≡ true
      → (p' : Publisher A) × (leave h p ≡ some p') × Slots p' (h ∷ frees) × Untouched p p' h
  unfolding leave
  leave-Slots h l p frees s e u =
      let l' : Reg = record l { pos = p.next_free; used = false } in
      let lt = lt_of_get_elem? p.regs h l e in
      let here = get_elem?-set_self p.regs h l' lt in
      let n = free-NotMem p.regs h l frees e u s.unused in
      (
        record p { regs = set p.regs h l'; next_free = h },
        rw e,
        record {
          chain = (
            refl,
            (λ q. absurd (omega (arith, length-set p.regs h l'))),
            rw (slot_next-at (set p.regs h l') h l' here)
                (chain-set p.regs h l' p.next_free frees n s.chain),
          );
          unused = ((l', here, refl), unused-set p.regs h l' frees n s.unused);
        },
        λ i k d g. get_elem?-set_ne p.regs h i l' (λ q. d (sym q)) ∙ g,
      )
