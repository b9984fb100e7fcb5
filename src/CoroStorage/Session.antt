-- ===== src/CoroStorage/Session.antt =====
-- The frames that live in the memory of a `reusable_storage_mtsafe` of coro_storage.h.
use coroutines_classes.Prelude.{
  ℕ, ◌+◌, ◌<◌, ◌≤◌, ◌≡◌, ◌≢◌, ◌⊎◌, inl, inr, refl, sym, ◌∙◌, subst, List, [], ◌∷◌, ◌++◌,
  append_assoc, true, false, arith, All, Bool-cases,
}
use native.Mathlib.Decide.{dec_lt, ℕ_discrete}
use coroutines_classes.CoroStorage.{
  Mtsafe, alloc_reusable, alloc_mtsafe, dealloc_mtsafe, pointer_size,
}

-- A frame is its address and its size.
pub record Session : Type 0 where
  pub memory : Mtsafe
  pub frames : List (ℕ × ℕ)

-- Neither the storage nor the allocator holds a block yet.
abbrev pub start : Session
start = record {
  memory = record {
    storage = record { ptr = 0; capacity = 0; operator_deleted = [] };
    busy = false;
    obtained = [];
    returned = [];
  };
  frames = [];
}

abbrev pub add_frame : ℕ → ℕ → Session → Session
add_frame fresh sz s = record {
  memory = (alloc_mtsafe fresh sz s.memory).0;
  frames = ((alloc_mtsafe fresh sz s.memory).1, sz) ∷ s.frames;
}

abbrev pub Avoids : ℕ → List (ℕ × ℕ) → Type 0
Avoids p fs = All (λ f. p ≢ f.0) fs

-- `fresh` is what the allocator returns if it is called: a block in which no frame lives.
pub data Step : Session → Session → Type 0 where
  allocs : (fresh sz : ℕ) (s : Session) → Avoids fresh s.frames → Step s (add_frame fresh sz s)
  deallocs :
      (p sz : ℕ) (us vs : List (ℕ × ℕ)) (s : Session)
      → s.frames ≡ us ++ (p, sz) ∷ vs
      → Step s (record { memory = dealloc_mtsafe p sz s.memory; frames = us ++ vs })

pub data Steps : Session → Session → Type 0 where
  stay : (s : Session) → Steps s s
  go : (s t u : Session) → Step s t → Steps t u → Steps s u

-- No two frames have the same block.
abbrev pub Apart : List (ℕ × ℕ) → Type 0
Apart [] = Unit
Apart (f ∷ fs) = Avoids f.0 fs × Apart fs

-- A frame is in the storage's own block, or in one that `default_new` returned, with room for the
-- pointer behind it.
abbrev pub HasRoom : Mtsafe → ℕ × ℕ → Type 0
HasRoom m f =
    ((f.0 ≡ m.storage.ptr) × (m.busy ≡ true) × (f.1 + pointer_size ≤ m.storage.capacity))
    ⊎ ((us vs : List (ℕ × ℕ)) × (m.obtained ≡ us ++ (f.0, f.1 + pointer_size) ∷ vs))

record IsOwned (s : Session) : Type 0 where
  apart : Apart s.frames
  room : All (HasRoom s.memory) s.frames
  own : s.memory.busy ≡ false → Avoids s.memory.storage.ptr s.frames

All-map :
    (P Q : ℕ × ℕ → Type 0) (fs : List (ℕ × ℕ)) → ((f : ℕ × ℕ) → P f → Q f) → All P fs → All Q fs
All-map P Q [] g h = tt
All-map P Q (f ∷ fs) g h = (g f h.0, All-map P Q fs g h.1)

All-both :
    (P Q : ℕ × ℕ → Type 0) (fs : List (ℕ × ℕ)) → All P fs → All Q fs → All (λ f. P f × Q f) fs
All-both P Q [] h k = tt
All-both P Q (f ∷ fs) h k = ((h.0, k.0), All-both P Q fs h.1 k.1)

All-remove :
    (P : ℕ × ℕ → Type 0) (us vs : List (ℕ × ℕ)) (f : ℕ × ℕ)
    → All P (us ++ f ∷ vs)
    → P f × All P (us ++ vs)
All-remove P [] vs f h = h
All-remove P (u ∷ us) vs f h = let (p, k) = All-remove P us vs f h.1 in (p, (h.0, k))

Apart-remove :
    (us vs : List (ℕ × ℕ)) (f : ℕ × ℕ)
    → Apart (us ++ f ∷ vs)
    → Avoids f.0 (us ++ vs) × Apart (us ++ vs)
Apart-remove [] vs f h = h
Apart-remove (u ∷ us) vs f h =
    let (k, r) = Apart-remove us vs f h.1 in
    let (n, m) = All-remove (λ g. u.0 ≢ g.0) us vs f h.0 in (((λ e. n (sym e)), k), (m, r))

HasRoom-more :
    (m : Mtsafe) (x f : ℕ × ℕ)
    → HasRoom m f
    → HasRoom (record m { obtained = m.obtained ++ x ∷ [] }) f
HasRoom-more m x f (inl h) = inl h
HasRoom-more m x f (inr (us, vs, e)) = inr (us, vs ++ x ∷ [], rw (e) (append_assoc us _ _))

-- A frame outside the storage's block keeps its room, whatever happens to that block.
HasRoom-outside :
    (m m' : Mtsafe) (f : ℕ × ℕ)
    → m'.obtained ≡ m.obtained
    → (m.storage.ptr ≢ f.0) × HasRoom m f
    → HasRoom m' f
HasRoom-outside m m' f e (n, inl h) = absurd (n (sym h.0))
HasRoom-outside m m' f e (n, inr (us, vs, k)) = inr (us, vs, e ∙ k)

alloc-busy :
    (fresh sz : ℕ) (m : Mtsafe)
    → m.busy ≡ true
    → alloc_mtsafe fresh sz m
      ≡ (record m { obtained = m.obtained ++ (fresh, sz + pointer_size) ∷ [] }, fresh)
unfolding alloc_mtsafe
alloc-busy fresh sz m e = ground arith

alloc-more :
    (fresh sz : ℕ) (m : Mtsafe)
    → m.busy ≡ false
    → m.storage.capacity < sz + pointer_size
    → alloc_mtsafe fresh sz m ≡ (
      record m {
        busy = true;
        storage = record {
          ptr = fresh;
          capacity = sz + pointer_size;
          operator_deleted = m.storage.operator_deleted ++ m.storage.ptr ∷ [];
        };
      },
      fresh,
    )
unfolding alloc_mtsafe alloc_reusable
alloc-more fresh sz m e lt = ground arith

alloc-fits :
    (fresh sz : ℕ) (m : Mtsafe)
    → m.busy ≡ false
    → sz + pointer_size ≤ m.storage.capacity
    → alloc_mtsafe fresh sz m ≡ (record m { busy = true }, m.storage.ptr)
unfolding alloc_mtsafe alloc_reusable
alloc-fits fresh sz m e le = ground arith

-- The storage's block is taken for a frame, as it is or after it has been replaced.
taken-IsOwned :
    (s : Session) (m : Mtsafe) (sz : ℕ)
    → s.memory.busy ≡ false
    → m.busy ≡ true
    → sz + pointer_size ≤ m.storage.capacity
    → m.obtained ≡ s.memory.obtained
    → Avoids m.storage.ptr s.frames
    → IsOwned s
    → IsOwned (record { memory = m; frames = (m.storage.ptr, sz) ∷ s.frames })
taken-IsOwned s m sz e b le o new h = record {
  apart = (new, h.apart);
  room = (
    inl (refl, b, le),
    All-map _ _ s.frames (λ f. HasRoom-outside s.memory m f o)
        (All-both _ _ s.frames (h.own e) h.room),
  );
  own = λ f. absurd (ground (arith, f, b));
}

add_frame-IsOwned :
    (fresh sz : ℕ) (s : Session)
    → Avoids fresh s.frames
    → IsOwned s
    → IsOwned (add_frame fresh sz s)
add_frame-IsOwned fresh sz s new h = elim (Bool-cases s.memory.busy) [
  | inl e ↦ with_result (alloc-busy fresh sz s.memory e) (record {
    apart = (new, h.apart);
    room = (
      inr (s.memory.obtained, [], refl),
      All-map (HasRoom s.memory) _ s.frames (HasRoom-more s.memory _) h.room,
    );
    own = λ f. absurd (ground (arith, f, e));
  })
  | inr e ↦ elim (dec_lt s.memory.storage.capacity (sz + pointer_size)) [
    | yes lt ↦
        with_result (alloc-more fresh sz s.memory e lt)
          (taken-IsOwned s _ sz e refl (omega arith) refl new h)
    | no ge ↦
        with_result (alloc-fits fresh sz s.memory e (omega (arith, ge)))
          (taken-IsOwned s _ sz e refl (omega (arith, ge)) refl (h.own e) h)
  ]
]
  where
    with_result :
        {r : Mtsafe × ℕ}
        → alloc_mtsafe fresh sz s.memory ≡ r
        → IsOwned (record { memory = r.0; frames = (r.1, sz) ∷ s.frames })
        → IsOwned (add_frame fresh sz s)
    with_result e =
        subst (λ r. IsOwned (record { memory = r.0; frames = (r.1, sz) ∷ s.frames })) (sym e)

dealloc-own :
    (p sz : ℕ) (m : Mtsafe) → p ≡ m.storage.ptr → dealloc_mtsafe p sz m ≡ record m { busy = false }
unfolding dealloc_mtsafe
dealloc-own p sz m e = ground arith

dealloc-other :
    (p sz : ℕ) (m : Mtsafe)
    → p ≢ m.storage.ptr
    → dealloc_mtsafe p sz m ≡ record m { returned = m.returned ++ (p, sz) ∷ [] }
unfolding dealloc_mtsafe
dealloc-other p sz m n = ground arith

remove_frame-IsOwned :
    (p sz : ℕ) (us vs : List (ℕ × ℕ)) (m : Mtsafe)
    → IsOwned (record { memory = m; frames = us ++ (p, sz) ∷ vs })
    → IsOwned (record { memory = dealloc_mtsafe p sz m; frames = us ++ vs })
remove_frame-IsOwned p sz us vs m h =
    let (away, apart) = Apart-remove us vs (p, sz) h.apart in
    let (_, room) = All-remove (HasRoom m) us vs (p, sz) h.room in
    elim (ℕ_discrete p m.storage.ptr) [
      | yes e ↦
          let others = subst (λ q. Avoids q (us ++ vs)) e away in
          rw (dealloc-own p sz m e) (record {
            apart = apart;
            room =
                All-map _ (HasRoom (record m { busy = false })) (us ++ vs)
                  (λ f. HasRoom-outside m (record m { busy = false }) f refl)
                  (All-both _ (HasRoom m) (us ++ vs) others room);
            own = λ f. others;
          })
      | no n ↦ rw (dealloc-other p sz m n) (record {
        apart = apart;
        room = room;
        own = λ f. (All-remove (λ g. m.storage.ptr ≢ g.0) us vs (p, sz) (h.own f)).1;
      })
    ]

Step-IsOwned : (s t : Session) → Step s t → IsOwned s → IsOwned t
Step-IsOwned s _ (Step.allocs fresh sz _ new) h = add_frame-IsOwned fresh sz s new h
Step-IsOwned s _ (Step.deallocs p sz us vs _ e) h =
    remove_frame-IsOwned p sz us vs s.memory
      (subst (λ fs. IsOwned (record { memory = s.memory; frames = fs })) e h)

Steps-IsOwned : (s t : Session) → Steps s t → IsOwned s → IsOwned t
Steps-IsOwned s _ (Steps.stay _) h = h
Steps-IsOwned s u (Steps.go _ t _ st r) h = Steps-IsOwned t u r (Step-IsOwned s t st h)

-- In every history of a `reusable_storage_mtsafe`, with any number of frames alive at once that are
-- destroyed in any order: no two of the frames have the same block, and each is in the storage's own
-- block, which is then busy and large enough for the frame and the pointer behind it, or in a block
-- that `default_new` returned for that size. The allocator returns no block in which a frame lives.
pub Steps-own_block :
    (s : Session) → Steps start s → Apart s.frames × All (HasRoom s.memory) s.frames
Steps-own_block s r =
    let h = Steps-IsOwned start s r (record { apart = tt; room = tt; own = λ e. tt }) in
    (h.apart, h.room)
