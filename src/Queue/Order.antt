-- ===== src/Queue/Order.antt =====
-- What comes out of the queue of queue.h, and in which order, after any sequence of operations.
use coroutines_classes.Prelude.{
  ℕ, ◌≡◌, refl, sym, ◌∙◌, ap, List, [], ◌∷◌, ◌++◌, append-nil, append_assoc, arith, ◌⊎◌, inl, inr,
}
use coroutines_classes.Queue.{
  Queue, Reply, value, exception, empty_queue, resolve, push, pop, unblock_pop, push_to, pop_from,
  unblock_first,
}

pub data Op {ℓ} (A : Type ℓ) : Type ℓ where
  pushes : A → Op A
  pops : ℕ → Op A
  unblocks : ℕ → Op A

module _ {ℓ} {A : Type ℓ} where
  pub step : Op A → Queue A → Queue A
  step (pushes v) q = push v q
  step (pops p) q = pop p q
  step (unblocks e) q = (unblock_pop e q).0

  unfoldable pub run : List (Op A) → Queue A → Queue A
  unfolding step
  run [] q = q
  run (o ∷ os) q = run os (step o q)

  -- The values pushed by the operations, and the promises of the reads, in order.
  abbrev pub pushed : List (Op A) → List A
  pushed [] = []
  pushed (pushes v ∷ os) = v ∷ pushed os
  pushed (pops p ∷ os) = pushed os
  pushed (unblocks e ∷ os) = pushed os

  abbrev pub popped : List (Op A) → List ℕ
  popped [] = []
  popped (pushes v ∷ os) = popped os
  popped (pops p ∷ os) = p ∷ popped os
  popped (unblocks e ∷ os) = popped os

  -- The values that resolved promises have received, and the promises resolved, in order.
  abbrev pub received : List (ℕ × Reply A) → List A
  received [] = []
  received ((p, value v) ∷ ds) = v ∷ received ds
  received ((p, exception e) ∷ ds) = received ds

  abbrev pub answered : List (ℕ × Reply A) → List ℕ
  answered [] = []
  answered ((p, r) ∷ ds) = p ∷ answered ds

  -- Nobody waits while there is a value.
  abbrev pub IsExclusive : Queue A → Type ℓ
  IsExclusive q = (q.items ≡ []) ⊎ (q.awaiters ≡ [])

  received-append : (ds es : List (ℕ × Reply A)) → received (ds ++ es) ≡ received ds ++ received es
  received-append [] es = refl
  received-append ((p, value v) ∷ ds) es = ap (◌∷◌ v) (received-append ds es)
  received-append ((p, exception e) ∷ ds) es = received-append ds es

  answered-append : (ds es : List (ℕ × Reply A)) → answered (ds ++ es) ≡ answered ds ++ answered es
  answered-append [] es = refl
  answered-append ((p, r) ∷ ds) es = ap (◌∷◌ p) (answered-append ds es)

  step-IsExclusive : (o : Op A) (q : Queue A) → IsExclusive q → IsExclusive (step o q)
  unfolding step push pop unblock_pop resolve
  step-IsExclusive (pushes v) q x = ground arith
  step-IsExclusive (pops p) q x = ground arith
  step-IsExclusive (unblocks e) q x = ground arith

  received-push_to :
      (ps : List ℕ) (v : A) (q : Queue A)
      → (q.items ≡ []) ⊎ (ps ≡ [])
      → received (push_to ps v q).done ++ (push_to ps v q).items
        ≡ (received q.done ++ q.items) ++ v ∷ []
  unfolding push_to resolve
  received-push_to [] v q x = sym (append_assoc (received q.done) q.items (v ∷ []))
  received-push_to (p ∷ ps) v q (inl e) = rw e (simp (received-append, append-nil))
  received-push_to (p ∷ ps) v q (inr e) = cc

  received-pop_from :
      (vs : List A) (p : ℕ) (q : Queue A)
      → q.items ≡ vs
      → received (pop_from vs p q).done ++ (pop_from vs p q).items
        ≡ (received q.done ++ q.items) ++ []
  unfolding pop_from resolve
  received-pop_from [] p q e = sym (append-nil (received q.done ++ q.items))
  received-pop_from (v ∷ vs) p q e = rw e (simp (received-append, append-nil, append_assoc))

  received-unblock_first :
      (ps : List ℕ) (e : ℕ) (q : Queue A)
      → received (unblock_first ps e q).0.done ++ (unblock_first ps e q).0.items
        ≡ (received q.done ++ q.items) ++ []
  unfolding unblock_first resolve
  received-unblock_first [] e q = sym (append-nil (received q.done ++ q.items))
  received-unblock_first (p ∷ ps) e q = simp (received-append, append-nil)

  received-step :
      (o : Op A) (q : Queue A)
      → IsExclusive q
      → received (step o q).done ++ (step o q).items
        ≡ (received q.done ++ q.items) ++ pushed (o ∷ [])
  unfolding step push pop unblock_pop
  received-step (pushes v) q x = received-push_to q.awaiters v q x
  received-step (pops p) q x = received-pop_from q.items p q refl
  received-step (unblocks e) q x = received-unblock_first q.awaiters e q

  answered-push_to :
      (ps : List ℕ) (v : A) (q : Queue A)
      → q.awaiters ≡ ps
      → answered (push_to ps v q).done ++ (push_to ps v q).awaiters
        ≡ (answered q.done ++ q.awaiters) ++ []
  unfolding push_to resolve
  answered-push_to [] v q e = sym (append-nil (answered q.done ++ q.awaiters))
  answered-push_to (p ∷ ps) v q e = rw e (simp (answered-append, append-nil, append_assoc))

  answered-pop_from :
      (vs : List A) (p : ℕ) (q : Queue A)
      → (vs ≡ []) ⊎ (q.awaiters ≡ [])
      → answered (pop_from vs p q).done ++ (pop_from vs p q).awaiters
        ≡ (answered q.done ++ q.awaiters) ++ p ∷ []
  unfolding pop_from resolve
  answered-pop_from [] p q x = sym (append_assoc (answered q.done) q.awaiters (p ∷ []))
  answered-pop_from (v ∷ vs) p q (inl e) = cc
  answered-pop_from (v ∷ vs) p q (inr e) = rw e (simp (answered-append, append-nil))

  answered-unblock_first :
      (ps : List ℕ) (e : ℕ) (q : Queue A)
      → q.awaiters ≡ ps
      → answered (unblock_first ps e q).0.done ++ (unblock_first ps e q).0.awaiters
        ≡ (answered q.done ++ q.awaiters) ++ []
  unfolding unblock_first resolve
  answered-unblock_first [] e q h = sym (append-nil (answered q.done ++ q.awaiters))
  answered-unblock_first (p ∷ ps) e q h = rw h (simp (answered-append, append-nil, append_assoc))

  answered-step :
      (o : Op A) (q : Queue A)
      → IsExclusive q
      → answered (step o q).done ++ (step o q).awaiters
        ≡ (answered q.done ++ q.awaiters) ++ popped (o ∷ [])
  unfolding step push pop unblock_pop
  answered-step (pushes v) q x = answered-push_to q.awaiters v q refl
  answered-step (pops p) q x = answered-pop_from q.items p q x
  answered-step (unblocks e) q x = answered-unblock_first q.awaiters e q refl

  pushed-cons : (o : Op A) (os : List (Op A)) → pushed (o ∷ []) ++ pushed os ≡ pushed (o ∷ os)
  pushed-cons (pushes v) os = refl
  pushed-cons (pops p) os = refl
  pushed-cons (unblocks e) os = refl

  popped-cons : (o : Op A) (os : List (Op A)) → popped (o ∷ []) ++ popped os ≡ popped (o ∷ os)
  popped-cons (pushes v) os = refl
  popped-cons (pops p) os = refl
  popped-cons (unblocks e) os = refl

  received-run_from :
      (os : List (Op A)) (q : Queue A)
      → IsExclusive q
      → received (run os q).done ++ (run os q).items ≡ (received q.done ++ q.items) ++ pushed os
  unfolding run
  received-run_from [] q x = sym (append-nil (received q.done ++ q.items))
  received-run_from (o ∷ os) q x =
      received-run_from os (step o q) (step-IsExclusive o q x)
      ∙ rw (received-step o q x, append_assoc, pushed-cons o os)

  answered-run_from :
      (os : List (Op A)) (q : Queue A)
      → IsExclusive q
      → answered (run os q).done ++ (run os q).awaiters
        ≡ (answered q.done ++ q.awaiters) ++ popped os
  unfolding run
  answered-run_from [] q x = sym (append-nil (answered q.done ++ q.awaiters))
  answered-run_from (o ∷ os) q x =
      answered-run_from os (step o q) (step-IsExclusive o q x)
      ∙ rw (answered-step o q x, append_assoc, popped-cons o os)

  -- After any operations on an empty queue nobody waits while there is a value.
  pub run-IsExclusive : (os : List (Op A)) (q : Queue A) → IsExclusive q → IsExclusive (run os q)
  unfolding run
  run-IsExclusive [] q x = x
  run-IsExclusive (o ∷ os) q x = run-IsExclusive os (step o q) (step-IsExclusive o q x)

  -- After any operations on a new queue, the values received so far, with those that are stored, are
  -- the values pushed, in their order: none is lost, doubled or overtaken, whichever reads were
  -- unblocked.
  pub received-run :
      (os : List (Op A))
      → received (run os empty_queue).done ++ (run os empty_queue).items ≡ pushed os
  received-run os = received-run_from os empty_queue (inl refl)

  -- The reads are answered in the order in which they were made, and those not answered wait.
  pub answered-run :
      (os : List (Op A))
      → answered (run os empty_queue).done ++ (run os empty_queue).awaiters ≡ popped os
  answered-run os = answered-run_from os empty_queue (inl refl)
