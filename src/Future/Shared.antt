-- ===== src/Future/Shared.antt =====
-- `shared_future` of future.h: a future that its handles own together, and that keeps itself alive
-- until it is resolved.
--
-- The heap holds the objects `future_internal`, one at each address: how many handles refer to it,
-- whether the pointer of its `resolve_tracer` does, and whether its promise is still unresolved. A
-- handle is the address it refers to, or `none`.
use mathlib.Core.Option
use coroutines_classes.Prelude.{
  ℕ, ◌+◌, ◌-◌, ◌<◌, ◌≡◌, refl, sym, ap, inl, inr, Option, none, some, Bool, true, false, ◌==◌, ◌&&◌,
  not, if◌then◌else◌, Bool-cases, arith, ◌∙◌, List, [], ◌∷◌,
}

pub record Internal : Type 0 where
  pub users : ℕ
  pub tracer : Bool
  pub pending : Bool
  pub destroyed : Bool

-- The last pointer that goes destroys the object.
unfoldable pub reap : Internal → Internal
reap o = if o.users == 0 && not o.tracer then record o { destroyed = true } else o

-- `charge`: the pointer is set, and taken back if the future is ready.
unfoldable pub charge : Internal → Internal
unfolding reap
charge o =
    let o' = record o { tracer = true } in
    if o.pending then o' else reap (record o' { tracer = false })

-- The constructor from a function that takes a promise: `resolved` says whether it used it.
unfoldable pub construct : Bool → Internal
unfolding charge
construct resolved =
    charge (record { users = 1; tracer = false; pending = not resolved; destroyed = false })

unfoldable pub copy : Internal → Internal
copy o = record o { users = o.users + 1 }

unfoldable pub release : Internal → Internal
unfolding reap
release o = reap (record o { users = o.users - 1 })

-- The promise is resolved; the tracer is one of those who wait, and drops its pointer.
unfoldable pub resolve : Internal → Internal
unfolding reap
resolve o = reap (record o { pending = false; tracer = false })

-- `init_if_needed`, with the test as it is written: what the handle refers to after it, and the
-- object that it gave up.
unfoldable pub init_if_needed : Option Internal → Option Internal × Option Internal
unfolding release
init_if_needed none = (none, none)
init_if_needed (some o) = (
  some (record { users = 1; tracer = false; pending = false; destroyed = false }),
  some (release o),
)

-- `get_promise`; `none`: a null pointer is dereferenced.
unfoldable pub get_promise : Option Internal → Option (Internal × Option Internal)
unfolding init_if_needed charge
get_promise h =
    let (h', given_up) = init_if_needed h in
    Option.map (λ o. (charge (record o { pending = true }), given_up)) h'

pub data SharedOp : Type 0 where
  copies : SharedOp
  releases : SharedOp
  resolves : SharedOp

unfoldable pub operate_shared : SharedOp → Internal → Internal
unfolding copy release resolve
operate_shared copies o = copy o
operate_shared releases o = release o
operate_shared resolves o = resolve o

unfoldable pub run_shared : List SharedOp → Internal → Internal
unfolding operate_shared
run_shared [] o = o
run_shared (op ∷ ops) o = run_shared ops (operate_shared op o)

-- A handle is copied or released only while there is one, and the promise is used once.
abbrev pub IsAllowed : SharedOp → Internal → Type 0
IsAllowed copies o = 0 < o.users
IsAllowed releases o = 0 < o.users
IsAllowed resolves o = o.pending ≡ true

abbrev pub AreAllowed : List SharedOp → Internal → Type 0
unfolding operate_shared
AreAllowed [] o = Unit
AreAllowed (op ∷ ops) o = IsAllowed op o × AreAllowed ops (operate_shared op o)

-- The tracer refers to the object while it is pending, and it is destroyed when nobody does.
pub record IsKept (o : Internal) : Type 0 where
  pub traced : o.tracer ≡ o.pending
  pub ended : o.destroyed ≡ (o.users == 0 && not o.pending)

pub construct-IsKept : (resolved : Bool) → IsKept (construct resolved)
unfolding construct charge reap
construct-IsKept true = record { traced = refl; ended = refl }
construct-IsKept false = record { traced = refl; ended = refl }

construct-holds :
    (resolved : Bool)
    → ((construct resolved).users ≡ 1) × ((construct resolved).pending ≡ not resolved)
unfolding construct charge reap
construct-holds true = (refl, refl)
construct-holds false = (refl, refl)

reap-IsKept : (o : Internal) → o.tracer ≡ o.pending → o.destroyed ≡ false → IsKept (reap o)
unfolding reap
reap-IsKept o t d = elim (Bool-cases (o.users == 0 && not o.tracer)) [
  | inl e ↦ rw e (record { traced = t; ended = sym e ∙ ap (λ b. o.users == 0 && not b) t })
  | inr e ↦ rw e (record { traced = t; ended = d ∙ sym e ∙ ap (λ b. o.users == 0 && not b) t })
]

reap-holds : (o : Internal) → ((reap o).users ≡ o.users) × ((reap o).pending ≡ o.pending)
unfolding reap
reap-holds o = elim (Bool-cases (o.users == 0 && not o.tracer)) [
  | inl e ↦ rw e (refl, refl)
  | inr e ↦ rw e (refl, refl)
]

operate_shared-IsKept :
    (op : SharedOp) (o : Internal) → IsAllowed op o → IsKept o → IsKept (operate_shared op o)
unfolding operate_shared copy release resolve
operate_shared-IsKept copies o ok h = record { traced = h.traced; ended = ground (arith, h.ended) }
operate_shared-IsKept releases o ok h = reap-IsKept _ h.traced (ground (arith, h.ended))
operate_shared-IsKept resolves o ok h =
    reap-IsKept (record o { pending = false; tracer = false }) refl (ground (arith, h.ended))

pub run_shared-IsKept :
    (ops : List SharedOp) (o : Internal) → AreAllowed ops o → IsKept o → IsKept (run_shared ops o)
unfolding run_shared
run_shared-IsKept [] o ok h = h
run_shared-IsKept (op ∷ ops) o ok h =
    run_shared-IsKept ops (operate_shared op o) ok.1 (operate_shared-IsKept op o ok.0 h)

-- How many handles there are, and whether the promise has not been used.
abbrev pub holders : List SharedOp → ℕ → ℕ
holders [] n = n
holders (copies ∷ ops) n = holders ops (n + 1)
holders (releases ∷ ops) n = holders ops (n - 1)
holders (resolves ∷ ops) n = holders ops n

abbrev pub unresolved : List SharedOp → Bool → Bool
unresolved [] b = b
unresolved (copies ∷ ops) b = unresolved ops b
unresolved (releases ∷ ops) b = unresolved ops b
unresolved (resolves ∷ ops) b = unresolved ops false

run_shared-holds :
    (ops : List SharedOp) (o : Internal)
    → ((run_shared ops o).users ≡ holders ops o.users)
      × ((run_shared ops o).pending ≡ unresolved ops o.pending)
unfolding run_shared operate_shared copy release resolve
run_shared-holds [] o = (refl, refl)
run_shared-holds (copies ∷ ops) o = run_shared-holds ops (copy o)
run_shared-holds (releases ∷ ops) o =
    let (a, b) = run_shared-holds ops (release o) in
    let (c, d) = reap-holds (record o { users = o.users - 1 }) in
    (a ∙ ap (holders ops) c, b ∙ ap (unresolved ops) d)
run_shared-holds (resolves ∷ ops) o =
    let (a, b) = run_shared-holds ops (resolve o) in
    let (c, d) = reap-holds (record o { pending = false; tracer = false }) in
    (a ∙ ap (holders ops) c, b ∙ ap (unresolved ops) d)

-- The lifetime of a shared future, whose function used the promise at once (`resolved`) or did not:
-- after any sequence in which handles are copied and released while there is one, and the promise
-- is used at most once, the object has been destroyed exactly if no handle is left and the promise
-- has been used.
pub run_shared-destroyed :
    (resolved : Bool) (ops : List SharedOp)
    → AreAllowed ops (construct resolved)
    → (run_shared ops (construct resolved)).destroyed
      ≡ (holders ops 1 == 0 && not (unresolved ops (not resolved)))
run_shared-destroyed resolved ops ok =
    let h = run_shared-IsKept ops (construct resolved) ok (construct-IsKept resolved) in
    let (users, pending) = run_shared-holds ops (construct resolved) in
    let (one, fresh) = construct-holds resolved in rw (h.ended, users, pending, one, fresh) refl
