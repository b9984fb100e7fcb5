-- ===== src/Mutex/Steps.antt =====
-- What each operation of mutex.h does to a mutex that is free, held, or being entered.
use mathlib.Core.Option
use coroutines_classes.Prelude.{
  ℕ, ◌≡◌, ◌≢◌, refl, List, [], ◌∷◌, ◌++◌, NotMem, arith, ◌≤◌, ◌<◌, Bool, true, false, some, length,
  sym, ◌∙◌, subst, append-nil, ap,
}
use coroutines_classes.Awaiter.{null}
use coroutines_classes.Awaiter.Segment.{Segment, Segment-agree, Segment-Distinct, Segment-update}
use coroutines_classes.Awaiter.Subscribe.{honest, subscribe-Subscribed, Subscribed-Segment}
use coroutines_classes.Mutex.{
  Mutex, doorman, is_ready, subscribe_request, check_request, unlock, resume_first, build_queue,
}
use coroutines_classes.Mutex.Lists.{turn_onto, waiting, Apart-tail}
use coroutines_classes.Mutex.Build.{build_queue-Built}
use coroutines_classes.Mutex.Repr.{Free, Entering, Held}

pub is_ready-Free : (m : Mutex) → Free m → ((is_ready m).1 ≡ true) × Held (is_ready m).0 [] []
unfolding is_ready
is_ready-Free m f = ground arith

Held-head : (m : Mutex) (qs rs : List ℕ) → Held m qs rs → m.head ≢ null
Held-head m qs [] h = ground (arith, h.requested)
Held-head m qs (r ∷ rs) h = ground (arith, h.requested, h.real)

-- A try on a mutex that is not free fails and changes nothing.
pub is_ready-Held : (m : Mutex) (qs rs : List ℕ) → Held m qs rs → is_ready m ≡ (m, false)
unfolding is_ready
is_ready-Held m qs [] h = ground (arith, h.requested)
is_ready-Held m qs (r ∷ rs) h = ground (arith, h.requested, h.real)

-- The subscription on a free mutex makes the awaiter the one that enters.
pub subscribe_request-Free :
    (rounds : List Bool) (a : ℕ) (m : Mutex)
    → 2 ≤ honest rounds
    → a ≢ null
    → a ≢ doorman
    → Free m
    → (m' : Mutex) × (subscribe_request rounds a m ≡ some m') × Entering m' a [] × (m'.log ≡ m.log)
unfolding subscribe_request
subscribe_request-Free rounds a m h n d f =
    let (c', run, s) = subscribe-Subscribed rounds a m.chains h in
    let m' : Mutex = record m { chains = c' } in
    (
      m',
      ground (arith, run),
      record {
        no_queue = f.no_queue;
        requested = s.top;
        bottom = s.linked ∙ f.no_request;
        real = ((λ e. n (sym e)), tt);
        visitors = ((λ e. d (sym e)), tt);
      },
      s.quiet,
    )

-- On a mutex that somebody holds, it adds the awaiter to the stack of requests.
pub subscribe_request-Held :
    (rounds : List Bool) (a : ℕ) (m : Mutex) (qs rs : List ℕ)
    → 2 ≤ honest rounds
    → a ≢ null
    → a ≢ doorman
    → NotMem a qs
    → NotMem a rs
    → Held m qs rs
    → (m' : Mutex) × (subscribe_request rounds a m ≡ some m')
      × Held m' qs (a ∷ rs)
      × (m'.log ≡ m.log)
      × (m'.next a ≢ null)
unfolding subscribe_request
subscribe_request-Held rounds a m qs rs h n d nq nr held =
    let (c', run, s) = subscribe-Subscribed rounds a m.chains h in
    let m' : Mutex = record m { chains = c' } in
    (
      m',
      ground (arith, run),
      record {
        queued = Segment-agree m.next c'.next a m.queue qs null s.others nq held.queued;
        requested = Subscribed-Segment a m.chains c' rs doorman s d nr held.requested;
        apart = (nq, held.apart);
        real = ((λ e. n (sym e)), held.real);
      },
      s.quiet,
      λ e. Held-head m qs rs held (sym s.linked ∙ e),
    )

-- A subscription to a mutex that is being entered joins the visitors.
pub subscribe_request-Entering :
    (rounds : List Bool) (b a : ℕ) (m : Mutex) (rs : List ℕ)
    → 2 ≤ honest rounds
    → b ≢ null
    → b ≢ doorman
    → NotMem b (a ∷ rs)
    → Entering m a rs
    → (m' : Mutex) × (subscribe_request rounds b m ≡ some m')
      × Entering m' a (b ∷ rs)
      × (m'.log ≡ m.log)
unfolding subscribe_request
subscribe_request-Entering rounds b a m rs h n d nm en =
    let (c', run, s) = subscribe-Subscribed rounds b m.chains h in
    let m' : Mutex = record m { chains = c' } in
    (
      m',
      ground (arith, run),
      record {
        no_queue = en.no_queue;
        requested = Subscribed-Segment b m.chains c' rs a s nm.0 nm.1 en.requested;
        bottom = s.others a (λ e. nm.0 (sym e)) ∙ en.bottom;
        real = (en.real.0, ((λ e. n (sym e)), en.real.1));
        visitors = (en.visitors.0, ((λ e. d (sym e)), en.visitors.1));
      },
      s.quiet,
    )

-- The awaiter that enters finds its link null: it has the lock, and those who came since wait in
-- the queue, first come first.
pub check_request-Entering :
    (fuel a : ℕ) (m : Mutex) (rs : List ℕ)
    → length rs < fuel
    → Entering m a rs
    → (m' : Mutex) × (check_request fuel a m ≡ some (m', false))
      × Held m' (turn_onto rs []) []
      × (m'.log ≡ m.log)
unfolding check_request
check_request-Entering fuel a m rs h en =
    let (m', run, b) = build_queue-Built fuel a m rs h en.real.1 en.no_queue en.requested in
    (
      m',
      rw (en.bottom, run),
      record { queued = b.queued; requested = b.top; apart = tt; real = tt },
      b.quiet,
    )

-- An awaiter whose link is not null waits, and the mutex stays as it is.
pub check_request-linked :
    (fuel a : ℕ) (m : Mutex) → m.next a ≢ null → check_request fuel a m ≡ some (m, true)
unfolding check_request
check_request-linked fuel a m n = ground arith

-- The first of the queue is resumed, and its link is cleared.
pub resume_first-Held :
    (m : Mutex) (q : ℕ) (qs rs : List ℕ)
    → Held m (q ∷ qs) rs
    → Held (resume_first m) qs rs
      × ((resume_first m).log ≡ m.log ++ q ∷ [])
      × ((resume_first m).next q ≡ null)
unfolding resume_first
resume_first-Held m q qs rs h =
    let (n, a) = Apart-tail q rs qs h.apart in
    let d = Segment-Distinct m.next m.queue (q ∷ qs) null h.queued in
    (
      record {
        queued =
            Segment-update m.next m.queue null (m.next m.queue) qs null (rw h.queued.0 d.0)
              (rw h.queued.0 h.queued.2);
        requested =
            Segment-update m.next m.queue null m.head rs doorman (rw h.queued.0 n) h.requested;
        apart = a;
        real = h.real;
      },
      rw h.queued.0,
      ground (arith, h.queued.0),
    )

-- With nobody waiting, `unlock` frees the mutex and resumes nobody.
pub unlock-Free :
    (fuel : ℕ) (m : Mutex)
    → Held m [] []
    → (m' : Mutex) × (unlock fuel m ≡ some m') × Free m' × (m'.log ≡ m.log)
unfolding unlock
unlock-Free fuel m h = (
  record m { chains = record m.chains { head = null } },
  ground (arith, h.queued, h.requested),
  record { no_request = refl; no_queue = h.queued },
  refl,
)

unlock-queue : (fuel : ℕ) (m : Mutex) → m.queue ≢ null → unlock fuel m ≡ some (resume_first m)
unfolding unlock
unlock-queue fuel m n = ground arith

unlock-build :
    (fuel : ℕ) (m : Mutex)
    → m.queue ≡ null
    → m.head ≢ doorman
    → unlock fuel m ≡ Option.map resume_first (build_queue fuel doorman m)
unfolding unlock
unlock-build fuel m e n = ground arith

-- Otherwise it hands the lock to the one who has waited longest, and the others keep their order.
pub unlock-Held :
    (fuel : ℕ) (m : Mutex) (qs rs : List ℕ) (w : ℕ) (ws : List ℕ)
    → length rs < fuel
    → Held m qs rs
    → waiting qs rs ≡ w ∷ ws
    → (m' : Mutex) × (qs' rs' : List ℕ) × (unlock fuel m ≡ some m')
      × Held m' qs' rs'
      × (waiting qs' rs' ≡ ws)
      × (m'.log ≡ m.log ++ w ∷ [])
unlock-Held fuel m (q ∷ qs) rs w ws lt h e =
    let (h', log, _) = resume_first-Held m q qs rs h in
    (
      resume_first m,
      qs,
      rs,
      unlock-queue fuel m (λ e'. h.queued.1 (sym h.queued.0 ∙ e')),
      h',
      cc e,
      rw log (cc e),
    )
unlock-Held fuel m [] [] w ws lt h e = cc
unlock-Held fuel m [] (r ∷ rs) w ws lt h e =
    let (b', run, b) = build_queue-Built fuel doorman m (r ∷ rs) lt h.real h.queued h.requested in
    let held : Held b' (w ∷ ws) [] = record {
      queued = subst (λ l. Segment b'.next b'.queue l null) e b.queued;
      requested = b.top;
      apart = tt;
      real = tt;
    } in
    let (h', log, _) = resume_first-Held b' w ws [] held in
    (
      resume_first b',
      ws,
      [],
      rw (unlock-build fuel m h.queued (λ e'. h.requested.1 (sym h.requested.0 ∙ e')), run),
      h',
      append-nil ws,
      log ∙ ap (λ l. l ++ w ∷ []) b.quiet,
    )
