-- ===== src/Mutex/Build.antt =====
-- `build_queue` of mutex.h: the loop that turns the stack of requests into a queue.
use coroutines_classes.Prelude.{
  ℕ, zero, suc, ◌<◌, ◌≡◌, refl, List, [], ◌∷◌, some, arith, length, NotMem, update, sym, ◌≢◌, ◌∙◌,
}
use coroutines_classes.Awaiter.{null}
use coroutines_classes.Awaiter.Segment.{Segment, Segment-update, Segment-Distinct}
use coroutines_classes.Mutex.{Mutex, move_requests, build_queue, doorman}
use coroutines_classes.Mutex.Lists.{turn_onto, Apart, Apart-cons, Apart-nil}

-- The state after the loop has moved the requests `rs` onto the queue `qs`.
pub record Built (m : Mutex) (rs qs : List ℕ) (h : ℕ) (m' : Mutex) : Type 0 where
  pub queued : Segment m'.next m'.queue (turn_onto rs qs) null
  pub top : m'.head ≡ h
  pub others : (q : ℕ) → NotMem q rs → m'.next q ≡ m.next q
  pub quiet : m'.log ≡ m.log

update-at : (f : ℕ → ℕ) (p r v : ℕ) → p ≡ r → update f p v r ≡ v
update-at f p r v e = ground arith

update-off : (f : ℕ → ℕ) (p r q v : ℕ) → p ≡ r → q ≢ r → update f p v q ≡ f q
update-off f p r q v e n = ground arith

pub move_requests-Built :
    (fuel req stop : ℕ) (m : Mutex) (rs qs : List ℕ)
    → length rs < fuel
    → NotMem null rs
    → Apart rs qs
    → Segment m.next req rs stop
    → Segment m.next m.queue qs null
    → (m' : Mutex) × (move_requests fuel req stop m ≡ some m') × Built m rs qs m.head m'
unfolding move_requests
move_requests-Built zero req stop m rs qs h n a s t = elim h [ ]
move_requests-Built (suc fuel) req stop m [] qs h n a s t =
    (m, ground arith, record { queued = t; top = refl; others = λ q k. refl; quiet = refl })
move_requests-Built (suc fuel) req stop m (r ∷ rs) qs h n a s t =
    let moved : Mutex = record m {
      chains = record m.chains { next = update m.next req m.queue };
      queue = req;
    } in
    let d = Segment-Distinct m.next req (r ∷ rs) stop s in
    let (m', run, b) =
      move_requests-Built fuel (m.next req) stop moved rs (r ∷ qs) (omega arith) n.1
        (Apart-cons r rs qs d.0 a.1)
        (Segment-update m.next req m.queue (m.next req) rs stop (rw s.0 d.0) (rw s.0 s.2))
        (
          s.0,
          (λ e. n.0 (sym e)),
          rw (update-at m.next req r m.queue s.0)
              (Segment-update m.next req m.queue m.queue qs null (rw s.0 a.0) t),
        ) in
    (
      m',
      ground (arith, run),
      record {
        queued = b.queued;
        top = b.top;
        others = λ q k. b.others q k.1 ∙ update-off m.next req r q m.queue s.0 k.0;
        quiet = b.quiet;
      },
    )

pub build_queue-Built :
    (fuel stop : ℕ) (m : Mutex) (rs : List ℕ)
    → length rs < fuel
    → NotMem null rs
    → m.queue ≡ null
    → Segment m.next m.head rs stop
    → (m' : Mutex) × (build_queue fuel stop m ≡ some m') × Built m rs [] doorman m'
unfolding build_queue
build_queue-Built fuel stop m rs h n e s =
    let (m', run, b) =
      move_requests-Built fuel m.head stop
        (record m { chains = record m.chains { head = doorman } }) rs [] h n (Apart-nil rs) s e in
    (m', run, record { queued = b.queued; top = b.top; others = b.others; quiet = b.quiet })
