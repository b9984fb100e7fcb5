-- ===== src/Future/Callback.antt =====
-- `future_with_cb` and `make_promise` of future.h: a future that is an awaiter of itself, whose
-- callback is called where the awaiter is resumed.
use coroutines_classes.Prelude.{ℕ, ◌≡◌, ◌≢◌, refl, sym, [], ◌∷◌, true, false, update, arith}
use coroutines_classes.Awaiter.{null, disabled_addr, instance_addr}
use coroutines_classes.Future.{Cell, not_value, get_value, not_ready}
use coroutines_classes.Future.Contract.{View, waiting, settled, IsWaiting, outcome}
use coroutines_classes.Future.Await.{Once}

module _ {ℓ} {A : Type ℓ} where
  -- The constructor at the address `a`, whose chain is the future itself, and the promise `p` made
  -- of it.
  unfoldable pub make_promise : ℕ → ℕ → (ℕ → ℕ) → Cell A
  make_promise a p next = record {
    future = record {
      chains = record { next = update next a null; head = a; log = [] };
      stored = not_value;
    };
    owns = update (λ _. false) p true;
  }

  -- The callback was not called while there is no result, and else was called once, when the future
  -- had it.
  abbrev pub IsCalled : ℕ → Cell A → View A → Type ℓ
  IsCalled a c (waiting p xs) = (c.future.chains.log ≡ []) × (get_value c.future ≡ not_ready)
  IsCalled a c (settled r xs) =
      Once a c.future.chains.log × (get_value c.future ≡ outcome (settled r xs))

  pub make_promise-IsWaiting :
      (a p : ℕ) (next : ℕ → ℕ)
      → a ≢ null
      → a ≢ disabled_addr
      → a ≢ instance_addr
      → IsWaiting (make_promise a p next) p (a ∷ [])
  unfolding make_promise
  make_promise-IsWaiting a p next n d i = record {
    chained = (refl, n, ground arith);
    open_head = (λ e. d (sym e), tt);
    real = (λ e. i (sym e), tt);
    none_resumed = refl;
    no_result = refl;
    owner = ground arith;
    sole = λ q e. ground (arith, e);
  }
