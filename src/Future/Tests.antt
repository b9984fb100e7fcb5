-- ===== src/Future/Tests.antt =====
-- Examples for the futures.
use coroutines_classes.Prelude.{
  ltb, NotMem, suc, if◌then◌else◌, none, ℕ, ◌≡◌, refl, [], ◌∷◌, some, true, false, arith, update,
}
use coroutines_classes.Awaiter.{
  exchange_weak, Chains, null, resume_chain_set_ready, subscribe_check_ready,
}
use coroutines_classes.Awaiter.Resume.{KeepsLinks}
use coroutines_classes.Future.{
  claim, Cell, not_value, value, subscribe_awaiter, Got, returned, thrown, destroy, not_ready,
  set_value, get_value, ready,
}
use coroutines_classes.Future
use coroutines_classes.Awaiter.CoAwait.{suspended, await_suspend}
use coroutines_classes.Future.Await.{future_owner}
use coroutines_classes.Future.Orphan.{set_throws, catch_use, Goes, set_throws-never}
use coroutines_classes.Future.Listening.{handle_subscribe, handle_suspend-lost}
use coroutines_classes.Future.Shared.{construct, charge, release, reap, get_promise, init_if_needed}
use coroutines_classes.Future.Contract.{destroys, sets, waiting, settled, IsWaiting, outcome}
use coroutines_classes.Future.Steps.{step}
use coroutines_classes.Future.Runs.{Reaches, stop, go, set_value-first_wins}
use coroutines_classes.Future.Default.{PromiseWithDefault}

-- An awaiter whose `resume` does nothing to the chains.
abbrev inert : ℕ → Chains → Chains
inert y c = c

inert-KeepsLinks : KeepsLinks inert
inert-KeepsLinks = record { links = λ y c q n. refl; quiet = λ y c. refl }

inert-head : (y : ℕ) (b : Chains) → (inert y b).head ≡ b.head
inert-head y b = refl

-- The promise 70 refers to the future, and the awaiters 11 and 10 wait.
abbrev two_wait : Cell ℕ
two_wait = record {
  future = record {
    chains = record { next = update (λ _. null) 11 10; head = 11; log = [] };
    stored = not_value;
  };
  owns = update (λ _. false) 70 true;
}

two_wait-IsWaiting : IsWaiting two_wait 70 (11 ∷ 10 ∷ [])
two_wait-IsWaiting = record {
  chained = omega arith;
  open_head = omega arith;
  real = omega arith;
  none_resumed = refl;
  no_result = refl;
  owner = refl;
  sole = λ q n. ground arith;
}

-- The same future after the promise has set 5.
abbrev set_to_5 : Cell ℕ
set_to_5 = record {
  future = record {
    chains = record {
      next = update (update (update (λ _. null) 11 10) 11 null) 10 null;
      head = 2;
      log = 11 ∷ 10 ∷ [];
    };
    stored = value 5;
  };
  owns = update two_wait.owns 70 false;
}

set_value_run : set_value inert 3 70 (value 5) two_wait ≡ some (set_to_5, true)
unfolding set_value resume_chain_set_ready
set_value_run = refl

-- A second use of the promise changes nothing.
used_again :
    (c : Cell ℕ) × Reaches inert set_to_5
      (settled (value 5) (11 ∷ 10 ∷ []))
      c
      (settled (value 5) (11 ∷ 10 ∷ []))
unfolding step set_value
used_again = (
  _,
  go (false ∷ false ∷ []) 1 (sets 70 (value 6)) set_to_5 _ _ _ _ (some false) (omega arith)
      (omega arith) tt refl (stop _ _),
)

set_value-first_wins_example :
    (get_value used_again.0.future ≡ outcome (settled (value 5) (11 ∷ 10 ∷ [])))
    × (ready used_again.0.future ≡ true)
    × (used_again.0.future.chains.log ≡ 11 ∷ 10 ∷ [])
set_value-first_wins_example =
    set_value-first_wins inert inert-KeepsLinks inert-head 3 70 (value 5) two_wait set_to_5
      used_again.0 (waiting 70 (11 ∷ 10 ∷ [])) (settled (value 5) (11 ∷ 10 ∷ [])) (omega arith)
      two_wait-IsWaiting set_value_run used_again.1

abbrev target : PromiseWithDefault ℕ
target = record { promise = 71; def = 1 }

abbrev source : PromiseWithDefault ℕ
source = record { promise = 70; def = 2 }

-- What a late subscription of the awaiter 12 leaves.
abbrev late : Cell ℕ
late = record {
  future = record {
    chains = record {
      next = update (update set_to_5.future.chains.next 12 2) 12 null;
      head = 2;
      log = 11 ∷ 10 ∷ [];
    };
    stored = value 5;
  };
  owns = set_to_5.owns;
}

-- The awaiter 12 subscribes after the promise has set 5.
late_subscription : handle_subscribe (false ∷ false ∷ []) 12 set_to_5 ≡ some late
unfolding handle_subscribe subscribe_awaiter subscribe_check_ready
late_subscription = refl

handle_suspend-lost_example : (ready two_wait.future ≡ false) × NotMem 12 late.future.chains.log
handle_suspend-lost_example =
    handle_suspend-lost inert inert-KeepsLinks inert-head (false ∷ false ∷ []) 3 12 70 (value 5)
      two_wait set_to_5 late late (11 ∷ 10 ∷ []) (settled (value 5) (11 ∷ 10 ∷ [])) (omega arith)
      (omega arith) (omega arith) (omega arith) (omega arith) (omega arith, (omega arith, tt))
      two_wait-IsWaiting set_value_run refl late_subscription (stop _ _)

-- Without an object, a null pointer is dereferenced; with one, the handle gets another.
get_promise_empty : get_promise none ≡ none
unfolding get_promise init_if_needed
get_promise_empty = refl

get_promise_replaced :
    get_promise (some (construct false))
    ≡ some (
      record { users = 1; tracer = true; pending = true; destroyed = false },
      some (record { users = 0; tracer = true; pending = true; destroyed = false }),
    )
unfolding get_promise init_if_needed charge construct release reap
get_promise_replaced = refl

abbrev add_one : ℕ → Got ℕ
add_one n = returned (suc n)

abbrev refuse_big : ℕ → Got ℕ
refuse_big n = if ltb n 6 then returned n else thrown 9

-- The awaiter 12 awaits the future too, and then the promise is used.
three_wait :
    (c : Cell ℕ) × (await_suspend (future_owner (false ∷ false ∷ [])) 12 two_wait
      ≡ some (c, suspended))
unfolding await_suspend future_owner subscribe_awaiter subscribe_check_ready exchange_weak
three_wait = (_, refl)

-- The promise 70 is used for 5, the construction of the value throws, and the future is used further.
abbrev orphan : Cell ℕ
orphan = (claim 70 (set_throws 70 two_wait)).0

orphan_goes : (c : Cell ℕ) × Goes inert orphan c
unfolding step set_value claim set_throws destroy
orphan_goes = (
  _,
  Goes.go [] 1 (sets 70 (value 6)) orphan _ _ (some false) refl
      (Goes.go [] 1 (destroys 70) _ _ _ none refl (Goes.stay _)),
)

set_throws-never_example :
    (catch_use inert 3 70 9 two_wait ≡ some (orphan, false))
    × (orphan_goes.0.future.chains.log ≡ [])
    × (get_value orphan_goes.0.future ≡ not_ready)
set_throws-never_example =
    set_throws-never inert 70 3 9 (11 ∷ 10 ∷ []) two_wait orphan_goes.0 two_wait-IsWaiting
      orphan_goes.1
