-- ===== src/Generator/Tests.antt =====
-- Examples for the generators.
use coroutines_classes.Generator.Arguments
use coroutines_classes.Generator.Arguments.{ArgBody, feed, replies, feed-replies, gave, ended}
use coroutines_classes.Prelude.{[], ◌∷◌, ◌+◌, ℕ, ◌≡◌, refl, some, none, true, false, arith}
use coroutines_classes.Generator.{Body, yields, awaits, throws, Generator, create}
use coroutines_classes.Generator.Calls.{IsIdle}
use coroutines_classes.Generator.Collect.{by_bool, collect, values, ending, collect-values}

-- It awaits before its second value, and throws the exception 9.
abbrev two_values : Body ℕ
two_values = yields 4 (awaits (yields 5 (awaits (throws 9))))

create-IsIdle : (b : Body ℕ) → IsIdle b (create b)
unfolding create
create-IsIdle b = record { free = refl; clean = refl; undone = refl; rest = refl; alive = refl }

collect-values_example :
    collect by_bool 2 3 (create two_values) ≡ some (values two_values, ending two_values)
collect-values_example =
    collect-values by_bool 2 3 two_values (create two_values) (omega arith) (omega arith)
      (create-IsIdle two_values)

-- A generator that has ended with the exception 9.
abbrev thrown_out : Generator ℕ
thrown_out = record {
  caller = none;
  ret = none;
  exp = some 9;
  done = false;
  body = throws 9;
  finished = true;
}

-- A body that asks for its first argument, yields it, yields the next one twice over, and ends.
abbrev echo : ArgBody ℕ ℕ
echo =
    Arguments.peeks
      (λ a. Arguments.yields a (λ b. Arguments.yields (b + b) (λ _. Arguments.returns)))

feed-replies_example :
    feed (3 ∷ 4 ∷ 5 ∷ 6 ∷ []) (Arguments.create echo)
    ≡ some (replies (λ _. echo) (3 ∷ 4 ∷ 5 ∷ 6 ∷ []))
feed-replies_example = feed-replies echo (3 ∷ 4 ∷ 5 ∷ 6 ∷ [])

echo_answers : replies (λ _. echo) (3 ∷ 4 ∷ 5 ∷ 6 ∷ []) ≡ gave 3 ∷ gave 8 ∷ ended ∷ []
echo_answers = refl
