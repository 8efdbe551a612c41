-- ===== src/Runtime/Examples.antt =====
-- src/runtime.rs: runs of calls on concrete input.
use repics.Prelude.{Result, ℕ, ◌≡◌, refl, true, List, [], ◌∷◌, ◌++◌, ok, err, ◌↔◌}
use repics.Runtime.{
  failed, cancelled, Action, cancel, relay, finish, notice, post, complete, Loop, Event, hand_over,
  act, run, is_idle, new_call, apply,
}
use repics.Runtime.InFlight.{owed, run-owed}
use repics.Runtime.Promise.{promise, Step, given, open_promise, apply_all, apply_all-refines}

abbrev empty : Loop ℕ ℕ
empty = record { calls = []; in_flight = 0 }

-- The second call is cancelled while the first is on its way to the loop.
abbrev two_calls : List (Event ℕ ℕ)
two_calls = hand_over ∷ hand_over ∷ act 0 (finish (ok 7)) ∷ act 1 cancel ∷ act 0 (post true) ∷ []

run-owed_example :
    ((run two_calls empty).in_flight ≡ owed (run two_calls empty).calls)
    × ((is_idle (run two_calls empty) ≡ true) ↔ (owed (run two_calls empty).calls ≡ 0))
unfolding owed
run-owed_example = run-owed two_calls empty refl

-- The cancellation is relayed but not noticed yet, so its call is still owed.
run-two_calls : (run (two_calls ++ (act 1 relay ∷ act 0 complete ∷ [])) empty).in_flight ≡ 1
unfolding run
run-two_calls = refl

run-noticed :
    (run (two_calls ++ (act 1 relay ∷ act 1 notice ∷ act 1 (post true) ∷ [])) empty).in_flight ≡ 0
unfolding run
run-noticed = refl

abbrev cancelled_late : List (Action ℕ ℕ)
cancelled_late = finish (ok 7) ∷ post true ∷ cancel ∷ complete ∷ []

abbrev answered : List (Action ℕ ℕ)
answered = finish (err 3) ∷ post true ∷ complete ∷ cancel ∷ []

apply_all-refines_example :
    ((a : Action ℕ ℕ)
      → Step a
          (promise (apply_all cancelled_late new_call))
          (promise (apply a (apply_all cancelled_late new_call))))
    × (promise (apply_all cancelled_late new_call) ≡ open_promise
        → (r : Result ℕ ℕ)
        → promise
            (apply_all (finish r ∷ post true ∷ complete ∷ []) (apply_all cancelled_late new_call))
          ≡ given r)
apply_all-refines_example = apply_all-refines cancelled_late

future-cancelled_late : (apply_all cancelled_late new_call).future ≡ cancelled
unfolding apply_all apply
future-cancelled_late = refl

future-answered : (apply_all answered new_call).future ≡ failed 3
unfolding apply_all apply
future-answered = refl
