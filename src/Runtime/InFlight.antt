-- ===== src/Runtime/InFlight.antt =====
-- src/runtime.rs, `IN_FLIGHT`: what the count says.
use repics.Prelude.{
  ℕ, zero, suc, ◌+◌, ◌-◌, ◌≡◌, refl, arith, Bool, true, false, if◌then◌else◌, List, [], ◌∷◌, Option,
  none, some, Result, ◌↔◌,
}
use repics.Runtime.{
  PyFuture, cancelled, Stage, running, ended, queued, over, Call, Action, cancel, relay, finish,
  notice, post, complete, is_cancelled, post_to, finish_stage, notice_stage, post_stage,
  complete_call, apply, owes, has_ended, drops, Loop, apply_at, drops_at, Event, hand_over, act,
  handle, run, is_idle,
}

pub one_if : Bool → ℕ
one_if true = 1
one_if false = 0

count_after : (b : Bool) (n m k : ℕ) → n ≡ m → k + one_if b ≡ m → (if b then n - 1 else n) ≡ k
unfolding one_if
count_after true n m k h q = omega arith
count_after false n m k h q = omega arith

module _ {ℓ} {E A : Type ℓ} where
  -- The calls whose guard is held.
  unfoldable pub owed : List (Call E A) → ℕ
  unfolding owes
  owed [] = 0
  owed (c ∷ cs) = one_if (owes c.stage) + owed cs

  owes-finish_stage :
      (r : Result E A) (s : Stage E A) → one_if (owes (finish_stage r s)) ≡ one_if (owes s)
  unfolding finish_stage owes
  owes-finish_stage r running = refl
  owes-finish_stage r s = refl

  owes-notice_stage :
      (b : Bool) (s : Stage E A) → one_if (owes (notice_stage b s)) ≡ one_if (owes s)
  unfolding notice_stage owes
  owes-notice_stage true running = refl
  owes-notice_stage true s = refl
  owes-notice_stage false s = refl

  owes-post_to :
      (alive : Bool) (o : Option (Result E A)) (f : PyFuture E A) → owes (post_to alive o f) ≡ false
  unfolding post_to owes is_cancelled
  owes-post_to alive none f = refl
  owes-post_to alive (some r) cancelled = refl
  owes-post_to true (some r) f = refl
  owes-post_to false (some r) f = refl

  owes-post_stage :
      (alive : Bool) (f : PyFuture E A) (s : Stage E A)
      → one_if (owes (post_stage alive f s)) + one_if (has_ended s) ≡ one_if (owes s)
  unfolding post_stage owes has_ended one_if
  owes-post_stage alive f (ended o) = rw (owes-post_to alive o f) refl
  owes-post_stage alive f running = refl
  owes-post_stage alive f (queued r) = refl
  owes-post_stage alive f over = refl

  owes-complete_call :
      (c : Call E A) (s : Stage E A)
      → c.stage ≡ s
      → one_if (owes (complete_call c s).stage) ≡ one_if (owes c.stage)
  unfolding complete_call owes
  owes-complete_call c (queued r) h = rw h refl
  owes-complete_call c s h = refl

  -- A guard is dropped exactly where the call stops to owe.
  owes-apply :
      (a : Action E A) (c : Call E A)
      → one_if (owes (apply a c).stage) + one_if (drops a c) ≡ one_if (owes c.stage)
  unfolding apply drops one_if
  owes-apply cancel c = omega arith
  owes-apply relay c = omega arith
  owes-apply (finish r) c = omega (arith, owes-finish_stage r c.stage)
  owes-apply notice c = omega (arith, owes-notice_stage c.relayed c.stage)
  owes-apply (post alive) c = owes-post_stage alive c.future c.stage
  owes-apply complete c = omega (arith, owes-complete_call c c.stage refl)

  owed-apply_at :
      (i : ℕ) (a : Action E A) (cs : List (Call E A))
      → owed (apply_at i a cs) + one_if (drops_at i a cs) ≡ owed cs
  unfolding owed apply_at drops_at one_if
  owed-apply_at i a [] = refl
  owed-apply_at zero a (c ∷ cs) = omega (arith, owes-apply a c)
  owed-apply_at (suc i) a (c ∷ cs) = omega (arith, owed-apply_at i a cs)

  handle-owed :
      (e : Event E A) (s : Loop E A)
      → s.in_flight ≡ owed s.calls
      → (handle e s).in_flight ≡ owed (handle e s).calls
  unfolding handle owed owes one_if
  handle-owed hand_over s h = omega arith
  handle-owed (act i a) s h =
      count_after (drops_at i a s.calls) s.in_flight (owed s.calls) _ h (owed-apply_at i a s.calls)

  -- Whatever happens to the calls, and in whatever order, `IN_FLIGHT` is the number of the calls whose
  -- outcome is neither posted nor given up; so `wait_idle` finds it zero exactly when there is no such
  -- call.
  pub run-owed :
      (es : List (Event E A)) (s : Loop E A)
      → s.in_flight ≡ owed s.calls
      → ((run es s).in_flight ≡ owed (run es s).calls)
        × ((is_idle (run es s) ≡ true) ↔ (owed (run es s).calls ≡ 0))
  unfolding run is_idle
  run-owed [] s h = (h, (λ e. ground arith, λ e. ground arith))
  run-owed (e ∷ es) s h = run-owed es (handle e s) (handle-owed e s h)
