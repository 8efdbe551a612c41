-- ===== src/Runtime.antt =====
-- src/runtime.rs: a Rust future handed to asyncio, and the count of the calls in flight. What a
-- future gives, and when it is done, is the environment's.
pub mod InFlight
pub mod Promise
pub mod Many
pub mod Examples
use repics.Prelude.{
  ℕ, zero, suc, ◌-◌, Bool, true, false, ◌||◌, eqb, if◌then◌else◌, List, [], ◌∷◌, Option, none, some,
  Result, ok, err,
}

-- An asyncio future.
pub data PyFuture {ℓ} (E A : Type ℓ) : Type ℓ where
  pending : PyFuture E A
  resolved : A → PyFuture E A
  failed : E → PyFuture E A
  cancelled : PyFuture E A

-- How far the runtime is with a call: the future runs; it has ended, with its outcome or with a
-- cancellation noticed; its outcome waits on the loop for `Completor`; nothing is left to do.
pub data Stage {ℓ} (E A : Type ℓ) : Type ℓ where
  running : Stage E A
  ended : Option (Result E A) → Stage E A
  queued : Result E A → Stage E A
  over : Stage E A

pub record Call {ℓ} (E A : Type ℓ) : Type ℓ where
  pub future : PyFuture E A
  -- Whether `CancelRelay` has sent on `cancel_tx`.
  pub relayed : Bool
  pub stage : Stage E A

-- What may happen to a call, in any order.
pub data Action {ℓ} (E A : Type ℓ) : Type ℓ where
  -- Python cancels the asyncio future.
  cancel : Action E A
  -- The done callback of the asyncio future runs.
  relay : Action E A
  -- The Rust future is done, with what Python makes of its value, or it has panicked and the error
  -- stands for it.
  finish : Result E A → Action E A
  -- The `select!` sees the cancellation.
  notice : Action E A
  -- The blocking thread posts the outcome; the loop may be closed, or the interpreter gone.
  post : Bool → Action E A
  -- The loop runs `Completor`.
  complete : Action E A

-- What `into_py_future` gives its caller: a raise, a done asyncio future, or one to wait for.
pub data Handed {ℓ} (E A : Type ℓ) : Type ℓ where
  raised : E → Handed E A
  done : A → Handed E A
  awaiting : Call E A → Handed E A

abbrev pub new_call {ℓ} : {E A : Type ℓ} → Call E A
new_call = record { future = pending; relayed = false; stage = running }

-- The first poll decides whether the call is handed to asyncio at all.
pub into_py_future {ℓ} : {E A : Type ℓ} → Option (Result E A) → Handed E A
into_py_future none = awaiting new_call
into_py_future (some (ok a)) = done a
into_py_future (some (err e)) = raised e

-- The calls and `IN_FLIGHT`.
pub record Loop {ℓ} (E A : Type ℓ) : Type ℓ where
  pub calls : List (Call E A)
  pub in_flight : ℕ

-- A call is handed over, or something happens to the call with this index.
pub data Event {ℓ} (E A : Type ℓ) : Type ℓ where
  hand_over : Event E A
  act : ℕ → Action E A → Event E A

module _ {ℓ} {E A : Type ℓ} where
  is_cancelled : PyFuture E A → Bool
  is_cancelled cancelled = true
  is_cancelled _ = false

  -- `future.cancel()`: a future that is done stays as it is.
  cancel_future : PyFuture E A → PyFuture E A
  cancel_future pending = cancelled
  cancel_future f = f

  -- `Completor`: `set_result` or `set_exception`, unless the future was cancelled; a future that is
  -- done already raises, and stays as it is.
  settle : Result E A → PyFuture E A → PyFuture E A
  settle r cancelled = cancelled
  settle (ok a) pending = resolved a
  settle (err e) pending = failed e
  settle r f = f

  -- The thread that posts: nothing for a cancellation noticed, or for a future cancelled meanwhile.
  post_to : Bool → Option (Result E A) → PyFuture E A → Stage E A
  unfolding is_cancelled
  post_to alive none f = over
  post_to alive (some r) f = if is_cancelled f then over else if alive then queued r else over

  finish_stage : Result E A → Stage E A → Stage E A
  finish_stage r running = ended (some r)
  finish_stage r s = s

  notice_stage : Bool → Stage E A → Stage E A
  notice_stage true running = ended none
  notice_stage _ s = s

  post_stage : Bool → PyFuture E A → Stage E A → Stage E A
  unfolding post_to
  post_stage alive f (ended o) = post_to alive o f
  post_stage alive f s = s

  complete_call : Call E A → Stage E A → Call E A
  unfolding settle
  complete_call c (queued r) = record c { future = settle r c.future; stage = over }
  complete_call c s = c

  -- An action that is not possible changes nothing.
  pub apply : Action E A → Call E A → Call E A
  unfolding cancel_future is_cancelled finish_stage notice_stage post_stage complete_call
  apply cancel c = record c { future = cancel_future c.future }
  apply relay c = record c { relayed = is_cancelled c.future || c.relayed }
  apply (finish r) c = record c { stage = finish_stage r c.stage }
  apply notice c = record c { stage = notice_stage c.relayed c.stage }
  apply (post alive) c = record c { stage = post_stage alive c.future c.stage }
  apply complete c = complete_call c c.stage

  -- A call whose guard is still held.
  pub owes : Stage E A → Bool
  owes running = true
  owes (ended o) = true
  owes _ = false

  has_ended : Stage E A → Bool
  has_ended (ended o) = true
  has_ended _ = false

  -- Whether the action drops the guard.
  drops : Action E A → Call E A → Bool
  unfolding has_ended
  drops (post alive) c = has_ended c.stage
  drops _ c = false

  apply_at : ℕ → Action E A → List (Call E A) → List (Call E A)
  unfolding apply
  apply_at i a [] = []
  apply_at zero a (c ∷ cs) = apply a c ∷ cs
  apply_at (suc i) a (c ∷ cs) = c ∷ apply_at i a cs

  drops_at : ℕ → Action E A → List (Call E A) → Bool
  unfolding drops
  drops_at i a [] = false
  drops_at zero a (c ∷ cs) = drops a c
  drops_at (suc i) a (c ∷ cs) = drops_at i a cs

  pub handle : Event E A → Loop E A → Loop E A
  unfolding apply_at drops_at
  handle hand_over s = record { calls = new_call ∷ s.calls; in_flight = suc s.in_flight }
  handle (act i a) s = record {
    calls = apply_at i a s.calls;
    in_flight = if drops_at i a s.calls then s.in_flight - 1 else s.in_flight;
  }

  pub run : List (Event E A) → Loop E A → Loop E A
  unfolding handle
  run [] s = s
  run (e ∷ es) s = run es (handle e s)

  -- `wait_idle`, at a moment: whether nothing is owed.
  pub is_idle : Loop E A → Bool
  is_idle s = eqb s.in_flight 0
