-- ===== src/Runtime/Promise.antt =====
-- src/runtime.rs, a future handed to asyncio: what the asyncio future is told.
use repics.Prelude.{◌≡◌, refl, Bool, true, false, List, [], ◌∷◌, none, some, Result, ok, err}
use repics.Runtime.{
  PyFuture, pending, resolved, failed, cancelled, Stage, running, ended, queued, over, Call, Action,
  cancel, relay, finish, notice, post, complete, new_call, is_cancelled, cancel_future, settle,
  post_to, finish_stage, notice_stage, post_stage, complete_call, apply,
}

-- A promise: it is open, its value is computed, the value is given, or it is given up.
pub data Promise {ℓ} (E A : Type ℓ) : Type ℓ where
  open_promise : Promise E A
  computed : Result E A → Promise E A
  given : Result E A → Promise E A
  given_up : Promise E A

-- What an event does to a promise: its value is computed by the end of the Rust future, which is that
-- value, once, and given by `Completor`, as it was computed; it is given up by a cancellation, or by a
-- post to a loop that is closed, and neither happens to a promise that was given.
pub data Step {ℓ} {E A : Type ℓ} : Action E A → Promise E A → Promise E A → Type ℓ where
  stays : {a : Action E A} {p : Promise E A} → Step a p p
  computes : {r : Result E A} → Step (finish r) open_promise (computed r)
  gives : {r : Result E A} → Step complete (computed r) (given r)
  gives_up : Step cancel open_promise given_up
  drops_value : {r : Result E A} → Step cancel (computed r) given_up
  closed : {r : Result E A} → Step (post false) (computed r) given_up

module _ {ℓ} {E A : Type ℓ} where
  at_stage : Stage E A → Promise E A
  at_stage running = open_promise
  at_stage (ended none) = given_up
  at_stage (ended (some r)) = computed r
  at_stage (queued r) = computed r
  at_stage over = given_up

  -- The promise that a call implements, by what its asyncio future was told.
  promise_of : PyFuture E A → Stage E A → Promise E A
  unfolding at_stage
  promise_of pending s = at_stage s
  promise_of (resolved a) s = given (ok a)
  promise_of (failed e) s = given (err e)
  promise_of cancelled s = given_up

  unfoldable pub promise : Call E A → Promise E A
  unfolding promise_of
  promise c = promise_of c.future c.stage

  -- An asyncio future that was told is told nothing more: the call is over. Only a cancelled future
  -- has had its cancellation relayed, and only then does the runtime give the Rust future up.
  data Sound : PyFuture E A → Bool → Stage E A → Type ℓ where
    still_running : Sound pending false running
    has_value : {r : Result E A} → Sound pending false (ended (some r))
    on_loop : {r : Result E A} → Sound pending false (queued r)
    abandoned : Sound pending false over
    was_resolved : {a : A} → Sound (resolved a) false over
    was_failed : {e : E} → Sound (failed e) false over
    was_cancelled : {b : Bool} {s : Stage E A} → Sound cancelled b s

  IsSound : Call E A → Type ℓ
  IsSound c = Sound c.future c.relayed c.stage

  Simulates : Action E A → Call E A → Type ℓ
  unfolding promise IsSound
  Simulates a c = Step a (promise c) (promise (apply a c)) × IsSound (apply a c)

  abbrev of_parts : PyFuture E A → Bool → Stage E A → Call E A
  of_parts f b s = record { future = f; relayed = b; stage = s }

  apply-Simulates :
      (a : Action E A) {f : PyFuture E A} {b : Bool} {s : Stage E A}
      → Sound f b s
      → Simulates a (of_parts f b s)
  unfolding Simulates apply promise_of at_stage is_cancelled cancel_future settle finish_stage
      notice_stage post_stage post_to complete_call
  apply-Simulates cancel still_running = (gives_up, was_cancelled)
  apply-Simulates cancel has_value = (drops_value, was_cancelled)
  apply-Simulates cancel on_loop = (drops_value, was_cancelled)
  apply-Simulates cancel abandoned = (stays, was_cancelled)
  apply-Simulates cancel was_resolved = (stays, was_resolved)
  apply-Simulates cancel was_failed = (stays, was_failed)
  apply-Simulates cancel was_cancelled = (stays, was_cancelled)
  apply-Simulates relay still_running = (stays, still_running)
  apply-Simulates relay has_value = (stays, has_value)
  apply-Simulates relay on_loop = (stays, on_loop)
  apply-Simulates relay abandoned = (stays, abandoned)
  apply-Simulates relay was_resolved = (stays, was_resolved)
  apply-Simulates relay was_failed = (stays, was_failed)
  apply-Simulates relay was_cancelled = (stays, was_cancelled)
  apply-Simulates (finish r) still_running = (computes, has_value)
  apply-Simulates (finish r) has_value = (stays, has_value)
  apply-Simulates (finish r) on_loop = (stays, on_loop)
  apply-Simulates (finish r) abandoned = (stays, abandoned)
  apply-Simulates (finish r) was_resolved = (stays, was_resolved)
  apply-Simulates (finish r) was_failed = (stays, was_failed)
  apply-Simulates (finish r) was_cancelled = (stays, was_cancelled)
  apply-Simulates notice still_running = (stays, still_running)
  apply-Simulates notice has_value = (stays, has_value)
  apply-Simulates notice on_loop = (stays, on_loop)
  apply-Simulates notice abandoned = (stays, abandoned)
  apply-Simulates notice was_resolved = (stays, was_resolved)
  apply-Simulates notice was_failed = (stays, was_failed)
  apply-Simulates notice was_cancelled = (stays, was_cancelled)
  apply-Simulates (post alive) still_running = (stays, still_running)
  apply-Simulates (post true) has_value = (stays, on_loop)
  apply-Simulates (post false) has_value = (closed, abandoned)
  apply-Simulates (post alive) on_loop = (stays, on_loop)
  apply-Simulates (post alive) abandoned = (stays, abandoned)
  apply-Simulates (post alive) was_resolved = (stays, was_resolved)
  apply-Simulates (post alive) was_failed = (stays, was_failed)
  apply-Simulates (post alive) was_cancelled = (stays, was_cancelled)
  apply-Simulates complete still_running = (stays, still_running)
  apply-Simulates complete has_value = (stays, has_value)
  apply-Simulates complete (on_loop {r = ok a}) = (gives, was_resolved)
  apply-Simulates complete (on_loop {r = err e}) = (gives, was_failed)
  apply-Simulates complete abandoned = (stays, abandoned)
  apply-Simulates complete was_resolved = (stays, was_resolved)
  apply-Simulates complete was_failed = (stays, was_failed)
  apply-Simulates complete (was_cancelled {s = running}) = (stays, was_cancelled)
  apply-Simulates complete (was_cancelled {s = ended o}) = (stays, was_cancelled)
  apply-Simulates complete (was_cancelled {s = queued r}) = (stays, was_cancelled)
  apply-Simulates complete (was_cancelled {s = over}) = (stays, was_cancelled)

  unfoldable pub apply_all : List (Action E A) → Call E A → Call E A
  apply_all [] c = c
  apply_all (a ∷ acts) c = apply_all acts (apply a c)

  apply_all-IsSound :
      (acts : List (Action E A)) (c : Call E A) → IsSound c → IsSound (apply_all acts c)
  unfolding apply_all IsSound Simulates
  apply_all-IsSound [] c x = x
  apply_all-IsSound (a ∷ acts) c x = apply_all-IsSound acts (apply a c) (apply-Simulates a x).1

  -- A call on its way is told the outcome, by the post and `Completor`.
  Sound-given :
      (r : Result E A) {f : PyFuture E A} {b : Bool} {s : Stage E A}
      → Sound f b s
      → promise_of f s ≡ open_promise
      → promise (apply_all (finish r ∷ post true ∷ complete ∷ []) (of_parts f b s)) ≡ given r
  unfolding apply apply_all promise promise_of at_stage is_cancelled settle finish_stage post_stage
      post_to complete_call
  Sound-given (ok a) still_running h = refl
  Sound-given (err e) still_running h = refl
  Sound-given r has_value h = cc
  Sound-given r on_loop h = cc
  Sound-given r abandoned h = cc
  Sound-given r was_resolved h = cc
  Sound-given r was_failed h = cc
  Sound-given r was_cancelled h = cc

  -- Whatever has happened to a call that was handed to asyncio, and in whatever order, what happens next
  -- is a step of a promise: the asyncio future is told the Rust future's outcome, and once, unless it
  -- is cancelled or the loop closes first. As long as the promise is open, the future's end, a post
  -- to a loop that lives and the run of `Completor` tell it that outcome.
  pub apply_all-refines :
      (acts : List (Action E A))
      → let c = apply_all acts new_call in
        ((a : Action E A) → Step a (promise c) (promise (apply a c)))
        × (promise c ≡ open_promise
            → (r : Result E A)
            → promise (apply_all (finish r ∷ post true ∷ complete ∷ []) c) ≡ given r)
  unfolding promise IsSound Simulates
  apply_all-refines acts =
      let c = apply_all acts new_call in
      let x = apply_all-IsSound acts new_call still_running in
      (λ a. (apply-Simulates a x).0, λ h r. Sound-given r x h)
