-- ===== src/MonitorHub/Subscription/Lifecycle.antt =====
-- src/hub.rs, `run_subscription`: what a hub's client can rely on in the items of one subscription.
use repics.Prelude.{
  ℕ, zero, suc, ◌≡◌, refl, ◌⊎◌, inl, inr, Bool, true, false, ◌||◌, Option, none, some, List, [],
  ◌∷◌, String, Result, ok, err, arith, Result-cases, Bool-cases,
}
use repics.Epics.Client.{CaTypes}
use repics.Ca.Counts.{monitor_count}
use repics.MonitorHub.Subscription.{
  value, error, connect_timeout, connected, SubscribeArgs, Sender, Phase, connecting, forwarding,
  returned, Task, Channel, Input, connect_done, deadline, event, pause, resume, close, monitor_end,
  monitor_value, monitor_error, return_error, want_values, subscribe_capped, phase2, connect,
  connecting_step, forwarding_step, dispatch, step, start, run, is_set, monitor_call,
}
use repics.MonitorHub.Subscription.Protocol.{
  View, nothing_seen, is_closed, observe, observe_all, view, Agrees, Inv, task, seen, emit-Inv,
  return_end-Inv, return_error-Inv, forward_event-Inv,
}

-- What a client has seen by the time the task is in this phase, the hub closed after `left` sends.
abbrev pub Complete : Phase → Option ℕ → View → Type 0
Complete returned left v = (v.over ≡ true) ⊎ (left ≡ some 0)
Complete _ left v = v.over ≡ false

module _ {C : CaTypes} where
  -- Phase 2 starts connected, with nothing but the state of phase 1 to go by.
  record Ready (t : Task C) (v : View) : Type 0 where
    sent_so_far : view t ≡ some v
    live : v.over ≡ false
    same : v.up ≡ t.up
    seen_up : v.seen_up ≡ true

  subscribe_capped-Inv :
      (id : ℕ) (args : SubscribeArgs C) (ch : Channel C) (paused : Bool) (t : Task C)
      (limit : Option ℕ) (v : View)
      → Ready t v
      → Inv (subscribe_capped id args ch paused t limit)
  unfolding subscribe_capped
  subscribe_capped-Inv id args ch paused t limit v r =
      elim (Result-cases (ch.subscribe (monitor_call args limit))) [
        | inl (_, e) ↦ rw (e, subscribe_capped) (v, r.sent_so_far, (r.live, r.same, r.seen_up))
        | inr (x, e) ↦ rw (e, subscribe_capped) (return_error-Inv id x t v r.sent_so_far r.live)
      ]

  phase2-Inv :
      (id : ℕ) (args : SubscribeArgs C) (ch : Channel C) (paused : Bool) (t : Task C) (v : View)
      → Ready t v
      → Inv (phase2 id args ch paused t)
  unfolding phase2
  phase2-Inv id args ch paused t v r = elim (Bool-cases (want_values args ch)) [
    | inr e ↦ rw e (v, r.sent_so_far, (r.live, r.same, r.seen_up))
    | inl e ↦ rw e (capped (monitor_count ch.cap_count args.count))
  ]
    where
      capped :
          (cap : Result C.Error (Option ℕ))
          → Inv (elim cap [
            | ok n ↦ subscribe_capped id args ch paused t n
            | err x ↦ return_error id x t
          ])
      capped (ok n) = subscribe_capped-Inv id args ch paused t n v r
      capped (err x) = return_error-Inv id x t v r.sent_so_far r.live

  connect-Inv :
      (id : ℕ) (args : SubscribeArgs C) (ch : Channel C) (q set up : Bool) (tx : Sender C)
      (v : View)
      → seen tx ≡ some v
      → Agrees (connecting q set) (task up (connecting q set) tx) v
      → Inv (connect id args ch q (task up (connecting q set) tx))
  unfolding connect observe
  connect-Inv id args ch q set true tx v h a =
      phase2-Inv id args ch q (task true (connecting q set) tx) v
        (record { sent_so_far = h; live = a.0; same = a.1; seen_up = ground arith })
  connect-Inv id args ch q set false tx v h a =
      emit-Inv (task true (connecting q set) tx) (connected id) (phase2 id args ch q) v
        (record v { up = true; seen_up = true }) h (ground arith)
        (λ tx' e.
          phase2-Inv id args ch q (task true (connecting q set) tx')
            (record v { up = true; seen_up = true })
            (record { sent_so_far = e; live = a.0; same = refl; seen_up = refl }))

  connecting_step-Inv :
      (id : ℕ) (args : SubscribeArgs C) (q set up : Bool) (tx : Sender C) (v : View) (i : Input C)
      → seen tx ≡ some v
      → Agrees (connecting q set) (task up (connecting q set) tx) v
      → Inv (connecting_step id args q set i (task up (connecting q set) tx))
  unfolding connecting_step observe
  connecting_step-Inv id args q set up tx v (connect_done (ok _) ch) h a =
      connect-Inv id args ch q set up tx v h a
  connecting_step-Inv id args q set up tx v (connect_done (err e) ch) h a =
      return_error-Inv id e (task up (connecting q set) tx) v h a.0
  connecting_step-Inv id args q true up tx v deadline h a =
      emit-Inv (task up (connecting q false) tx) (connect_timeout id) (λ u. u) v
        (record v { timed_out = true }) h (ground arith)
        (λ tx' e. (record v { timed_out = true }, e, ground arith))
  connecting_step-Inv id args q false up tx v deadline h a = (v, h, a)
  connecting_step-Inv id args q set up tx v (event ev) h a =
      forward_event-Inv id ev up (connecting q set) tx v tt h a
  connecting_step-Inv id args q set up tx v pause h a = (v, h, a)
  connecting_step-Inv id args q set up tx v resume h a = (v, h, a)
  connecting_step-Inv id args q set up tx v close h a =
      return_end-Inv id (task up (connecting q set) tx) v h a.0
  connecting_step-Inv id args q set up tx v monitor_end h a = (v, h, a)
  connecting_step-Inv id args q set up tx v (monitor_value s) h a = (v, h, a)
  connecting_step-Inv id args q set up tx v (monitor_error e) h a = (v, h, a)

  forwarding_step-Inv :
      (id : ℕ) (name : String) (p : Option Bool) (up : Bool) (tx : Sender C) (v : View)
      (i : Input C)
      → seen tx ≡ some v
      → Agrees (forwarding p) (task up (forwarding p) tx) v
      → Inv (forwarding_step id name p i (task up (forwarding p) tx))
  unfolding forwarding_step observe
  forwarding_step-Inv id name (some p) up tx v monitor_end h a =
      return_end-Inv id (task up (forwarding (some p)) tx) v h a.0
  forwarding_step-Inv id name (some p) up tx v (monitor_value s) h a =
      emit-Inv (task up (forwarding (some p)) tx) (value id name s) (λ u. u) v v h (ground arith)
        (λ tx' e. (v, e, a))
  forwarding_step-Inv id name (some p) up tx v (monitor_error x) h a =
      emit-Inv (task up (forwarding (some p)) tx) (error id x) (λ u. u) v v h (ground arith)
        (λ tx' e. (v, e, a))
  forwarding_step-Inv id name none up tx v monitor_end h a = (v, h, a)
  forwarding_step-Inv id name none up tx v (monitor_value s) h a = (v, h, a)
  forwarding_step-Inv id name none up tx v (monitor_error x) h a = (v, h, a)
  forwarding_step-Inv id name p up tx v (event ev) h a =
      forward_event-Inv id ev up (forwarding p) tx v tt h a
  forwarding_step-Inv id name p up tx v pause h a = (v, h, a)
  forwarding_step-Inv id name p up tx v resume h a = (v, h, a)
  forwarding_step-Inv id name p up tx v close h a =
      return_end-Inv id (task up (forwarding p) tx) v h a.0
  forwarding_step-Inv id name p up tx v (connect_done r ch) h a = (v, h, a)
  forwarding_step-Inv id name p up tx v deadline h a = (v, h, a)

  dispatch-Inv :
      (id : ℕ) (name : String) (args : SubscribeArgs C) (up : Bool) (p : Phase) (tx : Sender C)
      (v : View) (i : Input C)
      → seen tx ≡ some v
      → Agrees p (task up p tx) v
      → Inv (dispatch id name args p i (task up p tx))
  unfolding dispatch
  dispatch-Inv id name args up (connecting q set) tx v i h a =
      connecting_step-Inv id args q set up tx v i h a
  dispatch-Inv id name args up (forwarding p) tx v i h a =
      forwarding_step-Inv id name p up tx v i h a
  dispatch-Inv id name args up returned tx v i h a = (v, h, a)

  run-Inv :
      (id : ℕ) (name : String) (args : SubscribeArgs C) (t : Task C) (is : List (Input C))
      → Inv t
      → Inv (run id name args t is)
  unfolding run step
  run-Inv id name args t [] i = i
  run-Inv id name args t (x ∷ xs) (v, h, a) =
      run-Inv id name args (step id name args t x) xs
        (dispatch-Inv id name args t.up t.phase t.tx v x h a)

  start-Inv :
      (id : ℕ) (args : SubscribeArgs C) (up : Bool) (left : Option ℕ) → Inv (start id args up left)
  unfolding start observe observe_all
  start-Inv id args true left =
      emit-Inv
        (task true (connecting false (is_set args.connect_timeout))
          (record { sent = []; left = left }))
        (connected id) (λ u. u) nothing_seen (record nothing_seen { up = true; seen_up = true })
        refl refl
        (λ tx e. (
          record nothing_seen { up = true; seen_up = true },
          e,
          (refl, refl, ground arith, ground arith),
        ))
  start-Inv id args false left = (nothing_seen, refl, (refl, refl, refl, ground arith))

  agrees→Complete : (p : Phase) (t : Task C) (v : View) → Agrees p t v → Complete p t.tx.left v
  agrees→Complete (connecting q set) t v a = a.0
  agrees→Complete (forwarding p) t v a = a.0
  agrees→Complete returned t v a = ended t.tx.left a
    where
      ended :
          (left : Option ℕ) → (v.over || is_closed left) ≡ true → (v.over ≡ true) ⊎ (left ≡ some 0)
      ended none e = ground arith
      ended (some zero) e = inr refl
      ended (some (suc n)) e = ground arith

  -- In whatever order the arms fire and whenever the hub is closed, the items that a subscription
  -- sends keep to the protocol: nothing follows `End`, `Connected` and `Disconnected` alternate
  -- with `Connected` first, a value comes only after a `Connected`, and `ConnectTimeout` comes at
  -- most once. The task has sent no `End` while it runs, and when it has returned it has sent
  -- `End`, unless the hub was closed.
  pub run-observe_all :
      (id : ℕ) (name : String) (args : SubscribeArgs C) (up : Bool) (left : Option ℕ)
      (is : List (Input C))
      → let t = run id name args (start id args up left) is in
        (v : View) × (observe_all (some nothing_seen) t.tx.sent ≡ some v)
        × Complete t.phase t.tx.left v
  run-observe_all id name args up left is =
      let t = run id name args (start id args up left) is in
      let (v, h, a) = run-Inv id name args (start id args up left) is (start-Inv id args up left) in
      (v, h, agrees→Complete t.phase t v a)
