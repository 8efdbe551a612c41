-- ===== src/MonitorHub/Subscription.antt =====
-- src/hub.rs, `run_subscription`: the task of one subscription. The arms of its two `select!` loops
-- are the inputs, in whatever order they fire; what the task reads from the channel comes with them.
pub mod Protocol
pub mod Lifecycle
use repics.Prelude.{
  ℕ, zero, suc, ◌≤◌, Bool, true, false, not, ◌&&◌, Option, none, some, List, [], ◌∷◌, ◌++◌, leb,
  String, Result, ok, err, if◌then◌else◌,
}
use repics.Prelude.Int.{ℤ}
use repics.Epics.Client.{CaTypes}
use repics.Ca.Counts.{monitor_count}

pub data Item (C : CaTypes) : Type 0 where
  value : ℕ → String → C.Snap → Item C
  error : ℕ → C.Error → Item C
  connect_timeout : ℕ → Item C
  connected : ℕ → Item C
  end : ℕ → Item C
  disconnected : ℕ → Item C
  access_rights : ℕ → Bool → Bool → Item C

pub data Readback : Type 0 where
  label native : Readback

pub record SubscribeArgs (C : CaTypes) : Type 0 where
  pub deadband : C.Float
  pub mask : ℕ
  pub enum_as_string : Bool
  pub float_as_string : Bool
  pub count : ℤ
  pub connect_timeout : Option C.Float
  pub values : Bool
  pub values_max_count : Option ℕ

-- The sending end of the hub's queue. The receiver is dropped, at a time that the task does not
-- know: after `left` more sends, or never.
pub record Sender (C : CaTypes) : Type 0 where
  pub sent : List (Item C)
  pub left : Option ℕ

pub data Phase : Type 0 where
  -- Phase 1: `paused`, and whether the deadline is still set.
  connecting : Bool → Bool → Phase
  -- Phase 3: the monitor handle, if there is one, with its pause state.
  forwarding : Option Bool → Phase
  returned : Phase

pub record Task (C : CaTypes) : Type 0 where
  pub up : Bool
  pub phase : Phase
  pub tx : Sender C

-- `Result<ConnectionEvent, RecvError>`; on a lag the task asks the channel whether it is connected.
pub data ChannelEvent : Type 0 where
  connected native_type_changed disconnected closed : ChannelEvent
  access_rights : Bool → Bool → ChannelEvent
  lagged : Bool → ChannelEvent

-- The call of `subscribe_with_mask_readback_count`.
pub record MonitorCall (C : CaTypes) : Type 0 where
  pub deadband : C.Float
  pub mask : ℕ
  pub readback : Readback
  pub float_as_string : Bool
  pub cap : Option ℕ

-- What phase 2 learns from the channel: two reads of the element count, and the subscription.
pub record Channel (C : CaTypes) : Type 0 where
  pub limit_count : Result C.Error ℕ
  pub cap_count : Result C.Error ℕ
  pub subscribe : MonitorCall C → Result C.Error (Unit {0})

pub data Input (C : CaTypes) : Type 0 where
  connect_done : Result C.Error (Unit {0}) → Channel C → Input C
  deadline : Input C
  event : ChannelEvent → Input C
  pause resume close : Input C
  monitor_end : Input C
  monitor_value : C.Snap → Input C
  monitor_error : C.Error → Input C

-- `is_none_or(|m| count.is_ok_and(|n| n <= m))`.
abbrev pub within : {E : Type 0} → Option ℕ → Result E ℕ → Bool
within none n = true
within (some m) (ok n) = leb n m
within (some m) (err e) = false

abbrev pub re_pause : Bool → Option Bool → Option Bool
re_pause p none = none
re_pause p (some _) = some p

abbrev pub is_set : {A : Type 0} → Option A → Bool
is_set none = false
is_set (some f) = true

module _ {C : CaTypes} where
  -- `tx.send(item).await`; `none` is the error.
  pub send : Sender C → Item C → Option (Sender C)
  send tx item = elim tx.left [
    | none ↦ some (record tx { sent = tx.sent ++ (item ∷ []) })
    | some zero ↦ none
    | some (suc n) ↦ some (record { sent = tx.sent ++ (item ∷ []); left = some n })
  ]

  -- `send!(item)` and what follows it.
  pub emit : Task C → Item C → (Task C → Task C) → Task C
  unfolding send
  emit t item next = elim (send t.tx item) [
    | none ↦ record t { phase = returned }
    | some tx ↦ next (record t { tx = tx })
  ]

  pub return_end : ℕ → Task C → Task C
  unfolding emit
  return_end id t = emit t (end id) (λ t. record t { phase = returned })

  pub return_error : ℕ → C.Error → Task C → Task C
  unfolding emit return_end
  return_error id e t = emit t (error id e) (return_end id)

  -- `connected = now; send!(..)` if that is a change.
  pub transition : ℕ → Bool → Task C → Task C
  unfolding emit
  transition id true t = if t.up then t else emit (record t { up = true }) (connected id) (λ t. t)
  transition id false t =
      if t.up then emit (record t { up = false }) (disconnected id) (λ t. t) else t

  -- `forward_event!`.
  pub forward_event : ℕ → ChannelEvent → Task C → Task C
  unfolding transition return_end emit
  forward_event id ChannelEvent.connected t = transition id true t
  forward_event id ChannelEvent.native_type_changed t = transition id true t
  forward_event id ChannelEvent.disconnected t = transition id false t
  forward_event id (ChannelEvent.access_rights r w) t = emit t (access_rights id r w) (λ t. t)
  forward_event id (ChannelEvent.lagged now) t = transition id now t
  forward_event id ChannelEvent.closed t = return_end id t

  pub want_values : SubscribeArgs C → Channel C → Bool
  want_values args ch = args.values && within args.values_max_count ch.limit_count

  pub monitor_call : SubscribeArgs C → Option ℕ → MonitorCall C
  monitor_call args cap = record {
    deadband = args.deadband;
    mask = args.mask;
    readback = if args.enum_as_string then label else native;
    float_as_string = args.float_as_string;
    cap = cap;
  }

  -- The `Ok(cap)` branch: subscribe, and pause if that was asked for before.
  subscribe_capped : ℕ → SubscribeArgs C → Channel C → Bool → Task C → Option ℕ → Task C
  unfolding return_error monitor_call
  subscribe_capped id args ch paused t cap = elim (ch.subscribe (monitor_call args cap)) [
    | ok _ ↦ record t { phase = forwarding (some paused) }
    | err e ↦ return_error id e t
  ]

  -- Phase 2.
  pub phase2 : ℕ → SubscribeArgs C → Channel C → Bool → Task C → Task C
  unfolding subscribe_capped want_values
  phase2 id args ch paused t =
      if want_values args ch
      then elim (monitor_count ch.cap_count args.count) [
        | ok cap ↦ subscribe_capped id args ch paused t cap
        | err e ↦ return_error id e t
      ]
      else record t { phase = forwarding none }

  -- The first connection: `Connected` unless the event stream has reported it.
  pub connect : ℕ → SubscribeArgs C → Channel C → Bool → Task C → Task C
  unfolding emit phase2
  connect id args ch paused t =
      if t.up
      then phase2 id args ch paused t
      else emit (record t { up = true }) (connected id) (phase2 id args ch paused)

  pub connecting_step : ℕ → SubscribeArgs C → Bool → Bool → Input C → Task C → Task C
  unfolding connect return_error forward_event
  connecting_step id args paused set (connect_done (ok _) ch) t = connect id args ch paused t
  connecting_step id args paused set (connect_done (err e) ch) t = return_error id e t
  connecting_step id args paused true deadline t =
      emit (record t { phase = connecting paused false }) (connect_timeout id) (λ t. t)
  connecting_step id args paused false deadline t = t
  connecting_step id args paused set (event ev) t = forward_event id ev t
  connecting_step id args paused set pause t = record t { phase = connecting true set }
  connecting_step id args paused set resume t = record t { phase = connecting false set }
  connecting_step id args paused set close t = return_end id t
  connecting_step id args paused set monitor_end t = t
  connecting_step id args paused set (monitor_value s) t = t
  connecting_step id args paused set (monitor_error e) t = t

  -- Phase 3. The monitor arm is guarded by `handle.is_some()`.
  pub forwarding_step : ℕ → String → Option Bool → Input C → Task C → Task C
  unfolding return_end emit forward_event
  forwarding_step id name (some p) monitor_end t = return_end id t
  forwarding_step id name (some p) (monitor_value s) t = emit t (value id name s) (λ t. t)
  forwarding_step id name (some p) (monitor_error e) t = emit t (error id e) (λ t. t)
  forwarding_step id name none monitor_end t = t
  forwarding_step id name none (monitor_value s) t = t
  forwarding_step id name none (monitor_error e) t = t
  forwarding_step id name h (event ev) t = forward_event id ev t
  forwarding_step id name h pause t = record t { phase = forwarding (re_pause true h) }
  forwarding_step id name h resume t = record t { phase = forwarding (re_pause false h) }
  forwarding_step id name h close t = return_end id t
  forwarding_step id name h (connect_done r ch) t = t
  forwarding_step id name h deadline t = t

  dispatch : ℕ → String → SubscribeArgs C → Phase → Input C → Task C → Task C
  unfolding connecting_step forwarding_step
  dispatch id name args (connecting paused set) i t = connecting_step id args paused set i t
  dispatch id name args (forwarding h) i t = forwarding_step id name h i t
  dispatch id name args returned i t = t

  pub step : ℕ → String → SubscribeArgs C → Task C → Input C → Task C
  unfolding dispatch
  step id name args t i = dispatch id name args t.phase i t

  -- Up to phase 1, for a channel that is connected already or not.
  pub start : ℕ → SubscribeArgs C → Bool → Option ℕ → Task C
  unfolding emit
  start id args up left =
      let t : Task C = record {
        up = up;
        phase = connecting false (is_set args.connect_timeout);
        tx = record { sent = []; left = left };
      } in
      if up then emit t (connected id) (λ t. t) else t

  pub run : ℕ → String → SubscribeArgs C → Task C → List (Input C) → Task C
  run id name args t [] = t
  run id name args t (i ∷ is) = run id name args (step id name args t i) is
