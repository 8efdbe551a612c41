-- ===== src/MonitorHub/Subscription/Protocol.antt =====
-- src/hub.rs, `run_subscription`: the protocol of a subscription's items, and what each `send!` does to it.
use repics.Prelude.{
  ℕ, zero, ◌≡◌, refl, inl, inr, Bool, true, false, not, ◌&&◌, ◌||◌, Option, none, some, List, [],
  ◌∷◌, ◌++◌, arith, if◌then◌else◌, Option-cases,
}
use repics.Epics.Client.{CaTypes}
use repics.MonitorHub.Subscription.{
  Item, value, error, connect_timeout, connected, end, disconnected, access_rights, Sender, Phase,
  connecting, forwarding, returned, Task, ChannelEvent, send, emit, return_end, return_error,
  transition, forward_event,
}

-- What a client has seen of a subscription.
pub record View : Type 0 where
  pub up : Bool
  pub seen_up : Bool
  pub timed_out : Bool
  pub over : Bool

abbrev pub nothing_seen : View
nothing_seen = record { up = false; seen_up = false; timed_out = false; over = false }

abbrev pub is_closed : Option ℕ → Bool
is_closed (some zero) = true
is_closed _ = false

abbrev pub IsLive : Phase → Type 0
IsLive returned = ⊥
IsLive _ = Unit

module _ {C : CaTypes} where
  -- The protocol: nothing follows `End`; `Connected` and `Disconnected` alternate, `Connected` first;
  -- a value comes only after a `Connected`; `ConnectTimeout` comes at most once.
  pub observe_open : View → Item C → Option View
  observe_open v (value id name s) = if v.seen_up then some v else none
  observe_open v (error id e) = some v
  observe_open v (connect_timeout id) =
      if v.timed_out then none else some (record v { timed_out = true })
  observe_open v (connected id) =
      if v.up then none else some (record v { up = true; seen_up = true })
  observe_open v (end id) = some (record v { over = true })
  observe_open v (disconnected id) = if v.up then some (record v { up = false }) else none
  observe_open v (access_rights id r w) = some v

  unfoldable pub observe : Option View → Item C → Option View
  unfolding observe_open
  observe none item = none
  observe (some v) item = if v.over then none else observe_open v item

  unfoldable pub observe_all : Option View → List (Item C) → Option View
  observe_all o [] = o
  observe_all o (item ∷ items) = observe_all (observe o item) items

  observe_all-append :
      (o : Option View) (items : List (Item C)) (item : Item C)
      → observe_all o (items ++ (item ∷ [])) ≡ observe (observe_all o items) item
  unfolding observe_all
  observe_all-append o [] item = refl
  observe_all-append o (x ∷ items) item = observe_all-append (observe o x) items item

  abbrev pub view : Task C → Option View
  view t = observe_all (some nothing_seen) t.tx.sent

  -- How the task's own state stands to what it has sent.
  abbrev pub Agrees : Phase → Task C → View → Type 0
  Agrees (connecting paused set) t v =
      (v.over ≡ false)
      × (v.up ≡ t.up)
      × ((t.up && not v.seen_up) ≡ false)
      × ((set && v.timed_out) ≡ false)
  Agrees (forwarding h) t v = (v.over ≡ false) × (v.up ≡ t.up) × (v.seen_up ≡ true)
  Agrees returned t v = (v.over || is_closed t.tx.left) ≡ true

  -- The invariant of a task: what it has sent keeps to the protocol.
  abbrev pub Inv : Task C → Type 0
  Inv t = (v : View) × (view t ≡ some v) × Agrees t.phase t v

  abbrev pub task : Bool → Phase → Sender C → Task C
  task up p tx = record { up = up; phase = p; tx = tx }

  abbrev pub seen : Sender C → Option View
  seen tx = observe_all (some nothing_seen) tx.sent

  seen-send :
      (tx tx' : Sender C) (item : Item C) (v v' : View)
      → send tx item ≡ some tx'
      → seen tx ≡ some v
      → observe (some v) item ≡ some v'
      → seen tx' ≡ some v'
  unfolding send
  seen-send tx tx' item v v' e h o =
      ground (arith, observe_all-append (some nothing_seen) tx.sent item)

  left-send : (tx : Sender C) (item : Item C) → send tx item ≡ none → tx.left ≡ some 0
  unfolding send
  left-send tx item e = ground arith

  pub emit-Inv :
      (t : Task C) (item : Item C) (next : Task C → Task C) (v v' : View)
      → view t ≡ some v
      → observe (some v) item ≡ some v'
      → ((tx : Sender C) → seen tx ≡ some v' → Inv (next (record t { tx = tx })))
      → Inv (emit t item next)
  unfolding emit
  emit-Inv t item next v v' h o go = elim (Option-cases (send t.tx item)) [
    | inl e ↦ rw (e, emit) (v, h, ground (arith, left-send t.tx item e))
    | inr (tx, e) ↦ rw (e, emit) (go tx (seen-send t.tx tx item v v' e h o))
  ]

  pub return_end-Inv :
      (id : ℕ) (t : Task C) (v : View) → view t ≡ some v → v.over ≡ false → Inv (return_end id t)
  unfolding return_end observe
  return_end-Inv id t v h live =
      emit-Inv t (end id) (λ u. record u { phase = returned }) v (record v { over = true }) h
        (ground arith) (λ tx e. (record v { over = true }, e, ground arith))

  pub return_error-Inv :
      (id : ℕ) (e : C.Error) (t : Task C) (v : View)
      → view t ≡ some v
      → v.over ≡ false
      → Inv (return_error id e t)
  unfolding return_error observe
  return_error-Inv id e t v h live =
      emit-Inv t (error id e) (return_end id) v v h (ground arith)
        (λ tx g. return_end-Inv id (record t { tx = tx }) v g live)

  transition-Inv :
      (id : ℕ) (now up : Bool) (p : Phase) (tx : Sender C) (v : View)
      → IsLive p
      → seen tx ≡ some v
      → Agrees p (task up p tx) v
      → Inv (transition id now (task up p tx))
  unfolding transition observe
  transition-Inv id true true p tx v l h a = (v, h, a)
  transition-Inv id false false p tx v l h a = (v, h, a)
  transition-Inv id now up returned tx v l h a = absurd l
  transition-Inv id true false (connecting paused set) tx v l h a =
      emit-Inv (task true (connecting paused set) tx) (connected id) (λ u. u) v
        (record v { up = true; seen_up = true }) h (ground arith)
        (λ tx' e. (record v { up = true; seen_up = true }, e, ground arith))
  transition-Inv id true false (forwarding p) tx v l h a =
      emit-Inv (task true (forwarding p) tx) (connected id) (λ u. u) v
        (record v { up = true; seen_up = true }) h (ground arith)
        (λ tx' e. (record v { up = true; seen_up = true }, e, ground arith))
  transition-Inv id false true (connecting paused set) tx v l h a =
      emit-Inv (task false (connecting paused set) tx) (disconnected id) (λ u. u) v
        (record v { up = false }) h (ground arith)
        (λ tx' e. (record v { up = false }, e, ground arith))
  transition-Inv id false true (forwarding p) tx v l h a =
      emit-Inv (task false (forwarding p) tx) (disconnected id) (λ u. u) v (record v { up = false })
        h (ground arith) (λ tx' e. (record v { up = false }, e, ground arith))

  pub forward_event-Inv :
      (id : ℕ) (ev : ChannelEvent) (up : Bool) (p : Phase) (tx : Sender C) (v : View)
      → IsLive p
      → seen tx ≡ some v
      → Agrees p (task up p tx) v
      → Inv (forward_event id ev (task up p tx))
  unfolding forward_event observe
  forward_event-Inv id ChannelEvent.connected up p tx v l h a =
      transition-Inv id true up p tx v l h a
  forward_event-Inv id ChannelEvent.native_type_changed up p tx v l h a =
      transition-Inv id true up p tx v l h a
  forward_event-Inv id ChannelEvent.disconnected up p tx v l h a =
      transition-Inv id false up p tx v l h a
  forward_event-Inv id (ChannelEvent.lagged now) up p tx v l h a =
      transition-Inv id now up p tx v l h a
  forward_event-Inv id ChannelEvent.closed up returned tx v l h a = absurd l
  forward_event-Inv id ChannelEvent.closed up (connecting q set) tx v l h a =
      return_end-Inv id (task up (connecting q set) tx) v h a.0
  forward_event-Inv id ChannelEvent.closed up (forwarding q) tx v l h a =
      return_end-Inv id (task up (forwarding q) tx) v h a.0
  forward_event-Inv id (ChannelEvent.access_rights r w) up returned tx v l h a = absurd l
  forward_event-Inv id (ChannelEvent.access_rights r w) up (connecting q set) tx v l h a =
      emit-Inv (task up (connecting q set) tx) (access_rights id r w) (λ u. u) v v h (ground arith)
        (λ tx' e. (v, e, a))
  forward_event-Inv id (ChannelEvent.access_rights r w) up (forwarding q) tx v l h a =
      emit-Inv (task up (forwarding q) tx) (access_rights id r w) (λ u. u) v v h (ground arith)
        (λ tx' e. (v, e, a))
