-- ===== src/MonitorHub/Hub.antt =====
-- src/hub.rs, `MonitorHub`: the control channels of the subscriptions and the shared queue. The tasks
-- run on their own; a closed control channel is a task that has returned.
pub mod Controls
pub mod Batches
use repics.Prelude.{
  ℕ, zero, suc, ◌+◌, ◌-◌, ◌%◌, ◌^◌, Bool, true, false, String, Option, none, some, List, [], ◌∷◌,
  ◌++◌, eqb, nat_eq, length, if◌then◌else◌,
}
use repics.Prelude.Int.{ℤ}
use repics.Prelude.Map.{Map, get, insert, remove, no_entries}
use repics.Ca.Drain.{Drain, pull}
use repics.Ca.Drain as Drains
use repics.Epics.Client.{CaTypes}
use repics.MonitorHub.Subscription.{
  Item, value, error, connect_timeout, connected, end, disconnected, access_rights, SubscribeArgs,
}

pub data Ctrl : Type 0 where
  close pause resume : Ctrl

pub record Hub (C : CaTypes) : Type 0 where
  -- The receiver of the queue, with what is in it.
  pub drain : Drain (List (Item C))
  -- The control channel of each subscription not yet closed, by its number.
  pub subs : Map ℕ ℕ
  pub next_id : ℕ
  -- What has been sent on each control channel, oldest first.
  pub controls : ℕ → List Ctrl
  -- The tasks spawned so far: the id, the PV's name, the arguments and the control channel.
  pub spawned : List (ℕ × String × SubscribeArgs C × ℕ)

abbrev pub sent_on : (ℕ → List Ctrl) → ℕ → Ctrl → ℕ → List Ctrl
sent_on f tx c j = if eqb tx j then f j ++ (c ∷ []) else f j

-- The payload of a batch item, and its kind.
pub data Payload (C : CaTypes) : Type 0 where
  snapshot : String → C.Snap → Payload C
  exception : C.Error → Payload C
  nothing : Payload C
  rights : Bool → Bool → Payload C

-- No cap is `usize::MAX`.
cap_of : ℕ → ℕ
cap_of max_items = if eqb max_items 0 then 2 ^ 64 - 1 else max_items

module _ {C : CaTypes} where
  pub new : Hub C
  new = record {
    drain = Drains.new [];
    subs = no_entries;
    next_id = 1;
    controls = λ tx. [];
    spawned = [];
  }

  send_to : Hub C → Ctrl → Option ℕ → Hub C
  send_to h c none = h
  send_to h c (some tx) = record h { controls = sent_on h.controls tx c }

  pub send_ctrl : Hub C → ℕ → Ctrl → Hub C
  unfolding send_to
  send_ctrl h id c = send_to h c (get id h.subs)

  -- `tx` is the channel that the call makes.
  pub subscribe : Hub C → String → SubscribeArgs C → ℕ → ℕ × Hub C
  subscribe h name args tx = (
    h.next_id,
    record h {
      next_id = (h.next_id + 1) % 2 ^ 32;
      subs = insert h.next_id tx h.subs;
      spawned = h.spawned ++ ((h.next_id, name, args, tx) ∷ []);
    },
  )

  pub close_subscription : Hub C → ℕ → Hub C
  unfolding send_to
  close_subscription h id = send_to (record h { subs = remove id h.subs }) close (get id h.subs)

  pub pause_subscription : Hub C → ℕ → Hub C
  unfolding send_ctrl
  pause_subscription h id = send_ctrl h id pause

  pub resume_subscription : Hub C → ℕ → Hub C
  unfolding send_ctrl
  resume_subscription h id = send_ctrl h id resume

  pub len : Hub C → ℕ
  len h = length h.subs

  -- The end of `subs.clear()` drops every control channel.
  pub close_hub : Hub C → Hub C
  close_hub h = record h { subs = no_entries; drain = Drains.close h.drain }

  -- `while items.len() < cap`, with the room that is left.
  taken : ℕ → List (Item C) → List (Item C) → List (Item C) × List (Item C)
  taken zero items queue = (items, queue)
  taken (suc room) items [] = (items, [])
  taken (suc room) items (i ∷ queue) = taken room (items ++ (i ∷ [])) queue

  first_batch : ℕ → List (Item C) → Option (List (Item C)) × List (Item C)
  unfolding taken
  first_batch cap [] = (none, [])
  first_batch cap (i ∷ queue) =
      let (items, rest) = taken (cap - 1) (i ∷ []) queue in (some items, rest)

  pub batch_item : Item C → ℕ × ℕ × Payload C
  batch_item (value id name snap) = (id, 0, snapshot name snap)
  batch_item (error id e) = (id, 1, exception e)
  batch_item (connect_timeout id) = (id, 2, nothing)
  batch_item (connected id) = (id, 3, nothing)
  batch_item (end id) = (id, 4, nothing)
  batch_item (disconnected id) = (id, 5, nothing)
  batch_item (access_rights id r w) = (id, 6, rights r w)

  -- `do_recv_batch`, on what is queued by the time that it stops waiting: `none` while it is parked,
  -- or once the hub is closed.
  pub recv_batch : Hub C → ℕ → Bool → Option (List (Item C)) × Hub C
  unfolding first_batch cap_of pull
  recv_batch h max_items interrupted =
      let (items, d) = pull h.drain (first_batch (cap_of max_items)) interrupted in
      (items, record h { drain = d })
