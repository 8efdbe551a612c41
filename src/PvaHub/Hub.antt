-- ===== src/PvaHub/Hub.antt =====
-- src/pva/hub.rs, `Entry`, `PvaMonitorHub`: the monitors, the ready channel and its drain.
-- The tasks and threads interleave between the locks, so each function below is what one of them
-- does in one go, and the state also holds what is in flight: the ids that a `signal` has yet to
-- send, the ids that a `recv_batch` has pulled and not yet taken, the `subscribe` calls that run.
pub mod Steps
pub mod Examples
use repics.Prelude.{
  ℕ, suc, ◌+◌, ◌%◌, ◌^◌, Bool, true, false, Option, none, some, List, [], ◌∷◌, ◌++◌, eqb,
  occurrences, length, nat_eq, if◌then◌else◌,
}
use repics.Prelude.Map.{Map, get, insert, remove}
use repics.Epics.Pvdata.{Pvdata}
use repics.PvaHub.Monitor.{
  Update, Queue, MonitorConnEvent, conn_update, opening_queue, signal, push, push_value, take,
}

abbrev pub update {ℓ} : {A : Type ℓ} → (ℕ → A) → ℕ → A → ℕ → A
update f k a j = if eqb k j then a else f j

pub record Hub (P : Pvdata) : Type 0 where
  -- The `Monitor` behind each id, shared by its `Entry` and by its wire callbacks.
  pub queues : ℕ → Queue P
  -- `Entry.control` of each registered id.
  pub subs : Map ℕ (Option P.Control)
  pub next_id : ℕ
  pub ready : List ℕ
  pub closed : Bool
  pub sending : List ℕ
  pub held : List ℕ
  pub opening : ℕ → Bool

abbrev pub sends : Bool → ℕ → List ℕ → List ℕ
sends true id ids = ids ++ (id ∷ [])
sends false id ids = ids

set_control {ℓ} : {C : Type ℓ} → Map ℕ (Option C) → ℕ → C → Option (Option C) → Map ℕ (Option C)
set_control subs id control none = subs
set_control subs id control (some _) = insert id (some control) subs

module _ {P : Pvdata} where
  -- A method of the monitor `id` has run under its lock.
  pub deliver : Hub P → ℕ → Queue P × Bool → Hub P
  deliver h id (q, sent) = record h {
    queues = update h.queues id q;
    sending = sends sent id h.sending;
  }

  -- The value callback of `open`, for a frame that decodes.
  pub frame_arrives : Hub P → ℕ → P.Desc → P.Field → P.bits.Bits → Hub P
  frame_arrives h id d v c = deliver h id (push_value (h.queues id) d v c)

  -- The connection callback of `open`.
  pub conn_arrives : Hub P → ℕ → MonitorConnEvent P → Hub P
  conn_arrives h id ev = deliver h id (push (h.queues id) (conn_update ev))

  -- `self.ready.send(self.id)`, for one of the pending sends; a closed hub drops the id.
  pub send_ready : Hub P → List ℕ → ℕ → List ℕ → Hub P
  send_ready h before id after = record h {
    sending = before ++ after;
    ready = if h.closed then h.ready else h.ready ++ (id ∷ []);
  }

  -- `subscribe` up to `open`: `fetch_add` wraps.
  pub subscribe_begin : Hub P → ℕ → Hub P
  subscribe_begin h limit = record h {
    next_id = (h.next_id + 1) % 2 ^ 32;
    queues = update h.queues h.next_id (opening_queue limit);
    subs = insert h.next_id none h.subs;
    opening = update h.opening h.next_id true;
  }

  -- `subscribe` after `open` failed.
  pub subscribe_failed : Hub P → ℕ → Hub P
  subscribe_failed h id = record h { subs = remove id h.subs; opening = update h.opening id false }

  -- `subscribe` after `open`: `if let Some(e) = lock(&self.subs).get_mut(&id) { .. }`.
  pub subscribe_opened : Hub P → ℕ → P.Control → Hub P
  unfolding set_control
  subscribe_opened h id control = record h { subs = set_control h.subs id control (get id h.subs) }

  -- `monitor.signal(monitor.lock())` at the end of `subscribe`.
  pub subscribe_end : Hub P → ℕ → Hub P
  unfolding deliver
  subscribe_end h id =
      deliver (record h { opening = update h.opening id false }) id (signal (h.queues id))

  pub close_subscription : Hub P → ℕ → Hub P
  close_subscription h id = record h { subs = remove id h.subs }

  -- The loop in `do_recv_batch`: every id signalled so far.
  pub pull : Hub P → Hub P
  pull h = record h { held = h.held ++ h.ready; ready = [] }

  -- `subs.get(&id).map(|e| (id, e.monitor.take()))`, for one pulled id.
  pub take_one : Hub P → List ℕ → ℕ → List ℕ → List (ℕ × List (Update P)) × Hub P
  take_one h before id after =
      let rest = record h { held = before ++ after } in
      let (items, q) = take (h.queues id) in
      elim (get id h.subs) [
        | some control ↦ ((id, items) ∷ [], record rest { queues = update h.queues id q })
        | none ↦ ([], rest)
      ]

  pub pauser : Hub P → ℕ → Option P.Control
  pauser h id = elim (get id h.subs) [ some (some control) ↦ some control | _ ↦ none ]

  -- `__len__`.
  pub len : Hub P → ℕ
  len h = length h.subs

  -- `close` takes the entries out, and then closes the ready channel.
  pub close_subs : Hub P → Hub P
  close_subs h = record h { subs = [] }

  pub close_ready : Hub P → Hub P
  close_ready h = record h { closed = true; ready = [] }

  abbrev pub tokens : ℕ → Hub P → ℕ
  tokens k h = occurrences k h.sending + occurrences k h.ready + occurrences k h.held
