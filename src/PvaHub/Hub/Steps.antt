-- ===== src/PvaHub/Hub/Steps.antt =====
-- src/pva/hub.rs: the interleavings of wire callbacks, `subscribe`, `close_subscription` and
-- `recv_batch`, and why no monitor with something to take is forgotten.
use repics.Prelude.{
  ℕ, ◌+◌, ◌^◌, ◌≤◌, ◌<◌, ◌≡◌, ◌⊎◌, Bool, true, false, none, some, List, [], ◌∷◌, ◌++◌, arith, eqb,
  occurrences, occurrences-append, occurrences-nil, occurrences-cons, nat_eq, if◌then◌else◌,
}
use repics.Prelude.Map.{get, no_entries, get-insert, get-remove, is_some}
use repics.Epics.Pvdata.{Pvdata}
use repics.PvaHub.Monitor.{
  Update, Queue, MonitorConnEvent, conn_update, opening_queue, signal, take,
}
use repics.PvaHub.Monitor.Signals.{Signals, signal-Signals, push-Signals, push_value-Signals}
use repics.PvaHub.Hub.{
  Hub, update, deliver, frame_arrives, conn_arrives, send_ready, subscribe_begin, subscribe_failed,
  subscribe_opened, subscribe_end, close_subscription, pull, take_one, close_subs, close_ready,
  tokens, set_control,
}

occurrences-single : (k id : ℕ) → occurrences k (id ∷ []) ≡ (if eqb k id then 1 else 0)
occurrences-single k id = ground (arith, occurrences-cons k id [], occurrences-nil k)

occurrences-cut :
    (k : ℕ) (before : List ℕ) (id : ℕ) (after ids : List ℕ)
    → ids ≡ before ++ (id ∷ after)
    → occurrences k ids ≡ (if eqb k id then 1 else 0) + occurrences k (before ++ after)
occurrences-cut k before id after ids e = rw e (
    ground (
      arith,
      occurrences-append k before (id ∷ after),
      occurrences-append k before after,
      occurrences-cons k id after,
    ))

module _ {P : Pvdata} where
  -- One step of some task or thread. Callbacks and sends come from monitors that `subscribe` made;
  -- ids do not wrap.
  pub data Step : Hub P → Hub P → Type 0 where
    frame :
        (h : Hub P) (id : ℕ) (d : P.Desc) (v : P.Field) (c : P.bits.Bits)
        → id < h.next_id
        → Step h (frame_arrives h id d v c)
    event :
        (h : Hub P) (id : ℕ) (ev : MonitorConnEvent P)
        → id < h.next_id
        → Step h (conn_arrives h id ev)
    sent :
        (h : Hub P) (before : List ℕ) (id : ℕ) (after : List ℕ)
        → h.sending ≡ before ++ (id ∷ after)
        → Step h (send_ready h before id after)
    begin : (h : Hub P) (limit : ℕ) → h.next_id + 1 < 2 ^ 32 → Step h (subscribe_begin h limit)
    failed : (h : Hub P) (id : ℕ) → Step h (subscribe_failed h id)
    opened : (h : Hub P) (id : ℕ) (control : P.Control) → Step h (subscribe_opened h id control)
    done : (h : Hub P) (id : ℕ) → id < h.next_id → Step h (subscribe_end h id)
    unsubscribe : (h : Hub P) (id : ℕ) → Step h (close_subscription h id)
    pulled : (h : Hub P) → Step h (pull h)
    taken :
        (h : Hub P) (before : List ℕ) (id : ℕ) (after : List ℕ)
        → h.held ≡ before ++ (id ∷ after)
        → Step h (take_one h before id after).1
    closes_subs : (h : Hub P) → Step h (close_subs h)
    closes_ready : (h : Hub P) → Step h (close_ready h)

  pub data Reach (s : Hub P) : Hub P → Type 0 where
    here : Reach s s
    next : {t u : Hub P} → Reach s t → Step t u → Reach s u

  abbrev pub is_nil : List (Update P) → Bool
  is_nil [] = true
  is_nil (u ∷ us) = false

  -- What holds of the id `k`: it is known once it is below `next_id`; while it is registered, one
  -- token of it is in flight exactly when its queue is signalled; and a queue with items is signalled
  -- unless `subscribe` still runs.
  record Inv (k : ℕ) (h : Hub P) : Type 0 where
    fresh : h.next_id ≤ k → tokens k h ≡ 0
    known : is_some (get k h.subs) ≡ true → k < h.next_id
    flagged :
        h.closed ≡ false
        → is_some (get k h.subs) ≡ true
        → tokens k h ≡ (if (h.queues k).signalled then 1 else 0)
    waiting :
        is_some (get k h.subs) ≡ true
        → is_nil (h.queues k).items ≡ false
        → ((h.queues k).signalled ≡ true) ⊎ (h.opening k ≡ true)

  deliver-Inv :
      (k : ℕ) (h : Hub P) (id : ℕ) (q : Queue P) (sent : Bool)
      → Signals (h.queues id) q sent
      → id < h.next_id
      → Inv k h
      → Inv k (deliver h id (q, sent))
  unfolding deliver
  deliver-Inv k h id q true s lt v =
      ground
        (arith, s.now, s.told, occurrences-append k h.sending (id ∷ []), occurrences-single k id)
  deliver-Inv k h id q false s lt v = ground (arith, s.now, s.told)

  send_ready-Inv :
      (k : ℕ) (h : Hub P) (before : List ℕ) (id : ℕ) (after : List ℕ)
      → h.sending ≡ before ++ (id ∷ after)
      → Inv k h
      → Inv k (send_ready h before id after)
  unfolding send_ready
  send_ready-Inv k h before id after e v = ground (
    arith,
    occurrences-cut k before id after h.sending e,
    occurrences-append k h.ready (id ∷ []),
    occurrences-single k id,
  )

  subscribe_begin-Inv :
      (k : ℕ) (h : Hub P) (limit : ℕ)
      → h.next_id + 1 < 2 ^ 32
      → Inv k h
      → Inv k (subscribe_begin h limit)
  unfolding subscribe_begin opening_queue
  subscribe_begin-Inv k h limit lt v = ground (arith, get-insert h.next_id k none h.subs)

  remove-Inv :
      (k : ℕ) (h : Hub P) (id : ℕ)
      → Inv k h
      → Inv k (subscribe_failed h id) × Inv k (close_subscription h id)
  unfolding subscribe_failed close_subscription
  remove-Inv k h id v = ground (arith, get-remove id k h.subs)

  subscribe_opened-Inv :
      (k : ℕ) (h : Hub P) (id : ℕ) (control : P.Control)
      → Inv k h
      → Inv k (subscribe_opened h id control)
  unfolding subscribe_opened set_control
  subscribe_opened-Inv k h id control v = ground (arith, get-insert id k (some control) h.subs)

  finish-Inv :
      (k : ℕ) (h : Hub P) (id : ℕ) (q : Queue P) (sent : Bool)
      → Signals (h.queues id) q sent
      → id < h.next_id
      → Inv k h
      → Inv k (deliver (record h { opening = update h.opening id false }) id (q, sent))
  unfolding deliver
  finish-Inv k h id q true s lt v =
      ground
        (arith, s.now, s.told, occurrences-append k h.sending (id ∷ []), occurrences-single k id)
  finish-Inv k h id q false s lt v = ground (arith, s.now, s.told)

  subscribe_end-Inv :
      (k : ℕ) (h : Hub P) (id : ℕ) → id < h.next_id → Inv k h → Inv k (subscribe_end h id)
  unfolding subscribe_end
  subscribe_end-Inv k h id lt v =
      finish-Inv k h id (signal q).0 (signal q).1 (signal-Signals q) lt v
    where
      q : Queue P
      q = h.queues id

  pull-Inv : (k : ℕ) (h : Hub P) → Inv k h → Inv k (pull h)
  unfolding pull
  pull-Inv k h v = ground (arith, occurrences-append k h.held h.ready, occurrences-nil k)

  take_one-Inv :
      (k : ℕ) (h : Hub P) (before : List ℕ) (id : ℕ) (after : List ℕ)
      → h.held ≡ before ++ (id ∷ after)
      → Inv k h
      → Inv k (take_one h before id after).1
  unfolding take_one take
  take_one-Inv k h before id after e v = ground (arith, occurrences-cut k before id after h.held e)

  close_subs-Inv : (k : ℕ) (h : Hub P) → Inv k h → Inv k (close_subs h)
  unfolding close_subs get
  close_subs-Inv k h v = ground arith

  close_ready-Inv : (k : ℕ) (h : Hub P) → Inv k h → Inv k (close_ready h)
  unfolding close_ready
  close_ready-Inv k h v = ground (arith, occurrences-nil k)

  Step-Inv : (k : ℕ) {h h' : Hub P} → Step h h' → Inv k h → Inv k h'
  unfolding frame_arrives conn_arrives
  Step-Inv k (frame h id d v c lt) i =
      deliver-Inv k h id _ _ (push_value-Signals (h.queues id) d v c) lt i
  Step-Inv k (event h id ev lt) i =
      deliver-Inv k h id _ _ (push-Signals (h.queues id) (conn_update ev)) lt i
  Step-Inv k (sent h before id after e) i = send_ready-Inv k h before id after e i
  Step-Inv k (begin h limit lt) i = subscribe_begin-Inv k h limit lt i
  Step-Inv k (failed h id) i = (remove-Inv k h id i).0
  Step-Inv k (opened h id control) i = subscribe_opened-Inv k h id control i
  Step-Inv k (done h id lt) i = subscribe_end-Inv k h id lt i
  Step-Inv k (unsubscribe h id) i = (remove-Inv k h id i).1
  Step-Inv k (pulled h) i = pull-Inv k h i
  Step-Inv k (taken h before id after e) i = take_one-Inv k h before id after e i
  Step-Inv k (closes_subs h) i = close_subs-Inv k h i
  Step-Inv k (closes_ready h) i = close_ready-Inv k h i

  Reach-Inv : (k : ℕ) {s h : Hub P} → Inv k s → Reach s h → Inv k h
  Reach-Inv k v here = v
  Reach-Inv k v (next r st) = Step-Inv k st (Reach-Inv k v r)

-- `PvaMonitorHub::new`; no monitor exists yet.
unfoldable pub new : (P : Pvdata) → Hub P
new P = record {
  queues = λ _. record { items = []; limit = 1; signalled = false };
  subs = no_entries;
  next_id = 1;
  ready = [];
  closed = false;
  sending = [];
  held = [];
  opening = λ _. false;
}

new-Inv : (P : Pvdata) (k : ℕ) → Inv k (new P)
unfolding new get
new-Inv P k = ground (arith, occurrences-nil k)

-- However callbacks, subscribers, drains and closes interleave from a new hub on, while the hub is
-- open and as long as ids do not wrap: a registered monitor whose `subscribe` is over and whose
-- queue holds something has its id exactly once in flight, on its way to the ready channel, in it,
-- or in the hands of a drain.
pub tokens-Reach :
    {P : Pvdata} (k : ℕ) (h : Hub P)
    → Reach (new P) h
    → h.closed ≡ false
    → is_some (get k h.subs) ≡ true
    → h.opening k ≡ false
    → is_nil (h.queues k).items ≡ false
    → tokens k h ≡ 1
tokens-Reach {P} k h r open_hub reg over full =
    let i = Reach-Inv k (new-Inv P k) r in
    ground (arith, i.flagged open_hub reg, i.waiting reg full)

-- However they interleave, while the hub is open and ids do not wrap a registered monitor has its
-- id in flight at most once, so no drain finds it twice.
pub tokens-Reach-le :
    {P : Pvdata} (k : ℕ) (h : Hub P)
    → Reach (new P) h
    → h.closed ≡ false
    → is_some (get k h.subs) ≡ true
    → tokens k h ≤ 1
tokens-Reach-le {P} k h r open_hub reg =
    let i = Reach-Inv k (new-Inv P k) r in ground (arith, i.flagged open_hub reg)
