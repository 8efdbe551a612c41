-- ===== src/MonitorHub/Examples.antt =====
-- Subscriptions and batches of src/hub.rs on concrete input.
use repics.Prelude.{ℕ, ◌≡◌, true, false, nat_eq, none, some, List, [], ◌∷◌, ok}
use repics.Prelude.Int.{pos}
use repics.Prelude.Map.{get}
use repics.Epics.Client.{plain_ca}
use repics.MonitorHub.Subscription.{
  Item, connected, SubscribeArgs, Channel, ChannelEvent, Input, connect_done, event, pause,
  monitor_value, close, run, start,
}
use repics.MonitorHub.Subscription.Protocol.{View, nothing_seen, observe_all}
use repics.MonitorHub.Subscription.Lifecycle.{Complete, run-observe_all}
use repics.MonitorHub.Hub.{Hub, recv_batch}
use repics.MonitorHub.Hub as H
use repics.MonitorHub.Hub.Controls as Controls
use repics.MonitorHub.Hub.Controls.{close_is_last, run-new-closes}

abbrev args : SubscribeArgs plain_ca
args = record {
  deadband = 0;
  mask = 5;
  enum_as_string = false;
  float_as_string = false;
  count = pos 0;
  connect_timeout = some 3;
  values = true;
  values_max_count = none;
}

abbrev channel : Channel plain_ca
channel = record { limit_count = ok 1; cap_count = ok 1; subscribe = λ c. ok tt }

abbrev inputs : List (Input plain_ca)
inputs =
    connect_done (ok tt) channel
    ∷ monitor_value 4
    ∷ event ChannelEvent.disconnected
    ∷ pause
    ∷ close
    ∷ []

run-observe_all_example :
    let t = run 1 "PV" args (start 1 args false none) inputs in
    (v : View) × (observe_all (some nothing_seen) t.tx.sent ≡ some v) × Complete t.phase t.tx.left v
run-observe_all_example = run-observe_all {C = plain_ca} 1 "PV" args false none inputs

abbrev calls : List (Controls.Call plain_ca)
calls =
    Controls.subscribes "PV" args ∷ Controls.pauses 1 ∷ Controls.closes 1 ∷ Controls.resumes 1 ∷ []

run-new-closes_example :
    let h = Controls.run (H.new {C = plain_ca}) calls in
    ((tx : ℕ) → close_is_last (h.controls tx) ≡ true)
    × ((i j tx : ℕ) → get i h.subs ≡ some tx → get j h.subs ≡ some tx → i ≡ j)
run-new-closes_example = run-new-closes plain_ca calls

abbrev items : List (Item plain_ca)
items = connected 1 ∷ connected 2 ∷ connected 3 ∷ []

abbrev hub : Hub plain_ca
hub = record {
  drain = record { slot = some items; closed = false };
  subs = [];
  next_id = 1;
  controls = λ tx. [];
  spawned = [];
}
