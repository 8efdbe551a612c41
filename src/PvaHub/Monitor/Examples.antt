-- ===== src/PvaHub/Monitor/Examples.antt =====
-- A monitor's queue of src/pva/hub.rs on concrete input.
use repics.Prelude.{◌+◌, ◌<◌, ◌≤◌, ◌≡◌, arith, true, List, [], ◌∷◌, count_if}
use repics.Epics.Pvdata.{plain_pvdata}
use repics.PvaHub.Monitor.{
  value, disconnected, Queue, push_value, opening_queue, MonitorConnEvent, Call, frame, conn, drain,
  run,
}
use repics.PvaHub.Monitor.Squash.{TakesIn, push_value-TakesIn}
use repics.PvaHub.Monitor.Bounds.{values, is_event, values-run-le}
use repics.PvaHub.Monitor.Bounds.Churn.{rounds, values-run-rounds}

abbrev queue : Queue plain_pvdata
queue = record { items = disconnected ∷ value 1 10 (0 ∷ []) ∷ []; limit = 1; signalled = true }

push_value-TakesIn_example :
    TakesIn queue.items (push_value queue 1 11 (2 ∷ [])).0.items 1 11 (2 ∷ [])
push_value-TakesIn_example = push_value-TakesIn queue 1 11 (2 ∷ [])

abbrev calls : List (Call plain_pvdata)
calls =
    conn (MonitorConnEvent.connected 5)
    ∷ frame 1 10 (0 ∷ [])
    ∷ frame 1 11 (1 ∷ [])
    ∷ drain
    ∷ frame 1 12 (0 ∷ [])
    ∷ []

positive : 0 < 4
positive = omega arith

values-run-le_example :
    let items = (run (opening_queue 4) calls).items in values items ≤ 4 + count_if is_event items
values-run-le_example = values-run-le {P = plain_pvdata} 4 calls positive

values-run-rounds_example : values (run (opening_queue 4) (rounds plain_pvdata 1 10 [] 9)).items ≡ 9
values-run-rounds_example = values-run-rounds plain_pvdata 1 10 [] 4 9
