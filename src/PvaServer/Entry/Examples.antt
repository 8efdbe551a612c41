-- ===== src/PvaServer/Entry/Examples.antt =====
-- A served PV of src/pva/server.rs opened, posted to and closed.
use repics.Prelude.{◌≡◌, refl, true, none, some, [], ◌∷◌}
use repics.Epics.Pvdata.{plain_pvdata}
use repics.Epics.Shared.{plain_shared}
use repics.PvaServer.Operation.{Root}
use repics.PvaServer.Entry.{Subscriber, marked, Entry, new, post, close_begin, close_end, subscribe}
use repics.PvaServer.Entry.Updates.{PostOutcome, post-outcome}
use repics.PvaServer.Entry.Lifecycle.{
  opens, posts, closes, subscribes, run, IsConsistent, run-IsConsistent,
}
use repics.PvaServer.Entry.Current.{subs-close_race}

abbrev root : Root plain_pvdata
root = record { desc = 3; field = 10; marks = 1 ∷ [] }

abbrev next : Root plain_pvdata
next = record { desc = 3; field = 11; marks = 2 ∷ [] }

abbrev opened : Entry plain_shared
opened = record { pv = some 10; subs = marked 4 ∷ []; marks = 1 ∷ []; opened = some 3 }

post-outcome_example : PostOutcome plain_shared opened next [] (post opened next [])
post-outcome_example = post-outcome plain_shared opened next []

run-IsConsistent_example :
    IsConsistent plain_shared
      (run plain_shared (new, []) (opens root ∷ subscribes 4 true ∷ posts next ∷ closes ∷ [])).0
run-IsConsistent_example =
    run-IsConsistent plain_shared [] (opens root ∷ subscribes 4 true ∷ posts next ∷ closes ∷ [])

abbrev first : Entry plain_shared
first = record { pv = some 10; subs = []; marks = 1 ∷ []; opened = some 3 }

subs-close_race_example :
    let (seed, between, w') = subscribe (close_begin first) 4 true [] in
    let after = close_end between in
    (seed ≡ some 10)
    × (plain_shared.current after.pv ≡ none)
    × (after.opened ≡ none)
    × ((sub : Subscriber plain_shared) × (after.subs ≡ sub ∷ []))
subs-close_race_example = subs-close_race plain_shared first 4 true [] 10 refl
