-- ===== src/PvaServer/Examples.antt =====
-- Operations and channels of src/pva/server.rs on concrete input.
use repics.Prelude.{ℕ, ◌≡◌, true, false, String, string_eq, Option, none, some, List, [], ◌∷◌, ◌++◌}
use repics.Prelude.Map.{get}
use repics.Epics.Pvdata.{plain_pvdata}
use repics.Epics.Shared.{plain_shared, plain_source}
use repics.CaServer.WorkQueue.{WorkQueue}
use repics.PvaServer.Operation.{rpc, Root, ServerOperation, Event}
use repics.PvaServer.Entry.{Entry}
use repics.PvaServer.Source.{
  utf8, lossy, ChannelContext, Checked, Source, queue_or_empty, is_nil, put_delta_begin,
}
use repics.PvaServer.Source.Channels.{
  Call, adds, removes, opens, closes, start, run, run-start-IsBalanced,
}
use repics.PvaServer.Source.Puts.{PutQueued, put_delta_begin-queued}

abbrev call : ServerOperation plain_pvdata
call = record {
  kind = rpc;
  name = "PV";
  value = record { desc = 1; field = 2; marks = 0 ∷ [] };
  from = some 9;
  pv_request = none;
  reply = some 4;
}

abbrev answer : Option (Root plain_pvdata)
answer = some (record { desc = 1; field = 7; marks = [] })

abbrev calls : List Call
calls =
    adds "PV" 0
    ∷ opens (utf8 "PV")
    ∷ removes "PV"
    ∷ adds "PV" 1
    ∷ opens (utf8 "PV")
    ∷ closes (utf8 "PV")
    ∷ opens (lossy "?")
    ∷ []

run-start-IsBalanced_example :
    let r = run (start {I = plain_source}) calls in
    ((k : String) → r.detached k ++ queue_or_empty (get k r.source.attached) ≡ r.attached k)
    × ((k : String) (q : List ℕ) → get k r.source.attached ≡ some q → is_nil q ≡ false)
run-start-IsBalanced_example = run-start-IsBalanced plain_source calls

abbrev source : Source plain_source
source = record { inner = []; entries = ("PV", 0) ∷ []; attached = [] }

abbrev heap : ℕ → Entry plain_shared
heap r = record { pv = some 10; subs = []; marks = []; opened = some 3 }

abbrev checked : Checked
checked = record { pv_name = "PV"; allows_write = true; allows_read = true }

abbrev context : ChannelContext plain_pvdata
context = record { from = 9; pv_request = none }

abbrev queue : WorkQueue (Event plain_pvdata)
queue = record { pending = []; stopped = false; dropped = false }

put_delta_begin-queued_example :
    PutQueued plain_shared heap source checked 3
      (1 ∷ [])
      11
      context
      (λ r. 5)
      4
      queue
      (put_delta_begin plain_shared heap source checked 3 (1 ∷ []) 11 context (λ r. 5) 4 queue)
put_delta_begin-queued_example =
    put_delta_begin-queued plain_shared heap source checked 3 (1 ∷ []) 11 context (λ r. 5) 4 queue
