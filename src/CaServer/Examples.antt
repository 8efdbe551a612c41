-- ===== src/CaServer/Examples.antt =====
-- Operations, the work queue, a provider and the port of src/ca_server.rs on concrete input.
use repics.Prelude.{ℕ, ◌≡◌, ◌≢◌, refl, true, false, String, List, [], ◌∷◌, ◌++◌, string_eq}
use repics.Prelude.Map.{Map}
use repics.Text.{Text, codes}
use repics.CaServer.Operation.{notify, done}
use repics.CaServer.WorkQueue.{Call, sends, recvs, stops, Run, run, sent, run-kept, run-stopped}
use repics.CaServer.Provider.{Provider, listed, IsTable}

notify-waits : notify 3 ≢ done
notify-waits e = cc

abbrev running : Run ℕ
running = record { queue = record { pending = 1 ∷ []; stopped = false; dropped = false }; out = [] }

abbrev stopped : Run ℕ
stopped = record { queue = record { pending = 1 ∷ []; stopped = true; dropped = false }; out = [] }

abbrev calls : List (Call ℕ)
calls = sends 2 ∷ recvs ∷ stops ∷ sends 3 ∷ recvs ∷ []

run-kept_example :
    (run running calls).out ++ (run running calls).queue.pending ≡ ([] ++ (1 ∷ [])) ++ sent calls
run-kept_example = run-kept running calls refl

run-stopped_example :
    ((run stopped calls).out ≡ []) × ((run stopped calls).queue.pending ≡ (1 ∷ []) ++ sent calls)
run-stopped_example = run-stopped stopped calls refl refl

abbrev provider : Provider
provider = record { name = "p"; pvs = ("A", 0) ∷ ("B", 1) ∷ [] }

provider-IsTable : IsTable provider.pvs
unfolding listed
provider-IsTable = (refl, (refl, tt))

abbrev env : Map String Text
env = ("EPICS_CA_SERVER_PORT", codes " 5070 ") ∷ []
