-- ===== src/CaServer/Entry/Examples.antt =====
-- A PV of src/ca_server.rs opened, adopted, posted to and closed.
use repics.Prelude.{ℕ, ◌≡◌, ◌≢◌, refl, String, string_eq, none, some, List, [], ◌∷◌, ok, err}
use repics.Prelude.Map.{Map, get, insert}
use repics.Epics.Database.{plain_database, added, cell_of}
use repics.CaServer.Entry.{
  Registration, detached, serving, Entry, already_served, new, install, installed, found,
  open_closed, open_in, open_pv, adopted, adopt_in, adopt, set_once,
}
use repics.CaServer.Entry.Registered.{call, Call, opens, posts, closes, adopts, run, reg-run}
use repics.CaServer.Entry.Adoption.{Heap, adopt_at, adopt_all, adopt_all-retry}

abbrev waiting : Entry plain_database
waiting = record { state = detached 5; reg = none; name = none }

abbrev table : Map String ℕ
table = ("PV", 5) ∷ []

abbrev changed : Map String ℕ
changed = ("PV", 7) ∷ []

abbrev registration : Registration plain_database
registration = record { db = 0; name = "PV" }

abbrev served : Entry plain_database
served = record { state = serving "PV"; reg = some registration; name = some "PV" }

abbrev calls : List (Call plain_database)
calls = opens 5 ∷ adopts 0 "PV" ∷ []

abbrev later : List (Call plain_database)
later = posts 6 ∷ closes ∷ opens 7 ∷ []

reg-run_example :
    let e = (run (run (new {L = plain_database}, []) calls) later).0 in
    (e.reg ≡ some registration)
    × ((db : ℕ) (name : String) (w' : Map String ℕ) → (adopt e db name w').0 ≢ ok tt)
unfolding run call new adopt adopt_in adopted install installed found set_once open_pv open_in
    open_closed added cell_of get insert
reg-run_example = reg-run {L = plain_database} [] calls later registration refl

abbrev heap : Heap plain_database
heap = record { entries = λ r. waiting; world = [] }

abbrev pvs : List (String × ℕ)
pvs = ("A", 0) ∷ ("B", 1) ∷ []

abbrev clash : List (String × ℕ)
clash = ("A", 1) ∷ []

adopt_all-retry_example :
    (adopt_all (("A", 0) ∷ []) 1 (adopt_all (("A", 0) ∷ clash) 0 heap).1).0
    ≡ err (already_served "A")
unfolding adopt_at adopt adopt_in adopted install installed found set_once added cell_of get insert
adopt_all-retry_example =
    adopt_all-retry {L = plain_database} "A" 0 clash 0 heap refl
      (adopt_all (("A", 0) ∷ clash) 0 heap).1 1 "A" [] refl
