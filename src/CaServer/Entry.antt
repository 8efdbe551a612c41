-- ===== src/CaServer/Entry.antt =====
-- src/ca_server.rs, `CaPvEntry`: the value of one `CaSharedPV`, before, while and after it is served.
-- The databases of the running servers are a world that the methods pass on.
pub mod Values
pub mod Registered
pub mod Adoption
pub mod Examples
use repics.Prelude.{Bool, true, false, String, Option, none, some, Result, ok, err}
use repics.Epics.Database.{DatabaseLib}

pub record Registration (L : DatabaseLib) : Type 0 where
  pub db : L.Db
  pub name : String

pub data ValueState (L : DatabaseLib) : Type 0 where
  closed : ValueState L
  detached : L.Value → ValueState L
  serving : L.Cell → ValueState L

pub record Entry (L : DatabaseLib) : Type 0 where
  pub state : ValueState L
  pub reg : Option (Registration L)
  -- The `OnceLock` that the write hook reads.
  pub name : Option String

pub data EntryError (L : DatabaseLib) : Type 0 where
  -- `map_ca_write` of the database's error.
  write_failed : L.Error → EntryError L
  pv_not_found not_open : EntryError L
  already_served never_opened : String → EntryError L

-- `self.name.set(..)` keeps the first name.
set_once : Option String → String → Option String
set_once none name = some name
set_once (some old) name = some old

module _ {L : DatabaseLib} where
  -- `CaSharedPV::new`.
  pub new : Entry L
  new = record { state = closed; reg = none; name = none }

  found : Option L.Cell → Result (EntryError L) L.Cell
  found none = err pv_not_found
  found (some cell) = ok cell

  installed : L.Db → String → Result L.Error (Unit {0}) → L.World → Result (EntryError L) L.Cell
  unfolding found
  installed db name (err e) w = err (write_failed e)
  installed db name (ok _) w = found (L.find_pv db name w)

  pub install : L.Db → String → L.Value → L.World → Result (EntryError L) L.Cell × L.World
  unfolding installed
  install db name value w =
      let (added, w') = L.add_pv_with_hook db name value w in (installed db name added w', w')

  -- `*st = ValueState::Serving(pv)`, if there is a cell.
  serve :
      Entry L
      → Result (EntryError L) L.Cell × L.World
      → Result (EntryError L) (Unit {0}) × Entry L × L.World
  serve e (ok cell, w) = (ok tt, record e { state = serving cell }, w)
  serve e (err x, w) = (err x, e, w)

  open_closed :
      Entry L
      → Option (Registration L)
      → L.Value
      → L.World
      → Result (EntryError L) (Unit {0}) × Entry L × L.World
  unfolding serve install
  open_closed e (some reg) value w = serve e (install reg.db reg.name value w)
  open_closed e none value w = (ok tt, record e { state = detached value }, w)

  open_in :
      ValueState L
      → Entry L
      → L.Value
      → L.World
      → Result (EntryError L) (Unit {0}) × Entry L × L.World
  unfolding open_closed
  open_in (serving cell) e value w = (ok tt, e, L.set cell value w)
  open_in _ e value w = open_closed e e.reg value w

  -- `open`.
  pub open_pv : Entry L → L.Value → L.World → Result (EntryError L) (Unit {0}) × Entry L × L.World
  unfolding open_in
  open_pv e value w = open_in e.state e value w

  post_in :
      ValueState L
      → Entry L
      → L.Value
      → L.World
      → Result (EntryError L) (Unit {0}) × Entry L × L.World
  post_in (serving cell) e value w = (ok tt, e, L.set cell value w)
  post_in (detached _) e value w = (ok tt, record e { state = detached value }, w)
  post_in closed e value w = (err not_open, e, w)

  pub post : Entry L → L.Value → L.World → Result (EntryError L) (Unit {0}) × Entry L × L.World
  unfolding post_in
  post e value w = post_in e.state e value w

  unserve : ValueState L → Option (Registration L) → L.World → L.World
  unserve (serving cell) (some reg) w = L.remove_simple_pv reg.db reg.name w
  unserve _ _ w = w

  pub close : Entry L → L.World → Entry L × L.World
  unfolding unserve
  close e w = (record e { state = closed }, unserve e.state e.reg w)

  pub current : Entry L → L.World → Option L.Value
  current e w = elim e.state [
    | serving cell ↦ some (L.get cell w)
    | detached v ↦ some v
    | closed ↦ none
  ]

  pub is_open : Entry L → Bool
  is_open e = elim e.state [ closed ↦ false | _ ↦ true ]

  adopted :
      Entry L
      → L.Db
      → String
      → Result (EntryError L) L.Cell × L.World
      → Result (EntryError L) (Unit {0}) × Entry L × L.World
  unfolding set_once
  adopted e db name (err x, w) = (err x, e, w)
  adopted e db name (ok cell, w) = (
    ok tt,
    record {
      state = serving cell;
      reg = some (record { db = db; name = name });
      name = set_once e.name name;
    },
    w,
  )

  adopt_in :
      ValueState L
      → Entry L
      → L.Db
      → String
      → L.World
      → Result (EntryError L) (Unit {0}) × Entry L × L.World
  unfolding adopted install
  adopt_in (detached v) e db name w = adopted e db name (install db name v w)
  adopt_in (serving cell) e db name w = (err (already_served name), e, w)
  adopt_in closed e db name w = (err (never_opened name), e, w)

  pub adopt :
      Entry L → L.Db → String → L.World → Result (EntryError L) (Unit {0}) × Entry L × L.World
  unfolding adopt_in
  adopt e db name w = adopt_in e.state e db name w
