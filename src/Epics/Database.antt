-- ===== src/Epics/Database.antt =====
-- What the CA server calls of `epics_base_rs`: databases of process variables. The databases are
-- part of a world that the calls change; a cell is the shared `ProcessVariable` of one name.
use repics.Prelude.{ℕ, ◌≡◌, String, string_eq, Option, none, some, Result, ok, err, arith, beq_self}
use repics.Prelude.Map.{Map, get as lookup, insert, remove, get-insert, get-remove}

pub record DatabaseLib : Type 1 where
  pub World : Type 0
  -- `Arc<PvDatabase>`
  pub Db : Type 0
  -- `Arc<ProcessVariable>`
  pub Cell : Type 0
  pub Value : Type 0
  pub Error : Type 0
  pub add_pv_with_hook : Db → String → Value → World → Result Error (Unit {0}) × World
  pub find_pv : Db → String → World → Option Cell
  pub remove_simple_pv : Db → String → World → World
  pub set : Cell → Value → World → World
  pub get : Cell → World → Value
  -- A PV that was added is found, and holds the value it was added with.
  pub find_pv-add :
      (db : Db) (name : String) (v : Value) (w : World) {w' : World}
      → add_pv_with_hook db name v w ≡ (ok tt, w')
      → (cell : Cell) × (find_pv db name w' ≡ some cell) × (get cell w' ≡ v)
  pub get-set : (cell : Cell) (v : Value) (w : World) → get cell (set cell v w) ≡ v
  pub find_pv-remove :
      (db : Db) (name : String) (w : World) → find_pv db name (remove_simple_pv db name w) ≡ none

-- The parameter can be met: one database, a table of numbers, with the names as cells.
unfoldable pub added : Option ℕ → String → ℕ → Map String ℕ → Result ℕ (Unit {0}) × Map String ℕ
added none name v w = (ok tt, insert name v w)
added (some _) name v w = (err 0, w)

unfoldable pub cell_of : String → Option ℕ → Option String
cell_of name none = none
cell_of name (some _) = some name

unfoldable pub value_of : Option ℕ → ℕ
value_of none = 0
value_of (some v) = v

pub find_pv-added :
    (name : String) (v : ℕ) (w : Map String ℕ) {w' : Map String ℕ}
    → added (lookup name w) name v w ≡ (ok tt, w')
    → (cell : String) × (cell_of name (lookup name w') ≡ some cell)
      × (value_of (lookup cell w') ≡ v)
find_pv-added name v w {w'} e = go (lookup name w) e
  where
    go :
        (o : Option ℕ)
        → added o name v w ≡ (ok tt, w')
        → (cell : String) × (cell_of name (lookup name w') ≡ some cell)
          × (value_of (lookup cell w') ≡ v)
    go (some x) e = unfold added in cc
    go none e =
        unfold added cell_of value_of in
        (
          name,
          ground (arith, e, get-insert name name v w, beq_self name),
          ground (arith, e, get-insert name name v w, beq_self name),
        )

pub value_of-set :
    (cell : String) (v : ℕ) (w : Map String ℕ) → value_of (lookup cell (insert cell v w)) ≡ v
unfolding value_of
value_of-set cell v w = ground (arith, get-insert cell cell v w, beq_self cell)

pub cell_of-remove :
    (name : String) (w : Map String ℕ) → cell_of name (lookup name (remove name w)) ≡ none
unfolding cell_of
cell_of-remove name w = ground (arith, get-remove name name w, beq_self name)

abbrev pub plain_database : DatabaseLib
plain_database = record {
  World = Map String ℕ;
  Db = ℕ;
  Cell = String;
  Value = ℕ;
  Error = ℕ;
  add_pv_with_hook = λ db name v w. added (lookup name w) name v w;
  find_pv = λ db name w. cell_of name (lookup name w);
  remove_simple_pv = λ db name w. remove name w;
  set = λ cell v w. insert cell v w;
  get = λ cell w. value_of (lookup cell w);
  find_pv-add = λ db name v w. find_pv-added name v w;
  get-set = value_of-set;
  find_pv-remove = λ db name w. cell_of-remove name w;
}
