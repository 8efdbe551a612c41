-- ===== src/PvaClient/Many.antt =====
-- src/pva/client.rs: the calls of a context on many names at once. What the library's operations
-- answer, and how tasks end, are the environment's.
pub mod Entries
pub mod Examples
use repics.Prelude.{
  ℕ, suc, Bool, String, Option, none, some, List, [], ◌∷◌, length, Result, ok, err, ◌>>=◌, eqb, not,
  if◌then◌else◌,
}
use repics.Epics.Pvdata.{Pvdata}
use repics.PvaServer.Operation.{Root}
use repics.PvaValue.{DescLib, set_span}
use repics.Runtime.Many.{
  Joined, Blocked, returned, block_on, Timed, in_time, elapsed, finished, panicked, bounded, Entry,
  join_all, results_to_py,
}
use repics.PvaClient.Config.{is_blank}
use repics.Text.{Text, trim}

-- `epics_pva_rs`, as a client uses it, with its errors as `map_pva` gives them.
pub record ClientLib (P : Pvdata) : Type 1 where
  pub Error : Type 0
  pub JoinError : Type 0
  pub Seconds : Type 0
  pub Request : Type 0
  pub parse : Text → Result Error Request
  pub join_error : JoinError → Error
  pub timed_out : Seconds → Error
  pub wrong_count : Error
  pub Object : Type 0
  pub marked_changed_bitset : P.Desc → List String → P.bits.Bits

-- A read that is asked for.
pub record Ask (P : Pvdata) (C : ClientLib P) : Type 0 where
  pub name : String
  pub request : Option C.Request
  pub timeout : Option C.Seconds

-- What a read gives; the marked paths, unless all is marked.
pub record MarkedRead (P : Pvdata) : Type 0 where
  pub desc : P.Desc
  pub value : P.Field
  pub marked : Option (List String)

module _ {P : Pvdata} (D : DescLib P) (C : ClientLib P) where
  marks_for : P.Desc → Option (List String) → P.bits.Bits
  marks_for desc none = set_span P.bits P.bits.empty 0 (D.total_bits desc)
  marks_for desc (some paths) = C.marked_changed_bitset desc paths

  read_to_value : MarkedRead P → Root P
  unfolding marks_for
  read_to_value read = record {
    desc = read.desc;
    field = read.value;
    marks = marks_for read.desc read.marked;
  }

  value_of : Result C.Error (MarkedRead P) → Result C.Error (Root P)
  unfolding read_to_value
  value_of r = r >>= λ read. ok (read_to_value read)

-- How a read ends: its outcome, whether that comes before a deadline, and whether its task panics.
pub record Answer (P : Pvdata) (C : ClientLib P) : Type 0 where
  pub read : Result C.Error (MarkedRead P)
  pub before : C.Seconds → Bool
  pub panics : Option C.JoinError

module _ {P : Pvdata} (C : ClientLib P) where
  pub parse_request : Option Text → Result C.Error (Option C.Request)
  unfolding is_blank
  parse_request none = ok none
  parse_request (some s) = if is_blank (trim s) then ok none else C.parse s >>= λ req. ok (some req)

  abbrev pub read_of : String → Option C.Request → Option C.Seconds → Ask P C
  read_of n req t = record { name = n; request = req; timeout = t }

  -- The loop over the names and their requests.
  pub asks : List String → List (Option Text) → Option C.Seconds → Result C.Error (List (Ask P C))
  asks (n ∷ ns) (r ∷ rs) timeout = do
    req ← parse_request r
    futs ← asks ns rs timeout
    ok (read_of n req timeout ∷ futs)
  asks ns rs timeout = ok []

module _ {P : Pvdata} (D : DescLib P) (C : ClientLib P) where
  timed_read : Result C.Error (Root P) → (C.Seconds → Bool) → C.Seconds → Timed C.Error (Root P)
  timed_read r before secs = if before secs then in_time r else elapsed

  pub do_get : Ask P C → Answer P C → Result C.Error (Root P)
  unfolding value_of timed_read
  do_get a answer =
      bounded C.timed_out a.timeout (value_of D C answer.read)
        (timed_read (value_of D C answer.read) answer.before)

  ending : Option C.JoinError → Result C.Error (Root P) → Joined C.JoinError C.Error (Root P)
  ending none r = finished r
  ending (some j) r = panicked j

  task : Ask P C → Answer P C → Joined C.JoinError C.Error (Root P)
  unfolding do_get ending
  task a answer = ending answer.panics (do_get a answer)

  -- The tasks, each with the number of its name.
  tasks :
      (ℕ → Ask P C → Answer P C) → ℕ → List (Ask P C) → List (Joined C.JoinError C.Error (Root P))
  unfolding task
  tasks world i [] = []
  tasks world i (a ∷ later) = task a (world i a) ∷ tasks world (suc i) later

  get_one :
      (ℕ → Ask P C → Answer P C)
      → ℕ
      → String
      → Option C.Seconds
      → Result C.Error (Option C.Request)
      → Blocked C.JoinError C.Error (Root P)
  unfolding do_get
  get_one world i name timeout (err e) = returned (err e)
  get_one world i name timeout (ok req) =
      let a = world i (read_of C name req timeout) in
      block_on a.panics (do_get (read_of C name req timeout) a)

  -- `get`, as what is asked for by that number.
  pub get :
      (ℕ → Ask P C → Answer P C)
      → ℕ
      → String
      → Option Text
      → Option C.Seconds
      → Blocked C.JoinError C.Error (Root P)
  unfolding parse_request get_one
  get world i name request timeout = get_one world i name timeout (parse_request C request)

  -- `get_many`
  pub get_many :
      (Root P → Result C.Error C.Object)
      → (ℕ → Ask P C → Answer P C)
      → List String
      → List (Option Text)
      → Option C.Seconds
      → Result C.Error (List (Entry C.Error C.Object))
  unfolding asks tasks
  get_many into_py world names requests timeout =
      if not (eqb (length names) (length requests))
      then err C.wrong_count
      else asks C names requests timeout >>= λ futs.
          results_to_py into_py (join_all C.join_error (tasks world 0 futs))
