-- ===== src/PvaType.antt =====
-- src/pva/value.rs, the type language: `desc_to_py`, `desc_from_py`, `members_from_py` and `Type`.
-- The constructors of a descriptor are those of the match of `desc_to_py`, those of a scalar type
-- the ones of `scalar_code`; neither match has a wildcard.
pub mod Kinds
pub mod RoundTrip
pub mod Examples
use Prim.Native.String.{String}
use repics.Prelude.{
  ℕ, Bool, true, false, ◌≡◌, List, [], ◌∷◌, Option, none, some, eqb, if◌then◌else◌,
}
use repics.Prelude.{Result, ok, err, ◌>>=◌}
use repics.Text.{codes, Text}

pub data ScalarType : Type 0 where
  boolean : ScalarType
  byte : ScalarType
  ubyte : ScalarType
  short : ScalarType
  ushort : ScalarType
  int : ScalarType
  uint : ScalarType
  long : ScalarType
  ulong : ScalarType
  float : ScalarType
  double : ScalarType
  string : ScalarType

mutual
  pub data FieldDesc : Type 0 where
    scalar : ScalarType → FieldDesc
    scalar_array : ScalarType → FieldDesc
    variant : FieldDesc
    variant_array : FieldDesc
    structure : String → Members → FieldDesc
    structure_array : String → Members → FieldDesc
    union : String → Members → FieldDesc
    union_array : String → Members → FieldDesc

  -- `[(String, FieldDesc)]`.
  pub data Members : Type 0 where
    no_members : Members
    member : String → FieldDesc → Members → Members

-- A Python object, as far as a type spec looks at it.
mutual
  pub data PySpec : Type 0 where
    py_none : PySpec
    py_str : String → PySpec
    py_tuple : Items → PySpec
    -- A list, or another iterable that gives these items.
    py_list : Items → PySpec
    py_type : FieldDesc → PySpec
    -- An object of none of these types that cannot be iterated.
    py_other : PySpec

  pub data Items : Type 0 where
    no_items : Items
    item : PySpec → Items → Items

pub data SpecError : Type 0 where
  unknown_type_code : String → SpecError
  not_a_spec : SpecError
  not_three_items : SpecError
  not_a_string : SpecError
  unknown_compound_code : String → SpecError
  not_a_structure_type : SpecError
  not_a_pair : SpecError
  not_iterable : SpecError

unfoldable pub scalar_code : ScalarType → String
scalar_code boolean = "?"
scalar_code byte = "b"
scalar_code ubyte = "B"
scalar_code short = "h"
scalar_code ushort = "H"
scalar_code int = "i"
scalar_code uint = "I"
scalar_code long = "l"
scalar_code ulong = "L"
scalar_code float = "f"
scalar_code double = "d"
scalar_code string = "s"

unfoldable pub scalar_from_code : ℕ → Option ScalarType
scalar_from_code c =
    if eqb c b'?'
    then some boolean
    else if eqb c b'b'
    then some byte
    else if eqb c b'B'
    then some ubyte
    else if eqb c b'h'
    then some short
    else if eqb c b'H'
    then some ushort
    else if eqb c b'i'
    then some int
    else if eqb c b'I'
    then some uint
    else if eqb c b'l'
    then some long
    else if eqb c b'L'
    then some ulong
    else if eqb c b'f'
    then some float
    else if eqb c b'd'
    then some double
    else if eqb c b's'
    then some string
    else none

-- `None` for an empty id.
unfoldable pub id_to_py : String → PySpec
id_to_py String.[] = py_none
id_to_py (String.◌∷◌ c s) = py_str (String.◌∷◌ c s)

compound : String → String → Items → PySpec
unfolding id_to_py
compound code id items =
    py_tuple (item (py_str code) (item (id_to_py id) (item (py_list items) no_items)))

mutual
  unfolding scalar_code compound

  pub desc_to_py : FieldDesc → PySpec
  desc_to_py (scalar st) = py_str (scalar_code st)
  desc_to_py (scalar_array st) = py_str (String.◌∷◌ "a" (scalar_code st))
  desc_to_py variant = py_str "v"
  desc_to_py variant_array = py_str "av"
  desc_to_py (structure id ms) = compound "S" id (members_to_py ms)
  desc_to_py (structure_array id ms) = compound "aS" id (members_to_py ms)
  desc_to_py (union id ms) = compound "U" id (members_to_py ms)
  desc_to_py (union_array id ms) = compound "aU" id (members_to_py ms)

  pub members_to_py : Members → Items
  members_to_py no_members = no_items
  members_to_py (member n d ms) =
      item (py_tuple (item (py_str n) (item (desc_to_py d) no_items))) (members_to_py ms)

-- `scalar_from_code(c).map(make).ok_or_else(..)`.
with_code : (ScalarType → FieldDesc) → String → Option ScalarType → Result SpecError FieldDesc
with_code make code none = err (unknown_type_code code)
with_code make code (some st) = ok (make st)

-- The match on the first three characters of a code.
desc_from_chars : String → Text → Result SpecError FieldDesc
unfolding scalar_from_code with_code
desc_from_chars s [] = err (unknown_type_code s)
desc_from_chars s (c ∷ []) =
    if eqb c b'v' then ok variant else with_code scalar s (scalar_from_code c)
desc_from_chars s (a ∷ c ∷ []) =
    if eqb a b'a'
    then (if eqb c b'v' then ok variant_array else with_code scalar_array s (scalar_from_code c))
    else err (unknown_type_code s)
desc_from_chars s (a ∷ b ∷ c ∷ cs) = err (unknown_type_code s)

extract_string : PySpec → Result SpecError String
extract_string (py_str s) = ok s
extract_string _ = err not_a_string

extract_id : PySpec → Result SpecError String
unfolding extract_string
extract_id py_none = ok ""
extract_id o = extract_string o

compound_desc : Text → String → String → Members → Result SpecError FieldDesc
compound_desc (c ∷ []) code id ms =
    if eqb c b'S'
    then ok (structure id ms)
    else if eqb c b'U'
    then ok (union id ms)
    else err (unknown_compound_code code)
compound_desc (a ∷ c ∷ []) code id ms =
    if eqb a b'a'
    then (if eqb c b'S'
        then ok (structure_array id ms)
        else if eqb c b'U'
        then ok (union_array id ms)
        else err (unknown_compound_code code))
    else err (unknown_compound_code code)
compound_desc _ code id ms = err (unknown_compound_code code)

structure_members : FieldDesc → Result SpecError Members
structure_members (structure id ms) = ok ms
structure_members _ = err not_a_structure_type

-- Iterating a text gives texts, and none of them is a pair.
characters : String → Result SpecError Members
characters String.[] = ok no_members
characters (String.◌∷◌ c s) = err not_a_pair

mutual
  unfolding desc_from_chars extract_id extract_string compound_desc structure_members characters

  pub desc_from_py : PySpec → Result SpecError FieldDesc
  desc_from_py (py_type d) = ok d
  desc_from_py (py_str s) = desc_from_chars s (codes s)
  desc_from_py (py_tuple (item c (item i (item m no_items)))) = do
    code ← extract_string c
    id ← extract_id i
    ms ← members_from_py m
    compound_desc (codes code) code id ms
  desc_from_py (py_tuple _) = err not_three_items
  desc_from_py _ = err not_a_spec

  pub members_from_py : PySpec → Result SpecError Members
  members_from_py (py_type d) = structure_members d
  members_from_py (py_list xs) = members_of xs
  members_from_py (py_tuple xs) = members_of xs
  members_from_py (py_str s) = characters s
  members_from_py py_none = err not_iterable
  members_from_py py_other = err not_iterable

  pub members_of : Items → Result SpecError Members
  members_of no_items = ok no_members
  members_of (item (py_tuple (item n (item s no_items))) xs) = do
    name ← extract_string n
    d ← desc_from_py s
    ms ← members_of xs
    ok (member name d ms)
  members_of (item _ xs) = err not_a_pair

-- A `(code, id, members)` tuple: three items, a text first.
unfoldable pub is_compound_spec : PySpec → Bool
is_compound_spec (py_tuple (item (py_str c) (item i (item m no_items)))) = true
is_compound_spec _ = false

id_or_default : Option String → String
id_or_default none = ""
id_or_default (some id) = id

-- The id given replaces that of a structure.
with_id : FieldDesc → Option String → FieldDesc
with_id (structure old ms) (some id) = structure id ms
with_id d id = d

spec_desc : PySpec → Option String → Result SpecError FieldDesc
unfolding desc_from_py is_compound_spec id_or_default
spec_desc (py_type d) id = ok d
spec_desc spec id =
    if is_compound_spec spec
    then desc_from_py spec
    else (members_from_py spec >>= λ ms. ok (structure (id_or_default id) ms))

-- `Type(spec, id)`.
unfoldable pub type_new : PySpec → Option String → Result SpecError FieldDesc
unfolding spec_desc with_id
type_new spec id = spec_desc spec id >>= λ d. ok (with_id d id)

unfoldable pub get_id : FieldDesc → String
get_id (structure id ms) = id
get_id (structure_array id ms) = id
get_id (union id ms) = id
get_id (union_array id ms) = id
get_id _ = ""

member_names : Members → List String
member_names no_members = []
member_names (member n d ms) = n ∷ member_names ms

-- `Type.keys`.
pub keys : FieldDesc → Result SpecError (List String)
unfolding structure_members member_names
keys d = structure_members d >>= λ ms. ok (member_names ms)
