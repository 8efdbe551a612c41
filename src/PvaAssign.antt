-- ===== src/PvaAssign.antt =====
-- src/pva/value.rs, from a Python object to the field of a value: the objects, the fields, and what
-- is asked of the libraries. The constructors of a field are those that the code matches and makes.
pub mod Union
pub mod Run
use Prim.Native.String.{String}
use repics.Prelude.{ℕ, ◌≡◌, Bool, true, false, ◌&&◌, List, [], ◌∷◌, Option, none, some}
use repics.Prelude.Int.{ℤ}
use repics.Text.{Text}
use repics.PvaType.{ScalarType, FieldDesc}
use repics.PvaScalar.{F64, ScalarValue, ScalarError, ScalarLib, scalar_fits}

-- A Python object, as far as an assignment looks at it.
mutual
  pub data PyObj : Type 0 where
    py_none : PyObj
    py_bool : Bool → PyObj
    py_int : ℤ → PyObj
    py_float : F64 → PyObj
    py_str : String → PyObj
    py_tuple : Objs → PyObj
    py_list : Objs → PyObj
    py_dict : Entries → PyObj
    -- A numpy array or scalar: the kind and the size of its dtype, the number of its dimensions, the
    -- items it iterates, and what its `__index__` and its `__float__` give.
    py_array : String → ℕ → ℕ → Objs → Option ℤ → Option F64 → PyObj
    -- A `Value`: the root it is a view of, the type at its prefix, and what `todict` gives.
    py_value : ℕ → FieldDesc → Entries → PyObj
    -- Another object that can be iterated, and one that cannot.
    py_iterable : Objs → Option ℤ → Option F64 → PyObj
    py_other : Option ℤ → Option F64 → PyObj

  pub data Objs : Type 0 where
    no_objs : Objs
    obj : PyObj → Objs → Objs

  -- The items of a dict.
  pub data Entries : Type 0 where
    no_entries : Entries
    entry : PyObj → PyObj → Entries → Entries

mutual
  pub data PvField : Type 0 where
    scalar_value : ScalarValue → PvField
    typed_array : ScalarType → List ScalarValue → PvField
    structure_value : NamedFields → PvField
    structure_items : Structs → PvField
    -- The selector, the variant's name and its value.
    union_value : ℤ → String → PvField → PvField
    union_items : UnionItems → PvField
    variant_value : Option FieldDesc → PvField → PvField
    variant_items : VariantItems → PvField
    null : PvField

  pub data NamedFields : Type 0 where
    no_fields : NamedFields
    field : String → PvField → NamedFields → NamedFields

  -- `Vec<Option<PvStructure>>`, and the same of unions and variants.
  pub data Structs : Type 0 where
    no_structs : Structs
    absent_struct : Structs → Structs
    struct : NamedFields → Structs → Structs

  pub data UnionItems : Type 0 where
    no_union_items : UnionItems
    absent_union : UnionItems → UnionItems
    union_item : ℤ → String → PvField → UnionItems → UnionItems

  pub data VariantItems : Type 0 where
    no_variant_items : VariantItems
    absent_variant : VariantItems → VariantItems
    variant_item : Option FieldDesc → PvField → VariantItems → VariantItems

pub data PyErr : Type 0 where
  bad_scalar : ScalarError → PyErr
  bad_array : PyErr
  -- `TypeError`
  takes_dict_or_value : PyErr
  target_not_structure : PyErr
  not_a_structure : PyErr
  not_a_string : PyErr
  not_iterable : PyErr
  cannot_infer : PyErr
  -- `KeyError`
  no_such_member : String → PyErr
  no_union_member : String → PyErr
  -- `ValueError`
  not_member_and_value : PyErr
  no_member_accepts : PyErr

-- How an assignment ends other than by returning.
pub data Failure : Type 0 where
  raised : PyErr → Failure
  -- A panic, of `unreachable!`.
  panicked : Failure
  -- It waits for a lock that its own thread holds.
  blocked : Failure
  -- The recursion goes deeper than the fuel.
  too_deep : Failure

abbrev pub all_fit : ScalarType → List ScalarValue → Bool
all_fit st [] = true
all_fit st (v ∷ vs) = scalar_fits st v && all_fit st vs

-- What the code asks of numpy, of Python and of `epics_pva_rs`, but for their types.
pub record AssignLib : Type 0 where
  pub scalars : ScalarLib
  -- `str(obj)`
  pub str_of : PyObj → Text
  -- `numpy.asarray(obj, dtype)`, flat, or its error.
  pub array_of : PyObj → ScalarType → Option (List ScalarValue)
  pub default_value_for : FieldDesc → PvField
  -- An array of a dtype holds values of that dtype.
  pub array_of-fits :
      (o : PyObj) (st : ScalarType) (vs : List ScalarValue)
      → array_of o st ≡ some vs
      → all_fit st vs ≡ true
