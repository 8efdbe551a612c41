-- ===== src/PvaScalar.antt =====
-- src/pva/value.rs, the scalars that a Python object becomes: `py_to_scalar`, `int_to_scalar`,
-- `float_to_scalar`. A float is its bit pattern.
pub mod Wrap
pub mod Fitting
pub mod Plain
pub mod Examples
use Prim.Native.String.{String}
use repics.Prelude.{
  ℕ, suc, ◌+◌, ◌-◌, ◌%◌, ◌≡◌, Bool, true, false, ◌&&◌, not, List, [], ◌∷◌, ltb, leb, eqb,
  if◌then◌else◌, Option, none, some, Result, ok, err, ok_or, ◌>>=◌,
}
use repics.Prelude.Int.{ℤ, pos, negsuc}
use repics.Text.{Text, codes}
use repics.Text.Number.{decimal}
use repics.PvaType.{
  ScalarType, boolean, byte, ubyte, short, ushort, int, uint, long, ulong, float, double, string,
}

abbrev pub F32 : Type 0
F32 = ℕ

abbrev pub F64 : Type 0
F64 = ℕ

pub data ScalarValue : Type 0 where
  boolean_value : Bool → ScalarValue
  byte_value : ℤ → ScalarValue
  ubyte_value : ℕ → ScalarValue
  short_value : ℤ → ScalarValue
  ushort_value : ℕ → ScalarValue
  int_value : ℤ → ScalarValue
  uint_value : ℕ → ScalarValue
  long_value : ℤ → ScalarValue
  ulong_value : ℕ → ScalarValue
  float_value : F32 → ScalarValue
  double_value : F64 → ScalarValue
  string_value : Text → ScalarValue

-- A Python object, as far as a scalar field looks at it.
pub data PyScalar : Type 0 where
  py_str : String → PyScalar
  py_bool : Bool → PyScalar
  py_int : ℤ → PyScalar
  py_float : F64 → PyScalar
  -- Any other object: its `str`, and what its `__index__` and its `__float__` give, if it has them.
  py_other : Text → Option ℤ → Option F64 → PyScalar

pub data ScalarError : Type 0 where
  -- `ValueError`, from the parser
  unparsable : Text → ScalarError
  -- `OverflowError`, of an int that does not fit an i128
  too_large : ScalarError
  -- `TypeError`
  cannot_assign : ScalarType → ScalarError

unfoldable pub in_signed : ℕ → ℤ → Bool
in_signed half (pos n) = ltb n half
in_signed half (negsuc n) = ltb n half

-- The value is one of the given type, with an integer in that type's range.
unfoldable pub scalar_fits : ScalarType → ScalarValue → Bool
unfolding in_signed
scalar_fits boolean (boolean_value b) = true
scalar_fits byte (byte_value i) = in_signed 0x80 i
scalar_fits ubyte (ubyte_value n) = ltb n 0x100
scalar_fits short (short_value i) = in_signed 0x8000 i
scalar_fits ushort (ushort_value n) = ltb n 0x1_0000
scalar_fits int (int_value i) = in_signed 0x8000_0000 i
scalar_fits uint (uint_value n) = ltb n 0x1_0000_0000
scalar_fits long (long_value i) = in_signed 0x8000_0000_0000_0000 i
scalar_fits ulong (ulong_value n) = ltb n 0x1_0000_0000_0000_0000
scalar_fits float (float_value x) = true
scalar_fits double (double_value x) = true
scalar_fits string (string_value s) = true
scalar_fits _ _ = false

-- What the standard library and `epics_pva_rs` do with floats and texts.
pub record ScalarLib : Type 0 where
  pub int_to_f32 : ℤ → F32
  pub int_to_f64 : ℤ → F64
  pub f64_to_f32 : F64 → F32
  -- `f as i128`: towards zero, and at the ends of the range beyond it.
  pub f64_to_int : F64 → ℤ
  pub show_f64 : F64 → Text
  -- Python's `str(obj)`.
  pub str_int : ℤ → Text
  pub str_float : F64 → Text
  -- `ScalarValue::parse`
  pub parse : ScalarType → Text → Option ScalarValue
  -- The parser gives a value of the type it is asked for.
  pub parse-fits :
      (st : ScalarType) (s : Text) (v : ScalarValue) → parse st s ≡ some v → scalar_fits st v ≡ true

-- `i as uN` with `2^N` given: the residue.
unfoldable pub as_unsigned : ℕ → ℤ → ℕ
as_unsigned modulus (pos n) = n % modulus
as_unsigned modulus (negsuc n) = modulus - suc (n % modulus)

-- A pattern of N bits read in two's complement, with `2^(N-1)` given.
unfoldable pub to_signed : ℕ → ℕ → ℤ
to_signed half p = if ltb p half then pos p else negsuc (half + half - suc p)

-- `i as iN`, with `2^(N-1)` given.
unfoldable pub as_signed : ℕ → ℤ → ℤ
unfolding as_unsigned to_signed
as_signed half i = to_signed half (as_unsigned (half + half) i)

nonzero : ℤ → Bool
nonzero (pos n) = not (eqb n 0)
nonzero (negsuc n) = true

unfoldable pub show_int : ℤ → Text
unfolding decimal
show_int (pos n) = decimal n
show_int (negsuc n) = b'-' ∷ decimal (suc n)

-- Whether an int fits an i128.
unfoldable pub in_i128 : ℤ → Bool
unfolding in_signed
in_i128 i = in_signed 0x8000_0000_0000_0000_0000_0000_0000_0000 i

unfoldable pub is_string : ScalarType → Bool
is_string string = true
is_string _ = false

module _ (L : ScalarLib) where
  unfoldable pub int_to_scalar : ℤ → ScalarType → ScalarValue
  unfolding as_signed as_unsigned nonzero show_int
  int_to_scalar i boolean = boolean_value (nonzero i)
  int_to_scalar i byte = byte_value (as_signed 0x80 i)
  int_to_scalar i ubyte = ubyte_value (as_unsigned 0x100 i)
  int_to_scalar i short = short_value (as_signed 0x8000 i)
  int_to_scalar i ushort = ushort_value (as_unsigned 0x1_0000 i)
  int_to_scalar i int = int_value (as_signed 0x8000_0000 i)
  int_to_scalar i uint = uint_value (as_unsigned 0x1_0000_0000 i)
  int_to_scalar i long = long_value (as_signed 0x8000_0000_0000_0000 i)
  int_to_scalar i ulong = ulong_value (as_unsigned 0x1_0000_0000_0000_0000 i)
  int_to_scalar i float = float_value (L.int_to_f32 i)
  int_to_scalar i double = double_value (L.int_to_f64 i)
  int_to_scalar i string = string_value (show_int i)

  float_to_scalar : F64 → ScalarType → ScalarValue
  unfolding int_to_scalar
  float_to_scalar f float = float_value (L.f64_to_f32 f)
  float_to_scalar f double = double_value f
  float_to_scalar f string = string_value (L.show_f64 f)
  float_to_scalar f st = int_to_scalar (L.f64_to_int f) st

  bool_to_scalar : Bool → ScalarType → ScalarValue
  unfolding int_to_scalar
  bool_to_scalar b boolean = boolean_value b
  bool_to_scalar b string = string_value (codes (if b then "true" else "false"))
  bool_to_scalar b st = int_to_scalar (pos (if b then 1 else 0)) st

  -- The int of an `int` object.
  extracted : ℤ → ScalarType → Result ScalarError ScalarValue
  unfolding int_to_scalar in_i128
  extracted i st = if in_i128 i then ok (int_to_scalar i st) else err too_large

  -- `__float__`, or nothing that a field can take.
  through_float : Option F64 → ScalarType → Result ScalarError ScalarValue
  unfolding float_to_scalar
  through_float none st = err (cannot_assign st)
  through_float (some f) st = ok (float_to_scalar f st)

  -- `__index__` where it gives an i128, `__float__` otherwise.
  through_index : Option ℤ → Option F64 → ScalarType → Result ScalarError ScalarValue
  unfolding through_float int_to_scalar in_i128
  through_index none f st = through_float f st
  through_index (some i) f st = if in_i128 i then ok (int_to_scalar i st) else through_float f st

  unfoldable pub py_to_scalar : PyScalar → ScalarType → Result ScalarError ScalarValue
  unfolding bool_to_scalar is_string extracted float_to_scalar through_index
  py_to_scalar (py_str s) st = ok_or (L.parse st (codes s)) (unparsable (codes s))
  py_to_scalar (py_bool b) st = ok (bool_to_scalar b st)
  py_to_scalar (py_int i) st =
      if is_string st then ok (string_value (L.str_int i)) else extracted i st
  py_to_scalar (py_float f) st =
      if is_string st then ok (string_value (L.str_float f)) else ok (float_to_scalar f st)
  py_to_scalar (py_other s i f) st =
      if is_string st then ok (string_value s) else through_index i f st
