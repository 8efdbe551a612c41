-- ===== src/PvaScalar/Fitting.antt =====
-- src/pva/value.rs, `py_to_scalar`: what it gives fits the field.
use repics.Prelude.{
  ◌≡◌, refl, ◌∙◌, Bool, true, arith, sym, ap, if◌then◌else◌, if-split, Option, none, some, Result,
  ok, err, ok_or, ok-injective,
}
use repics.Prelude.Int.{ℤ, pos}
use repics.Text.{Text, codes}
use repics.PvaType.{
  ScalarType, boolean, byte, ubyte, short, ushort, int, uint, long, ulong, float, double, string,
}
use repics.PvaScalar.{
  F64, ScalarValue, string_value, PyScalar, py_str, py_bool, py_int, py_float, py_other,
  ScalarError, unparsable, too_large, scalar_fits, ScalarLib, int_to_scalar, float_to_scalar,
  bool_to_scalar, extracted, through_float, through_index, is_string, py_to_scalar, in_i128,
}
use repics.PvaScalar.Wrap.{as_unsigned-lt, as_signed-wraps}

string-fits :
    (st : ScalarType) (s : Text) → is_string st ≡ true → scalar_fits st (string_value s) ≡ true
unfolding is_string scalar_fits
string-fits st s h = ground arith

fits-of :
    (st : ScalarType) (w v : ScalarValue)
    → scalar_fits st w ≡ true
    → Path (Result ScalarError ScalarValue) (ok w) (ok v)
    → scalar_fits st v ≡ true
fits-of st w v h e = sym (ap (scalar_fits st) (ok-injective e)) ∙ h

module _ (L : ScalarLib) where
  int_to_scalar-fits : (i : ℤ) (st : ScalarType) → scalar_fits st (int_to_scalar L i st) ≡ true
  unfolding scalar_fits int_to_scalar
  int_to_scalar-fits i boolean = refl
  int_to_scalar-fits i byte = (as_signed-wraps 0x80 i (omega arith)).0
  int_to_scalar-fits i ubyte = ground (arith, as_unsigned-lt 0x100 i)
  int_to_scalar-fits i short = (as_signed-wraps 0x8000 i (omega arith)).0
  int_to_scalar-fits i ushort = ground (arith, as_unsigned-lt 0x1_0000 i)
  int_to_scalar-fits i int = (as_signed-wraps 0x8000_0000 i (omega arith)).0
  int_to_scalar-fits i uint = ground (arith, as_unsigned-lt 0x1_0000_0000 i)
  int_to_scalar-fits i long = (as_signed-wraps 0x8000_0000_0000_0000 i (omega arith)).0
  int_to_scalar-fits i ulong = ground (arith, as_unsigned-lt 0x1_0000_0000_0000_0000 i)
  int_to_scalar-fits i float = refl
  int_to_scalar-fits i double = refl
  int_to_scalar-fits i string = refl

  float_to_scalar-fits :
      (f : F64) (st : ScalarType) → scalar_fits st (float_to_scalar L f st) ≡ true
  unfolding scalar_fits float_to_scalar
  float_to_scalar-fits f float = refl
  float_to_scalar-fits f double = refl
  float_to_scalar-fits f string = refl
  float_to_scalar-fits f st = int_to_scalar-fits (L.f64_to_int f) st

  bool_to_scalar-fits : (b : Bool) (st : ScalarType) → scalar_fits st (bool_to_scalar L b st) ≡ true
  unfolding scalar_fits bool_to_scalar
  bool_to_scalar-fits b boolean = refl
  bool_to_scalar-fits b string = refl
  bool_to_scalar-fits b st = int_to_scalar-fits (pos (if b then 1 else 0)) st

  through_float-fits :
      (f : Option F64) (st : ScalarType) (v : ScalarValue)
      → through_float L f st ≡ ok v
      → scalar_fits st v ≡ true
  unfolding through_float
  through_float-fits none st v e = cc
  through_float-fits (some f) st v e = fits-of st _ v (float_to_scalar-fits f st) e

  extracted-fits :
      (i : ℤ) (st : ScalarType) (v : ScalarValue)
      → extracted L i st ≡ ok v
      → scalar_fits st v ≡ true
  unfolding extracted
  extracted-fits i st v e =
      if-split (in_i128 i) (ok (int_to_scalar L i st)) (err too_large)
        (λ h. fits-of st _ v (int_to_scalar-fits i st)) (λ h. cc) e

  through_index-fits :
      (i : Option ℤ) (f : Option F64) (st : ScalarType) (v : ScalarValue)
      → through_index L i f st ≡ ok v
      → scalar_fits st v ≡ true
  unfolding through_index
  through_index-fits none f st v e = through_float-fits f st v e
  through_index-fits (some i) f st v e =
      if-split (in_i128 i) (ok (int_to_scalar L i st)) (through_float L f st)
        (λ h. fits-of st _ v (int_to_scalar-fits i st)) (λ h. through_float-fits f st v) e

  parsed-fits :
      (o : Option ScalarValue) (s : Text) (st : ScalarType) (v : ScalarValue)
      → L.parse st s ≡ o
      → ok_or o (unparsable s) ≡ ok v
      → scalar_fits st v ≡ true
  parsed-fits none s st v p e = cc
  parsed-fits (some w) s st v p e = fits-of st w v (L.parse-fits st s w p) e

  -- What `py_to_scalar` gives is a value of the field's type, with an integer in that type's range.
  pub py_to_scalar-fits :
      (o : PyScalar) (st : ScalarType) (v : ScalarValue)
      → py_to_scalar L o st ≡ ok v
      → scalar_fits st v ≡ true
  unfolding py_to_scalar
  py_to_scalar-fits (py_str s) st v e = parsed-fits (L.parse st (codes s)) (codes s) st v refl e
  py_to_scalar-fits (py_bool b) st v e = fits-of st _ v (bool_to_scalar-fits b st) e
  py_to_scalar-fits (py_int i) st v e =
      if-split (is_string st) (ok (string_value (L.str_int i))) (extracted L i st)
        (λ h. fits-of st _ v (string-fits st _ h)) (λ h. extracted-fits i st v) e
  py_to_scalar-fits (py_float f) st v e =
      if-split (is_string st) (ok (string_value (L.str_float f))) (ok (float_to_scalar L f st))
        (λ h. fits-of st _ v (string-fits st _ h)) (λ h. fits-of st _ v (float_to_scalar-fits f st))
        e
  py_to_scalar-fits (py_other s i f) st v e =
      if-split (is_string st) (ok (string_value s)) (through_index L i f st)
        (λ h. fits-of st _ v (string-fits st _ h)) (λ h. through_index-fits i f st v) e
