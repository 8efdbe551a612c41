-- ===== src/PvaAssign/Run/Plain.antt =====
-- src/pva/value.rs, `assign`: what it asks of the libraries can be met.
use repics.Prelude.{◌≡◌, refl, true, false, List, [], Option, none, some}
use repics.Prelude.Int.{pos, negsuc}
use repics.PvaType.{
  ScalarType, boolean, byte, ubyte, short, ushort, int, uint, long, ulong, float, double, string,
  FieldDesc, scalar, scalar_array, variant, variant_array, structure, structure_array, union,
  union_array, Members, no_members, member,
}
use repics.PvaScalar.{
  ScalarValue, boolean_value, byte_value, ubyte_value, short_value, ushort_value, int_value,
  uint_value, long_value, ulong_value, float_value, double_value, string_value, scalar_fits,
}
use repics.PvaScalar.Plain.{plain_scalars}
use repics.PvaAssign.{
  PyObj, PvField, scalar_value, typed_array, structure_value, structure_items, union_value,
  union_items, variant_value, variant_items, null, NamedFields, no_fields, field, no_structs,
  no_union_items, no_variant_items, AssignLib, all_fit,
}
use repics.PvaAssign.Run.Fits.{
  Fits, scalar_fit, array_fit, structure_fit, structs_fit, union_fit, unions_fit, variant_fit,
  variants_fit, FitsMembers, no_member, and_member, no_struct, unselected, no_union, no_value,
  no_variant,
}

unfoldable pub zero_scalar : ScalarType → ScalarValue
zero_scalar boolean = boolean_value false
zero_scalar byte = byte_value (pos 0)
zero_scalar ubyte = ubyte_value 0
zero_scalar short = short_value (pos 0)
zero_scalar ushort = ushort_value 0
zero_scalar int = int_value (pos 0)
zero_scalar uint = uint_value 0
zero_scalar long = long_value (pos 0)
zero_scalar ulong = ulong_value 0
zero_scalar float = float_value 0
zero_scalar double = double_value 0
zero_scalar string = string_value []

zero_scalar-fits : (st : ScalarType) → scalar_fits st (zero_scalar st) ≡ true
unfolding zero_scalar scalar_fits
zero_scalar-fits boolean = refl
zero_scalar-fits byte = refl
zero_scalar-fits ubyte = refl
zero_scalar-fits short = refl
zero_scalar-fits ushort = refl
zero_scalar-fits int = refl
zero_scalar-fits uint = refl
zero_scalar-fits long = refl
zero_scalar-fits ulong = refl
zero_scalar-fits float = refl
zero_scalar-fits double = refl
zero_scalar-fits string = refl

unfoldable mutual
  unfolding zero_scalar

  pub zero_field : FieldDesc → PvField
  zero_field (scalar st) = scalar_value (zero_scalar st)
  zero_field (scalar_array st) = typed_array st []
  zero_field (structure id ms) = structure_value (zeros ms)
  zero_field (structure_array id ms) = structure_items no_structs
  zero_field (union id ms) = union_value (negsuc 0) "" null
  zero_field (union_array id ms) = union_items no_union_items
  zero_field variant = variant_value none null
  zero_field variant_array = variant_items no_variant_items

  pub zeros : Members → NamedFields
  zeros no_members = no_fields
  zeros (member n d ms) = field n (zero_field d) (zeros ms)

mutual
  unfolding zero_field

  zero-fit : (d : FieldDesc) → Fits d (zero_field d)
  zero-fit (scalar st) = scalar_fit (zero_scalar-fits st)
  zero-fit (scalar_array st) = array_fit refl
  zero-fit (structure id ms) = structure_fit (zeros-fit ms)
  zero-fit (structure_array id ms) = structs_fit no_struct
  zero-fit (union id ms) = union_fit unselected
  zero-fit (union_array id ms) = unions_fit no_union
  zero-fit variant = variant_fit no_value
  zero-fit variant_array = variants_fit no_variant

  zeros-fit : (ms : Members) → FitsMembers ms (zeros ms)
  zeros-fit no_members = no_member
  zeros-fit (member n d ms) = and_member (zero-fit d) (zeros-fit ms)

pub zero-Fits : (d : FieldDesc) → Fits d (zero_field d)
zero-Fits d = zero-fit d

pub no_array :
    (o : PyObj) (st : ScalarType) (vs : List ScalarValue)
    → Path (Option (List ScalarValue)) none (some vs)
    → all_fit st vs ≡ true
no_array o st vs h = cc

abbrev pub plain_assign : AssignLib
plain_assign = record {
  scalars = plain_scalars;
  str_of = λ o. [];
  array_of = λ o st. none;
  default_value_for = zero_field;
  array_of-fits = no_array;
}
