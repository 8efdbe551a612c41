-- ===== src/PvaToPy.antt =====
-- src/pva/value.rs, `field_to_py` and `variant_to_py`: a field as a Python object. The objects of Python
-- and numpy for one scalar or one array are taken to be made.
pub mod Fitting
use Prim.Native.String.{String}
use repics.Prelude.{ℕ, zero, suc, List, Option, none, some, Result, ok, err, ◌>>=◌}
use repics.Prelude.Int.{ℤ, pos, negsuc}
use repics.PvaType.{
  FieldDesc, structure, structure_array, union, union_array, Members, no_members, member,
  ScalarType,
}
use repics.PvaScalar.{ScalarValue}
use repics.PvaAssign.{
  PvField, scalar_value, typed_array, structure_value, structure_items, union_value, union_items,
  variant_value, variant_items, null, Structs, no_structs, absent_struct, struct, UnionItems,
  no_union_items, absent_union, union_item, VariantItems, no_variant_items, absent_variant,
  variant_item,
}

mutual
  pub data PyOut : Type 0 where
    scalar_out : ScalarValue → PyOut
    array_out : ScalarType → List ScalarValue → PyOut
    -- A `Value` of its own, of this type.
    detached : FieldDesc → PvField → PyOut
    list_out : PyOuts → PyOut
    none_out : PyOut

  pub data PyOuts : Type 0 where
    no_outs : PyOuts
    out : PyOut → PyOuts → PyOuts

pub data ConvertError : Type 0 where
  -- `TypeError`
  does_not_fit : FieldDesc → PvField → ConvertError

unfoldable pub nth_member : Members → ℕ → Option FieldDesc
nth_member no_members i = none
nth_member (member n d ms) zero = some d
nth_member (member n d ms) (suc i) = nth_member ms i

-- `variants.get(..)`, by a selector; a negative one selects nothing.
unfoldable pub union_member : Members → ℤ → Option FieldDesc
unfolding nth_member
union_member ms (pos i) = nth_member ms i
union_member ms (negsuc i) = none

unfoldable pub structs_out : FieldDesc → Structs → PyOuts
structs_out elem no_structs = no_outs
structs_out elem (absent_struct xs) = out none_out (structs_out elem xs)
structs_out elem (struct fs xs) = out (detached elem (structure_value fs)) (structs_out elem xs)

cons_out : Result ConvertError PyOut → Result ConvertError PyOuts → Result ConvertError PyOuts
cons_out o rest = o >>= λ x. rest >>= λ xs. ok (out x xs)

list_of : Result ConvertError PyOuts → Result ConvertError PyOut
list_of rest = rest >>= λ xs. ok (list_out xs)

-- `variant_to_py`, of the value, from what its conversion gives.
unfoldable variant_to_py : PvField → Result ConvertError PyOut → Result ConvertError PyOut
variant_to_py null r = ok none_out
variant_to_py f r = r

-- `PvField::descriptor` is the library's.
module _ (descriptor : PvField → FieldDesc) where
  -- The type by which a variant's value is converted.
  unfoldable variant_type : Option FieldDesc → PvField → FieldDesc
  variant_type (some d) f = d
  variant_type none f = descriptor f

  unfoldable mutual
    unfolding variant_type variant_to_py union_member structs_out cons_out list_of

    pub field_to_py : FieldDesc → PvField → Result ConvertError PyOut
    field_to_py d (scalar_value v) = ok (scalar_out v)
    field_to_py d (typed_array st vs) = ok (array_out st vs)
    field_to_py (structure id ms) (structure_value fs) =
        ok (detached (structure id ms) (structure_value fs))
    field_to_py (structure_array id ms) (structure_items xs) =
        ok (list_out (structs_out (structure id ms) xs))
    field_to_py (union id ms) (union_value s n f) = elim (union_member ms s) [
      | none ↦ ok none_out
      | some d ↦ field_to_py d f
    ]
    field_to_py (union_array id ms) (union_items xs) = list_of (unions_to_py ms xs)
    field_to_py d (variant_value vd f) = variant_to_py f (field_to_py (variant_type vd f) f)
    field_to_py d (variant_items xs) = list_of (variants_to_py xs)
    field_to_py d null = ok none_out
    field_to_py d f = err (does_not_fit d f)

    unions_to_py : Members → UnionItems → Result ConvertError PyOuts
    unions_to_py ms no_union_items = ok no_outs
    unions_to_py ms (absent_union xs) = cons_out (ok none_out) (unions_to_py ms xs)
    unions_to_py ms (union_item s n f xs) =
        let rest = unions_to_py ms xs in
        cons_out (elim (union_member ms s) [ none ↦ ok none_out | some d ↦ field_to_py d f ]) rest

    variants_to_py : VariantItems → Result ConvertError PyOuts
    variants_to_py no_variant_items = ok no_outs
    variants_to_py (absent_variant xs) = cons_out (ok none_out) (variants_to_py xs)
    variants_to_py (variant_item vd f xs) =
        cons_out (variant_to_py f (field_to_py (variant_type vd f) f)) (variants_to_py xs)
