-- ===== src/PvaAssign/Run/Fits.antt =====
-- src/pva/value.rs, `assign`: a field keeps to its descriptor.
pub mod Found
pub mod Built
pub mod Kept
use Prim.Native.String.{String}
use repics.Prelude.{
  ℕ, zero, suc, ◌≡◌, refl, sym, ap, ◌∙◌, Bool, true, false, eqb, List, [], ◌∷◌, Option, none, some,
  Result, ok, err, ◌>>=◌, bind-ok, ok-injective, Result-cases, Option-cases, inl, inr, string_eq,
  ◌==◌, if-split, if◌then◌else◌,
}
use repics.Prelude.Int.{ℤ, pos, negsuc}
use repics.Epics.BitSet.{BitSetLib}
use repics.PvaType.{
  ScalarType, FieldDesc, scalar, scalar_array, variant, variant_array, structure, structure_array,
  union, union_array, Members, no_members, member,
}
use repics.PvaFields.{BitCount, children}
use repics.PvaScalar.{ScalarValue, scalar_fits}
use repics.PvaAssign.{
  PyObj, Objs, Entries, PvField, scalar_value, typed_array, structure_value, structure_items,
  union_value, union_items, variant_value, variant_items, null, NamedFields, no_fields, field,
  Structs, no_structs, absent_struct, struct, UnionItems, no_union_items, absent_union, union_item,
  VariantItems, no_variant_items, absent_variant, variant_item, all_fit, Failure, AssignLib,
}
use repics.PvaAssign.Union.{Pick, find_variant}
use repics.PvaAssign.Run.{
  Outcome, Progress, Assign, selector_of, get_field, set_field, find_child, build,
}

-- The members of a union by their index.
unfoldable pub variant_at : Members → ℕ → Option (String × FieldDesc)
variant_at no_members i = none
variant_at (member n d ms) zero = some (n, d)
variant_at (member n d ms) (suc i) = variant_at ms i

-- A field is a value of its descriptor's type: the scalars in range, every member of a structure
-- present, in order, and of its type, a union unselected or of the member that its selector and its
-- name say.
mutual
  pub data Fits : FieldDesc → PvField → Type 0 where
    scalar_fit :
        {st : ScalarType} {v : ScalarValue}
        → scalar_fits st v ≡ true
        → Fits (scalar st) (scalar_value v)
    array_fit :
        {st : ScalarType} {vs : List ScalarValue}
        → all_fit st vs ≡ true
        → Fits (scalar_array st) (typed_array st vs)
    structure_fit :
        {id : String} {ms : Members} {fs : NamedFields}
        → FitsMembers ms fs
        → Fits (structure id ms) (structure_value fs)
    structs_fit :
        {id : String} {ms : Members} {xs : Structs}
        → FitsStructs ms xs
        → Fits (structure_array id ms) (structure_items xs)
    union_fit :
        {id : String} {ms : Members} {s : ℤ} {n : String} {f : PvField}
        → FitsUnion ms s n f
        → Fits (union id ms) (union_value s n f)
    unions_fit :
        {id : String} {ms : Members} {xs : UnionItems}
        → FitsUnions ms xs
        → Fits (union_array id ms) (union_items xs)
    variant_fit :
        {d : Option FieldDesc} {f : PvField} → FitsVariant d f → Fits variant (variant_value d f)
    variants_fit : {xs : VariantItems} → FitsVariants xs → Fits variant_array (variant_items xs)

  pub data FitsMembers : Members → NamedFields → Type 0 where
    no_member : FitsMembers no_members no_fields
    and_member :
        {n : String} {d : FieldDesc} {f : PvField} {ms : Members} {fs : NamedFields}
        → Fits d f
        → FitsMembers ms fs
        → FitsMembers (member n d ms) (field n f fs)

  pub data FitsStructs : Members → Structs → Type 0 where
    no_struct : {ms : Members} → FitsStructs ms no_structs
    and_absent :
        {ms : Members} {xs : Structs} → FitsStructs ms xs → FitsStructs ms (absent_struct xs)
    and_struct :
        {ms : Members} {fs : NamedFields} {xs : Structs}
        → FitsMembers ms fs
        → FitsStructs ms xs
        → FitsStructs ms (struct fs xs)

  pub data FitsUnion : Members → ℤ → String → PvField → Type 0 where
    unselected : {ms : Members} → FitsUnion ms (negsuc 0) "" null
    selected :
        {ms : Members} (i : ℕ) {n : String} (d : FieldDesc) {f : PvField}
        → variant_at ms i ≡ some (n, d)
        → Fits d f
        → FitsUnion ms (selector_of i) n f

  pub data FitsUnions : Members → UnionItems → Type 0 where
    no_union : {ms : Members} → FitsUnions ms no_union_items
    and_no_union :
        {ms : Members} {xs : UnionItems} → FitsUnions ms xs → FitsUnions ms (absent_union xs)
    and_union :
        {ms : Members} {s : ℤ} {n : String} {f : PvField} {xs : UnionItems}
        → FitsUnion ms s n f
        → FitsUnions ms xs
        → FitsUnions ms (union_item s n f xs)

  pub data FitsVariant : Option FieldDesc → PvField → Type 0 where
    no_value : FitsVariant none null
    typed : {d : FieldDesc} {f : PvField} → Fits d f → FitsVariant (some d) f

  pub data FitsVariants : VariantItems → Type 0 where
    no_variant : FitsVariants no_variant_items
    and_no_variant : {xs : VariantItems} → FitsVariants xs → FitsVariants (absent_variant xs)
    and_variant :
        {d : Option FieldDesc} {f : PvField} {xs : VariantItems}
        → FitsVariant d f
        → FitsVariants xs
        → FitsVariants (variant_item d f xs)
