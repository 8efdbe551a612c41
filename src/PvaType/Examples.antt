-- ===== src/PvaType/Examples.antt =====
-- src/pva/value.rs, `Type`: examples.
use repics.Prelude.{◌≡◌, refl, none, some, ok, err}
use repics.PvaType.{
  scalar, scalar_array, structure, union, Members, no_members, member, double, string, PySpec,
  py_str, py_tuple, py_list, py_none, no_items, item, unknown_type_code, not_three_items,
  unknown_compound_code, desc_to_py, desc_from_py, type_new,
}
use repics.PvaType.RoundTrip.{desc_from_py-desc_to_py, type_new-again}

abbrev pair : PySpec → PySpec → PySpec
pair a b = py_tuple (item a (item b no_items))

abbrev triple : PySpec → PySpec → PySpec → PySpec
triple a b c = py_tuple (item a (item b (item c no_items)))

-- `[("value", "d"), ("choices", "as")]`.
abbrev enum_spec : PySpec
enum_spec = py_list (
    item (pair (py_str "value") (py_str "d"))
      (item (pair (py_str "choices") (py_str "as")) no_items))

abbrev enum_members : Members
enum_members = member "value" (scalar double) (member "choices" (scalar_array string) no_members)

members_spec : type_new enum_spec (some "enum_t") ≡ ok (structure "enum_t" enum_members)
unfolding type_new
members_spec = refl

unknown_code : desc_from_py (py_str "q") ≡ err (unknown_type_code "q")
unfolding desc_from_py
unknown_code = refl

two_items : desc_from_py (pair (py_str "S") py_none) ≡ err not_three_items
unfolding desc_from_py
two_items = refl

array_of_code :
    desc_from_py (triple (py_str "aX") py_none (py_list no_items))
    ≡ err (unknown_compound_code "aX")
unfolding desc_from_py
array_of_code = refl

desc_from_py-desc_to_py_example :
    desc_from_py (desc_to_py (union "" enum_members)) ≡ ok (union "" enum_members)
desc_from_py-desc_to_py_example = desc_from_py-desc_to_py (union "" enum_members)

type_new-again_example :
    type_new (desc_to_py (structure "enum_t" enum_members)) none
    ≡ ok (structure "enum_t" enum_members)
type_new-again_example =
    type_new-again enum_spec (some "enum_t") (structure "enum_t" enum_members) (record {})
      members_spec
