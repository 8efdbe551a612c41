-- ===== src/PvaType/Kinds.antt =====
-- What kind of descriptor a `Type` holds.
use Prim.Native.String.{String}
use repics.Prelude.{
  ◌≡◌, refl, Result, ok, Option, none, some, sym, ◌∙◌, ap, Bool, true, false, bind-ok, ok-injective,
  [], ◌∷◌, arith, ◌>>=◌,
}
use repics.Text.{Text, codes}
use repics.PvaType.{
  FieldDesc, structure, structure_array, union, union_array, Members, PySpec, py_tuple, py_type,
  py_str, item, no_items, SpecError, desc_from_py, members_from_py, type_new, spec_desc, with_id,
  is_compound_spec, compound_desc, extract_id, id_or_default,
}

-- A structure, a union, or an array of those.
abbrev pub is_compound : FieldDesc → Bool
is_compound (structure id ms) = true
is_compound (structure_array id ms) = true
is_compound (union id ms) = true
is_compound (union_array id ms) = true
is_compound _ = false

-- A spec that is no `Type`, or one that holds such a descriptor.
abbrev pub HoldsCompound : PySpec → Type 0
HoldsCompound (py_type d) = is_compound d ≡ true
HoldsCompound _ = Unit

compound_desc-is_compound :
    (cs : Text) (code id : String) (ms : Members) (d : FieldDesc)
    → compound_desc cs code id ms ≡ ok d
    → is_compound d ≡ true
unfolding compound_desc
compound_desc-is_compound [] code id ms d h = cc
compound_desc-is_compound (a ∷ []) code id ms d h = ground arith
compound_desc-is_compound (a ∷ b ∷ []) code id ms d h = ground arith
compound_desc-is_compound (a ∷ b ∷ c ∷ cs) code id ms d h = cc

with_id-is_compound :
    (d : FieldDesc) (id : Option String) → is_compound d ≡ true → is_compound (with_id d id) ≡ true
unfolding with_id
with_id-is_compound d none h = ground arith
with_id-is_compound (structure old ms) (some id) h = refl
with_id-is_compound d (some id) h = ground arith

structure-is_compound :
    (r : Result SpecError Members) (id : String) (d : FieldDesc)
    → (r >>= λ ms. ok (structure id ms)) ≡ ok d
    → is_compound d ≡ true
structure-is_compound r id d h =
    let (ms, _, e) = bind-ok r (λ ms. ok (structure id ms)) d h in
    sym (ap is_compound (ok-injective e))

spec_desc-is_compound :
    (spec : PySpec) (id : Option String) (d : FieldDesc)
    → HoldsCompound spec
    → spec_desc spec id ≡ ok d
    → is_compound d ≡ true
unfolding spec_desc is_compound_spec desc_from_py
spec_desc-is_compound (py_type e) id d c h = sym (ap is_compound (ok-injective h)) ∙ c
spec_desc-is_compound (py_tuple (item (py_str code) (item i (item m no_items)))) id d c h =
    let (_, _, h1) = bind-ok (extract_id i) _ d h in
    let (ms, _, h2) = bind-ok (members_from_py m) _ d h1 in
    compound_desc-is_compound (codes code) code _ ms d h2
spec_desc-is_compound spec id d c h =
    structure-is_compound (members_from_py spec) (id_or_default id) d h

-- Whatever `Type(spec, id)` accepts, it holds a structure, a union or an array of those.
pub type_new-is_compound :
    (spec : PySpec) (id : Option String) (d : FieldDesc)
    → HoldsCompound spec
    → type_new spec id ≡ ok d
    → is_compound d ≡ true
unfolding type_new
type_new-is_compound spec id d c h =
    let (e, q, r) = bind-ok (spec_desc spec id) (λ e. ok (with_id e id)) d h in
    sym (ap is_compound (ok-injective r))
    ∙ with_id-is_compound e id (spec_desc-is_compound spec id e c q)
