-- ===== src/PvaType/RoundTrip.antt =====
-- A type spec and the descriptor it describes.
use Prim.Native.String.{String}
use repics.Prelude.{◌≡◌, refl, ok, Option, none, true}
use repics.PvaType.{
  ScalarType, boolean, byte, ubyte, short, ushort, int, uint, long, ulong, float, double, string,
  PySpec, FieldDesc, scalar, scalar_array, variant, variant_array, structure, structure_array,
  union, union_array, Members, no_members, member, desc_to_py, members_to_py, desc_from_py,
  members_of, extract_id, id_to_py, type_new, spec_desc, with_id,
}
use repics.PvaType.Kinds.{is_compound, HoldsCompound, type_new-is_compound}

scalar-round : (st : ScalarType) → desc_from_py (desc_to_py (scalar st)) ≡ ok (scalar st)
unfolding desc_from_py desc_to_py
scalar-round boolean = refl
scalar-round byte = refl
scalar-round ubyte = refl
scalar-round short = refl
scalar-round ushort = refl
scalar-round int = refl
scalar-round uint = refl
scalar-round long = refl
scalar-round ulong = refl
scalar-round float = refl
scalar-round double = refl
scalar-round string = refl

scalar_array-round :
    (st : ScalarType) → desc_from_py (desc_to_py (scalar_array st)) ≡ ok (scalar_array st)
unfolding desc_from_py desc_to_py
scalar_array-round boolean = refl
scalar_array-round byte = refl
scalar_array-round ubyte = refl
scalar_array-round short = refl
scalar_array-round ushort = refl
scalar_array-round int = refl
scalar_array-round uint = refl
scalar_array-round long = refl
scalar_array-round ulong = refl
scalar_array-round float = refl
scalar_array-round double = refl
scalar_array-round string = refl

extract_id-id_to_py : (id : String) → extract_id (id_to_py id) ≡ ok id
unfolding extract_id id_to_py
extract_id-id_to_py String.[] = refl
extract_id-id_to_py (String.◌∷◌ c s) = refl

mutual
  unfolding desc_from_py desc_to_py

  round : (d : FieldDesc) → desc_from_py (desc_to_py d) ≡ ok d
  round (scalar st) = scalar-round st
  round (scalar_array st) = scalar_array-round st
  round variant = refl
  round variant_array = refl
  round (structure id ms) = rw (extract_id-id_to_py id, members-round ms) refl
  round (structure_array id ms) = rw (extract_id-id_to_py id, members-round ms) refl
  round (union id ms) = rw (extract_id-id_to_py id, members-round ms) refl
  round (union_array id ms) = rw (extract_id-id_to_py id, members-round ms) refl

  members-round : (ms : Members) → members_of (members_to_py ms) ≡ ok ms
  members-round no_members = refl
  members-round (member n d ms) = rw (round d, members-round ms) refl

-- Any descriptor comes back from the spec it is printed as.
pub desc_from_py-desc_to_py : (d : FieldDesc) → desc_from_py (desc_to_py d) ≡ ok d
desc_from_py-desc_to_py d = round d

type_new-aspy : (d : FieldDesc) → is_compound d ≡ true → type_new (desc_to_py d) none ≡ ok d
unfolding type_new spec_desc desc_to_py with_id
type_new-aspy (structure id ms) h = rw (round (structure id ms)) refl
type_new-aspy (structure_array id ms) h = rw (round (structure_array id ms)) refl
type_new-aspy (union id ms) h = rw (round (union id ms)) refl
type_new-aspy (union_array id ms) h = rw (round (union_array id ms)) refl
type_new-aspy _ h = cc

-- Whatever `Type(spec, id)` accepts, `Type(t.aspy())` of the type `t` it makes gives a type with the
-- same descriptor, provided a spec that is a `Type` itself holds a structure, a union or an array of
-- those.
pub type_new-again :
    (spec : PySpec) (id : Option String) (d : FieldDesc)
    → HoldsCompound spec
    → type_new spec id ≡ ok d
    → type_new (desc_to_py d) none ≡ ok d
type_new-again spec id d c h = type_new-aspy d (type_new-is_compound spec id d c h)
