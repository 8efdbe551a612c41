-- ===== src/PvaAssign/Run.antt =====
-- src/pva/value.rs, `assign` and what it builds with. The recursion is on fuel; how much is enough
-- is said in Depth.
pub mod Fits
pub mod Marks
pub mod Depth
pub mod Refusals
pub mod Plain
pub mod Examples
use Prim.Native.String.{String}
use repics.Prelude.{
  ℕ, zero, suc, ◌≡◌, refl, Bool, true, false, ◌&&◌, eqb, if◌then◌else◌, List, [], ◌∷◌, Option, none,
  some, Result, ok, err, ◌>>=◌, Eq, string_eq, ◌==◌,
}
use repics.Prelude.Int.{ℤ, pos, negsuc}
use repics.Text.{Text, codes}
use repics.Epics.BitSet.{BitSetLib}
use repics.PvaType.{
  ScalarType, string, FieldDesc, scalar, scalar_array, variant, variant_array, structure,
  structure_array, union, union_array, Members, no_members, member,
}
use repics.PvaFields.{BitCount, children, is_struct}
use repics.PvaScalar.{
  PyScalar, ScalarValue, ScalarError, py_to_scalar, as_signed, string_value, is_string,
}
use repics.PvaScalar
use repics.PvaAssign.{
  PyObj, py_none, py_bool, py_int, py_float, py_str, py_tuple, py_list, py_dict, py_array, py_value,
  py_iterable, py_other, Objs, no_objs, obj, Entries, no_entries, entry, PvField, scalar_value,
  typed_array, structure_value, structure_items, union_value, union_items, variant_value,
  variant_items, null, NamedFields, no_fields, field, Structs, no_structs, absent_struct, struct,
  UnionItems, no_union_items, absent_union, union_item, VariantItems, no_variant_items,
  absent_variant, variant_item, PyErr, bad_scalar, bad_array, takes_dict_or_value,
  target_not_structure, not_a_structure, not_a_string, not_iterable, no_such_member,
  no_union_member, not_member_and_value, Failure, raised, panicked, blocked, too_deep, AssignLib,
}
use repics.PvaAssign.Union.{Pick, find_variant, infer_desc, pick_union_variant}

-- A list of objects that `try_iter` gives; a text gives its characters.
pub characters : String → Objs
characters String.[] = no_objs
characters (String.◌∷◌ c s) = obj (py_str (String.◌∷◌ c String.[])) (characters s)

pub names_of : Members → Objs
names_of no_members = no_objs
names_of (member n d ms) = obj (py_str n) (names_of ms)

keys_of : Entries → Objs
keys_of no_entries = no_objs
keys_of (entry k v es) = obj k (keys_of es)

value_keys : FieldDesc → Result Failure Objs
unfolding names_of
value_keys (structure id ms) = ok (names_of ms)
value_keys d = err (raised not_a_structure)

-- `obj.try_iter()`. A `Value` iterates its keys, which takes its lock.
pub iterate : ℕ → PyObj → Result Failure Objs
unfolding characters keys_of value_keys
iterate held (py_tuple os) = ok os
iterate held (py_list os) = ok os
iterate held (py_dict es) = ok (keys_of es)
iterate held (py_str s) = ok (characters s)
iterate held (py_array kind size ndim os i f) =
    if eqb ndim 0 then err (raised not_iterable) else ok os
iterate held (py_iterable os i f) = ok os
iterate held (py_value root d es) = if eqb root held then err blocked else value_keys d
iterate held _ = err (raised not_iterable)

-- The items of a dict, or of the dict that a `Value` makes under its lock.
pub dict_of : ℕ → PyObj → Result Failure Entries
unfolding is_struct
dict_of held (py_value root d es) =
    if eqb root held
    then err blocked
    else if is_struct d
    then ok es
    else err (raised not_a_structure)
dict_of held (py_dict es) = ok es
dict_of held _ = err (raised takes_dict_or_value)

-- A `Value` of the root whose lock is held.
own_view : ℕ → PyObj → Bool
own_view held (py_value root d es) = eqb root held
own_view held _ = false

text_of : PyObj → Result Failure String
text_of (py_str s) = ok s
text_of _ = err (raised not_a_string)

-- `idx as i32`.
unfoldable pub selector_of : ℕ → ℤ
unfolding as_signed
selector_of i = as_signed 0x8000_0000 (pos i)

unfoldable pub get_field : String → NamedFields → Option PvField
get_field k no_fields = none
get_field k (field n f fs) = if n == k then some f else get_field k fs

unfoldable pub set_field : String → PvField → NamedFields → NamedFields
set_field k g no_fields = no_fields
set_field k g (field n f fs) = if n == k then field n g fs else field n f (set_field k g fs)

pub find_child : String → List (String × FieldDesc × ℕ) → Option (FieldDesc × ℕ)
find_child k [] = none
find_child k ((n, d, b) ∷ cs) = if n == k then some (d, b) else find_child k cs

pub member_or_refuse : String → Option Pick → Result Failure Pick
member_or_refuse name none = err (raised (no_union_member name))
member_or_refuse name (some x) = ok x

module _ (B : BitSetLib) where
  -- The target and the marks as an assignment leaves them, and how it ends.
  pub record Outcome : Type 0 where
    pub target : PvField
    pub marks : B.Bits
    pub result : Result Failure Unit

  -- The same inside a structure.
  pub record Progress : Type 0 where
    pub fields : NamedFields
    pub marks : B.Bits
    pub result : Result Failure Unit

  -- `*target = value?; marks.set(bit)`.
  store : Result Failure PvField → PvField → B.Bits → ℕ → Outcome
  store (ok f) t marks bit = record { target = f; marks = B.set marks bit; result = ok (record {}) }
  store (err e) t marks bit = record { target = t; marks = marks; result = err e }

  stopped : NamedFields → B.Bits → Failure → Progress
  stopped fs marks e = record { fields = fs; marks = marks; result = err e }

  in_structure : Progress → Outcome
  in_structure p = record { target = structure_value p.fields; marks = p.marks; result = p.result }

  abbrev pub Assign : Type 0
  Assign = FieldDesc → PvField → PyObj → B.Bits → ℕ → Outcome

  set_member : String → NamedFields → Outcome → Progress
  unfolding set_field
  set_member key fs o = record {
    fields = set_field key o.target fs;
    marks = o.marks;
    result = o.result;
  }

  -- The member found, the field of that name, and the assignment to it.
  to_member :
      Assign
      → String
      → Option (FieldDesc × ℕ)
      → Option PvField
      → NamedFields
      → PyObj
      → B.Bits
      → Progress
  unfolding stopped set_member
  to_member rec key none t fs v marks = stopped fs marks (raised (no_such_member key))
  to_member rec key (some (d, b)) none fs v marks = stopped fs marks (raised (no_such_member key))
  to_member rec key (some (d, b)) (some t) fs v marks = set_member key fs (rec d t v marks b)

  with_key :
      Assign
      → List (String × FieldDesc × ℕ)
      → NamedFields
      → Result Failure String
      → PyObj
      → B.Bits
      → Progress
  unfolding stopped to_member find_child get_field
  with_key rec cs fs (err e) v marks = stopped fs marks e
  with_key rec cs fs (ok key) v marks =
      to_member rec key (find_child key cs) (get_field key fs) fs v marks

  proceed : Result Failure Unit → Progress → Progress → Progress
  proceed (err e) p next = p
  proceed (ok u) p next = next

  -- The loop over the items of the dict; the first failure ends it, and what it did before stays.
  assign_entries : Assign → List (String × FieldDesc × ℕ) → Entries → Progress → Progress
  unfolding with_key text_of proceed
  assign_entries rec cs no_entries p = p
  assign_entries rec cs (entry k v es) p =
      proceed p.result p (assign_entries rec cs es (with_key rec cs p.fields (text_of k) v p.marks))

  assign_structure :
      Assign → List (String × FieldDesc × ℕ) → Result Failure Entries → PvField → B.Bits → Outcome
  unfolding in_structure assign_entries
  assign_structure rec cs (err e) t marks = record { target = t; marks = marks; result = err e }
  assign_structure rec cs (ok es) (structure_value fs) marks =
      in_structure
        (assign_entries rec cs es (record { fields = fs; marks = marks; result = ok (record {}) }))
  assign_structure rec cs (ok es) t marks = record {
    target = t;
    marks = marks;
    result = err (raised target_not_structure);
  }

module _ (B : BitSetLib) (L : AssignLib) (held : ℕ) where
  -- `build`: a default value, assigned to.
  pub build : Assign B → FieldDesc → PyObj → Result Failure PvField
  build rec d o = let r = rec d (L.default_value_for d) o B.empty 0 in r.result >>= λ u. ok r.target

  built_union : Assign B → Pick → PyObj → Result Failure PvField
  unfolding build selector_of
  built_union rec (i, n, d) o = build rec d o >>= λ f. ok (union_value (selector_of i) n f)

  pub build_union : Assign B → Members → PyObj → Result Failure PvField
  unfolding built_union find_variant member_or_refuse text_of pick_union_variant
  build_union rec ms py_none = ok (union_value (negsuc 0) "" null)
  build_union rec ms (py_tuple (obj k (obj v no_objs))) = do
    name ← text_of k
    x ← member_or_refuse name (find_variant (λ n d. n == name) 0 ms)
    built_union rec x v
  build_union rec ms (py_tuple os) = err (raised not_member_and_value)
  build_union rec ms o = pick_union_variant held ms o >>= λ x. built_union rec x o

  variant_of : Assign B → PyObj → Option FieldDesc → Result Failure PvField
  unfolding build
  variant_of rec o none = ok (variant_value none null)
  variant_of rec o (some d) = build rec d o >>= λ f. ok (variant_value (some d) f)

  build_variant : Assign B → PyObj → Result Failure PvField
  unfolding variant_of infer_desc
  build_variant rec o = infer_desc held o >>= variant_of rec o

  push_struct : PvField → Result Failure Structs → Result Failure Structs
  push_struct (structure_value fs) rest = rest >>= λ xs. ok (struct fs xs)
  push_struct f rest = err panicked

  pub build_structs : Assign B → FieldDesc → Objs → Result Failure Structs
  unfolding build push_struct
  build_structs rec elem no_objs = ok no_structs
  build_structs rec elem (obj py_none os) =
      build_structs rec elem os >>= λ xs. ok (absent_struct xs)
  build_structs rec elem (obj o os) =
      let rest = build_structs rec elem os in build rec elem o >>= λ f. push_struct f rest

  push_union : PvField → Result Failure UnionItems → Result Failure UnionItems
  push_union (union_value (negsuc zero) n f) rest = rest >>= λ xs. ok (absent_union xs)
  push_union (union_value s n f) rest = rest >>= λ xs. ok (union_item s n f xs)
  push_union f rest = err panicked

  build_unions : Assign B → Members → Objs → Result Failure UnionItems
  unfolding build_union push_union
  build_unions rec ms no_objs = ok no_union_items
  build_unions rec ms (obj o os) =
      let rest = build_unions rec ms os in build_union rec ms o >>= λ f. push_union f rest

  push_variant : PvField → Result Failure VariantItems → Result Failure VariantItems
  push_variant (variant_value d f) rest = rest >>= λ xs. ok (variant_item d f xs)
  push_variant f rest = err panicked

  build_variants : Assign B → Objs → Result Failure VariantItems
  unfolding build_variant push_variant
  build_variants rec no_objs = ok no_variant_items
  build_variants rec (obj py_none os) = build_variants rec os >>= λ xs. ok (absent_variant xs)
  build_variants rec (obj o os) =
      let rest = build_variants rec os in build_variant rec o >>= λ f. push_variant f rest

  -- `str(item)` of each; that of a `Value` takes its lock.
  texts_of : Objs → Result Failure (List ScalarValue)
  unfolding own_view
  texts_of no_objs = ok []
  texts_of (obj o os) =
      let rest = texts_of os in
      if own_view held o then err blocked else (rest >>= λ vs. ok (string_value (L.str_of o) ∷ vs))

  -- The texts of an array of texts; a text alone is one of them.
  text_array : PyObj → Result Failure (List ScalarValue)
  unfolding texts_of iterate
  text_array (py_str s) = ok (string_value (L.str_of (py_str s)) ∷ [])
  text_array o = iterate held o >>= λ os. texts_of os

  array_or_refuse : Option (List ScalarValue) → Result Failure (List ScalarValue)
  array_or_refuse none = err (raised bad_array)
  array_or_refuse (some vs) = ok vs

  py_to_array : PyObj → ScalarType → Result Failure (List ScalarValue)
  unfolding text_array array_or_refuse is_string
  py_to_array o st = if is_string st then text_array o else array_or_refuse (L.array_of o st)

  as_scalar : PyObj → PyScalar
  as_scalar (py_str s) = PvaScalar.py_str s
  as_scalar (py_bool b) = PvaScalar.py_bool b
  as_scalar (py_int i) = PvaScalar.py_int i
  as_scalar (py_float f) = PvaScalar.py_float f
  as_scalar (py_array kind size ndim os i f) =
      PvaScalar.py_other (L.str_of (py_array kind size ndim os i f)) i f
  as_scalar (py_iterable os i f) = PvaScalar.py_other (L.str_of (py_iterable os i f)) i f
  as_scalar (py_other i f) = PvaScalar.py_other (L.str_of (py_other i f)) i f
  as_scalar o = PvaScalar.py_other (L.str_of o) none none

  scalar_or_refuse : Result ScalarError ScalarValue → Result Failure PvField
  scalar_or_refuse (ok v) = ok (scalar_value v)
  scalar_or_refuse (err e) = err (raised (bad_scalar e))

  scalar_for : PyObj → ScalarType → Result Failure PvField
  unfolding own_view is_string as_scalar scalar_or_refuse py_to_scalar
  scalar_for o st =
      if is_string st && own_view held o
      then err blocked
      else scalar_or_refuse (py_to_scalar L.scalars (as_scalar o) st)

  -- What a field that is no structure is set to.
  pub value_for : Assign B → FieldDesc → PyObj → Result Failure PvField
  unfolding py_to_array scalar_for iterate build_structs build_unions build_variants
  value_for rec (scalar st) o = scalar_for o st
  value_for rec (scalar_array st) o = py_to_array o st >>= λ vs. ok (typed_array st vs)
  value_for rec (structure_array id ms) o = do
    os ← iterate held o
    xs ← build_structs rec (structure id ms) os
    ok (structure_items xs)
  value_for rec (union id ms) o = build_union rec ms o
  value_for rec (union_array id ms) o = do
    os ← iterate held o
    xs ← build_unions rec ms os
    ok (union_items xs)
  value_for rec variant o = build_variant rec o
  value_for rec variant_array o = do
    os ← iterate held o
    xs ← build_variants rec os
    ok (variant_items xs)
  value_for rec (structure id ms) o = err panicked

  module _ (C : BitCount) where
    -- One call of `assign`, with `rec` for the calls it makes.
    assign_step : Assign B → Assign B
    unfolding value_for store assign_structure dict_of children
    assign_step rec (structure id ms) t o marks bit =
        assign_structure B rec (children C (structure id ms) bit) (dict_of held o) t marks
    assign_step rec d t o marks bit = store B (value_for rec d o) t marks bit

    -- `assign`, by a thread that holds the lock of the root `held`.
    unfoldable pub assign : ℕ → Assign B
    unfolding assign_step
    assign zero d t o marks bit = record { target = t; marks = marks; result = err too_deep }
    assign (suc f) d t o marks bit = assign_step (assign f) d t o marks bit
