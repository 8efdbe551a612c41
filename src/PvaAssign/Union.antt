-- ===== src/PvaAssign/Union.antt =====
-- src/pva/value.rs, `infer_desc` and `pick_union_variant`: the type an object implies, and the
-- member of a union that takes it.
use Prim.Native.String.{String}
use repics.Prelude.{
  ℕ, suc, Bool, true, false, not, eqb, if◌then◌else◌, Option, none, some, Result, ok, err, ◌>>=◌,
  string_eq, ◌==◌,
}
use repics.Prelude.Int.{ℤ}
use repics.PvaType.{
  ScalarType, boolean, byte, ubyte, short, ushort, int, uint, long, ulong, float, double, string,
  FieldDesc, scalar, scalar_array, structure, Members, no_members, member,
}
use repics.PvaFields.{is_struct}
use repics.PvaScalar.{F64, in_i128}
use repics.PvaAssign.{
  PyObj, py_none, py_bool, py_int, py_float, py_str, py_tuple, py_list, py_dict, py_array, py_value,
  py_iterable, py_other, Objs, no_objs, obj, cannot_infer, no_member_accepts, Failure, raised,
  blocked,
}

-- The scalar type of a numpy dtype.
pub dtype_scalar : String → ℕ → ScalarType
dtype_scalar kind size =
    if kind == "b"
    then boolean
    else if kind == "i"
    then (if eqb size 1
        then byte
        else if eqb size 2
        then short
        else if eqb size 4
        then int
        else long)
    else if kind == "u"
    then (if eqb size 1
        then ubyte
        else if eqb size 2
        then ushort
        else if eqb size 4
        then uint
        else ulong)
    else if kind == "f"
    then (if eqb size 4 then float else double)
    else string

all_strings : Objs → Bool
all_strings no_objs = true
all_strings (obj (py_str s) os) = all_strings os
all_strings (obj _ os) = false

-- A list that is not empty and holds texts only is an array of texts.
list_scalar : Objs → ScalarType
unfolding all_strings
list_scalar no_objs = double
list_scalar os = if all_strings os then string else double

pub has_i128 : Option ℤ → Bool
unfolding in_i128
has_i128 none = false
has_i128 (some i) = in_i128 i

-- `__float__`, at the very last.
unfoldable pub infer_float : Option F64 → Result Failure (Option FieldDesc)
infer_float none = err (raised cannot_infer)
infer_float (some x) = ok (some (scalar double))

-- The last resort: `__index__`, then `__float__`.
unfoldable pub infer_number : Option ℤ → Option F64 → Result Failure (Option FieldDesc)
unfolding has_i128 infer_float
infer_number i f = if has_i128 i then ok (some (scalar long)) else infer_float f

-- `infer_desc`, called by a thread that holds the lock of the root `held`.
unfoldable pub infer_desc : ℕ → PyObj → Result Failure (Option FieldDesc)
unfolding dtype_scalar list_scalar infer_number
infer_desc held py_none = ok none
infer_desc held (py_value root d es) = if eqb root held then err blocked else ok (some d)
infer_desc held (py_bool b) = ok (some (scalar boolean))
infer_desc held (py_int i) = ok (some (scalar long))
infer_desc held (py_float f) = ok (some (scalar double))
infer_desc held (py_str s) = ok (some (scalar string))
infer_desc held (py_array kind size ndim os i f) =
    let st = dtype_scalar kind size in ok (some (if eqb ndim 0 then scalar st else scalar_array st))
infer_desc held (py_list os) = ok (some (scalar_array (list_scalar os)))
infer_desc held (py_tuple os) = err (raised cannot_infer)
infer_desc held (py_dict es) = err (raised cannot_infer)
infer_desc held (py_iterable os i f) = infer_number i f
infer_desc held (py_other i f) = infer_number i f

same_scalar : ScalarType → ScalarType → Bool
same_scalar boolean boolean = true
same_scalar byte byte = true
same_scalar ubyte ubyte = true
same_scalar short short = true
same_scalar ushort ushort = true
same_scalar int int = true
same_scalar uint uint = true
same_scalar long long = true
same_scalar ulong ulong = true
same_scalar float float = true
same_scalar double double = true
same_scalar string string = true
same_scalar _ _ = false

is_text_or_boolean : ScalarType → Bool
is_text_or_boolean string = true
is_text_or_boolean boolean = true
is_text_or_boolean _ = false

is_floating : ScalarType → Bool
is_floating double = true
is_floating float = true
is_floating _ = false

-- The test of the first pass.
unfoldable pub accepts : Option FieldDesc → FieldDesc → Bool
unfolding same_scalar is_text_or_boolean is_floating is_struct
accepts (some (scalar string)) (scalar string) = true
accepts (some (scalar boolean)) (scalar boolean) = true
accepts (some (scalar long)) (scalar st) = not (is_text_or_boolean st)
accepts (some (scalar double)) (scalar st) = is_floating st
accepts (some (scalar_array w)) (scalar_array st) = same_scalar w st
accepts (some (structure id ms)) d = is_struct d
accepts _ _ = false

-- The test of the second pass.
unfoldable pub accepts_loosely : Option FieldDesc → FieldDesc → Bool
unfolding is_text_or_boolean
accepts_loosely (some (scalar_array w)) (scalar_array st) = true
accepts_loosely (some (scalar double)) (scalar st) = not (is_text_or_boolean st)
accepts_loosely _ _ = false

abbrev pub Pick : Type 0
Pick = ℕ × String × FieldDesc

-- The first member that passes, with its index, counted from `i`.
unfoldable pub find_variant : (String → FieldDesc → Bool) → ℕ → Members → Option Pick
find_variant p i no_members = none
find_variant p i (member n d ms) = if p n d then some (i, n, d) else find_variant p (suc i) ms

unfoldable pub or_else : Option Pick → Option Pick → Option Pick
or_else none q = q
or_else (some x) q = some x

unfoldable pub is_dict : PyObj → Bool
is_dict (py_dict es) = true
is_dict _ = false

unfoldable pub ok_or_refuse : Option Pick → Result Failure Pick
ok_or_refuse none = err (raised no_member_accepts)
ok_or_refuse (some x) = ok x

-- The three passes over the members.
unfoldable pub choose : Option FieldDesc → Members → PyObj → Option Pick
unfolding accepts accepts_loosely find_variant or_else is_dict is_struct
choose wanted ms o = or_else (find_variant (λ n d. accepts wanted d) 0 ms) (
    or_else (find_variant (λ n d. accepts_loosely wanted d) 0 ms)
      (if is_dict o then find_variant (λ n d. is_struct d) 0 ms else none))

unfoldable pub pick_union_variant : ℕ → Members → PyObj → Result Failure Pick
unfolding infer_desc choose ok_or_refuse
pick_union_variant held ms o = infer_desc held o >>= λ wanted. ok_or_refuse (choose wanted ms o)
