-- ===== src/PvaAssign/Run/Depth/Weights.antt =====
-- src/pva/value.rs, `assign`: what the parts of an object and of a type weigh.
use Prim.Native.String.{String}
use repics.Prelude.{
  ℕ, suc, ◌+◌, ◌≤◌, ◌≡◌, refl, sym, ap, ◌∙◌, arith, Bool, true, false, ◌&&◌, eqb, Option, none,
  some, Result, ok, err, if-split, and-split, and-join, if◌then◌else◌, ok-injective, string_eq,
}
use repics.PvaType.{
  ScalarType, long, FieldDesc, scalar, scalar_array, variant, structure, Members, no_members,
  member,
}
use repics.Prelude.Int.{ℤ}
use repics.PvaFields.{is_struct}
use repics.PvaAssign.{
  PyObj, py_none, py_bool, py_int, py_float, py_str, py_tuple, py_list, py_dict, py_array, py_value,
  py_iterable, py_other, Objs, Entries, no_entries, entry, Failure, raised, not_iterable,
  not_a_structure, blocked,
}
use repics.PvaAssign.Union.{infer_desc, infer_number, infer_float, has_i128, dtype_scalar}
use repics.PvaScalar.{F64}
use repics.PvaAssign.Run.{characters, names_of, keys_of, value_keys, iterate, dict_of}
use repics.PvaAssign.Run.Depth.{
  size, weight, weights, entry_weights, structures_only, all_structures, entries_structures,
  inner_weight, fuel_for,
}

pub inner_weight-le : (o : PyObj) → inner_weight o ≤ weight o
unfolding inner_weight weight
inner_weight-le (py_value root d es) = omega arith
inner_weight-le o = omega arith

pub fuel_for-le : (d : FieldDesc) (o : PyObj) → fuel_for d o ≤ size d + weight o
unfolding fuel_for size
fuel_for-le variant o = omega arith
fuel_for-le (structure id ms) o = omega (arith, inner_weight-le o)
fuel_for-le d o = omega (arith, inner_weight-le o)

characters-light :
    (s : String) → (weights (characters s) ≤ 1) × (all_structures (characters s) ≡ true)
unfolding characters weight structures_only
characters-light String.[] = (omega arith, refl)
characters-light (String.◌∷◌ c s) = let (x, y) = characters-light s in (omega arith, y)

names_of-light :
    (ms : Members) → (weights (names_of ms) ≤ 1) × (all_structures (names_of ms) ≡ true)
unfolding names_of weight structures_only
names_of-light no_members = (omega arith, refl)
names_of-light (member n d ms) = let (x, y) = names_of-light ms in (omega arith, y)

keys_of-light :
    (es : Entries)
    → entries_structures es ≡ true
    → (weights (keys_of es) ≤ entry_weights es) × (all_structures (keys_of es) ≡ true)
unfolding keys_of weight structures_only
keys_of-light no_entries h = (omega arith, refl)
keys_of-light (entry k v es) h =
    let (hkv, he) = and-split (structures_only k && structures_only v) (entries_structures es) h in
    let (hk, hv) = and-split (structures_only k) (structures_only v) hkv in
    let (x, y) = keys_of-light es he in
    (omega arith, and-join (structures_only k) (all_structures (keys_of es)) hk y)

abbrev pub Light : Objs → PyObj → Type 0
Light os o = (weights os ≤ inner_weight o) × (all_structures os ≡ true)

Light-of :
    (o : PyObj) {os ps : Objs}
    → Light os o
    → Path (Result Failure Objs) (ok os) (ok ps)
    → Light ps o
Light-of o h e = rw (sym (ok-injective e)) h

value_keys-light :
    (d : FieldDesc) (os : Objs)
    → value_keys d ≡ ok os
    → (weights os ≤ 1) × (all_structures os ≡ true)
unfolding value_keys
value_keys-light (structure id ms) os e = rw (sym (ok-injective e)) (names_of-light ms)
value_keys-light d os e = cc

pub iterate-Light :
    (held : ℕ) (o : PyObj) (os : Objs)
    → structures_only o ≡ true
    → iterate held o ≡ ok os
    → Light os o
unfolding iterate inner_weight weight structures_only
iterate-Light held (py_tuple ps) os h e = Light-of (py_tuple ps) (omega arith, h) e
iterate-Light held (py_list ps) os h e = Light-of (py_list ps) (omega arith, h) e
iterate-Light held (py_dict es) os h e =
    let (x, y) = keys_of-light es h in Light-of (py_dict es) (omega arith, y) e
iterate-Light held (py_str s) os h e = Light-of (py_str s) (characters-light s) e
iterate-Light held (py_array kind n ndim ps i f) os h e =
    if-split (eqb ndim 0) (err (raised not_iterable)) (ok ps) (λ _ q. cc)
      (λ _ q. Light-of (py_array kind n ndim ps i f) (omega arith, h) q) e
iterate-Light held (py_iterable ps i f) os h e = Light-of (py_iterable ps i f) (omega arith, h) e
iterate-Light held (py_value root d es) os h e =
    if-split (eqb root held) (err blocked) (value_keys d) (λ _ q. cc)
      (λ _ q. let (x, y) = value_keys-light d os q in (omega arith, y)) e
iterate-Light held o os h e = cc

pub dict_of-light :
    (held : ℕ) (o : PyObj) (es : Entries)
    → structures_only o ≡ true
    → dict_of held o ≡ ok es
    → (suc (entry_weights es) ≤ inner_weight o) × (entries_structures es ≡ true)
unfolding dict_of inner_weight weight structures_only
dict_of-light held (py_dict ds) es h e = rw (sym (ok-injective e)) (omega arith, h)
dict_of-light held (py_value root d ds) es h e =
    let (hd, hs) = and-split (is_struct d) (entries_structures ds) h in
    let refused : Result Failure Entries = err (raised not_a_structure) in
    if-split (eqb root held) (err blocked) (if is_struct d then ok ds else refused) (λ _ q. cc)
      (λ _ q.
        if-split (is_struct d) (ok ds) refused
          (λ _ r. let p : ds ≡ es = ok-injective r in rw (sym p) (omega arith, hs)) (λ _ r. cc) q)
      e
dict_of-light held o es h e = cc

struct-fuel :
    (d : FieldDesc) (o : PyObj) → is_struct d ≡ true → fuel_for d o ≡ size d + inner_weight o
unfolding is_struct fuel_for size
struct-fuel (structure id ms) o h = refl
struct-fuel d o h = cc

-- A type that a conversion to a scalar or an array goes to.
abbrev pub is_leaf : FieldDesc → Bool
is_leaf (scalar st) = true
is_leaf (scalar_array st) = true
is_leaf _ = false

leaf-fuel : (d : FieldDesc) (o : PyObj) → is_leaf d ≡ true → fuel_for d o ≤ suc (weight o)
unfolding fuel_for size
leaf-fuel (scalar st) o h = omega (arith, inner_weight-le o)
leaf-fuel (scalar_array st) o h = omega (arith, inner_weight-le o)
leaf-fuel d o h = cc

some-injective : {A : Type 0} {a b : A} → Path (Option A) (some a) (some b) → a ≡ b
some-injective h = cc

inferred :
    (o : PyObj) {d c : FieldDesc}
    → is_leaf c ≡ true
    → Path (Result Failure (Option FieldDesc)) (ok (some c)) (ok (some d))
    → fuel_for d o ≤ suc (weight o)
inferred o {d} {c} h e = leaf-fuel d o (sym (ap is_leaf (some-injective (ok-injective e))) ∙ h)

infer_float-fuel :
    (o : PyObj) (f : Option F64) (d : FieldDesc)
    → infer_float f ≡ ok (some d)
    → fuel_for d o ≤ suc (weight o)
unfolding infer_float
infer_float-fuel o none d e = cc
infer_float-fuel o (some x) d e = inferred o refl e

value-fuel :
    (root : ℕ) (dv : FieldDesc) (es : Entries)
    → is_struct dv ≡ true
    → fuel_for dv (py_value root dv es) ≤ suc (weight (py_value root dv es))
unfolding inner_weight weight
value-fuel root dv es h = omega (arith, struct-fuel dv (py_value root dv es) h)

infer_number-fuel :
    (o : PyObj) (i : Option ℤ) (f : Option F64) (d : FieldDesc)
    → infer_number i f ≡ ok (some d)
    → fuel_for d o ≤ suc (weight o)
unfolding infer_number
infer_number-fuel o i f d e =
    if-split (has_i128 i) (ok (some (scalar long))) (infer_float f) (λ _ q. inferred o refl q)
      (λ _ q. infer_float-fuel o f d q) e

leaf-if : (b : Bool) (st : ScalarType) → is_leaf (if b then scalar st else scalar_array st) ≡ true
leaf-if true st = refl
leaf-if false st = refl

-- The type that an object implies takes no more fuel than the object weighs, and one.
pub infer_desc-fuel :
    (held : ℕ) (o : PyObj) (d : FieldDesc)
    → structures_only o ≡ true
    → infer_desc held o ≡ ok (some d)
    → fuel_for d o ≤ suc (weight o)
unfolding infer_desc structures_only
infer_desc-fuel held py_none d h e = cc
infer_desc-fuel held (py_bool x) d h e = inferred (py_bool x) refl e
infer_desc-fuel held (py_int x) d h e = inferred (py_int x) refl e
infer_desc-fuel held (py_float x) d h e = inferred (py_float x) refl e
infer_desc-fuel held (py_str x) d h e = inferred (py_str x) refl e
infer_desc-fuel held (py_list os) d h e = inferred (py_list os) refl e
infer_desc-fuel held (py_array kind n ndim os i f) d h e =
    inferred (py_array kind n ndim os i f) (leaf-if (eqb ndim 0) (dtype_scalar kind n)) e
infer_desc-fuel held (py_value root dv es) d h e =
    let (hd, hs) = and-split (is_struct dv) (entries_structures es) h in
    if-split (eqb root held) (err blocked) (ok (some dv)) (λ _ q. cc)
      (λ _ q.
        let p : dv ≡ d = some-injective (ok-injective q) in rw (sym p) (value-fuel root dv es hd))
      e
infer_desc-fuel held (py_iterable os i f) d h e = infer_number-fuel (py_iterable os i f) i f d e
infer_desc-fuel held (py_other i f) d h e = infer_number-fuel (py_other i f) i f d e
infer_desc-fuel held (py_tuple os) d h e = cc
infer_desc-fuel held (py_dict es) d h e = cc
