-- ===== src/PvaAssign/Run/Depth/Picked.antt =====
-- src/pva/value.rs, `pick_union_variant`: the member picked is never a variant field.
use Prim.Native.String.{String}
use repics.Prelude.{
  ℕ, suc, ◌+◌, ◌≤◌, ◌≡◌, refl, sym, arith, Bool, true, false, Option, none, some, ok, if-split,
  if◌then◌else◌, bind-ok, inl, inr, string_eq, ◌==◌,
}
use repics.PvaType.{FieldDesc, scalar, variant, structure, Members, no_members, member}
use repics.PvaFields.{BitCount, is_struct, member_bits}
use repics.PvaAssign.{PyObj}
use repics.PvaAssign.Union.{
  Pick, find_variant, infer_desc, accepts, accepts_loosely, choose, pick_union_variant, or_else,
  is_dict,
}
use repics.PvaAssign.Run.{find_child}
use repics.PvaAssign.Run.Fits.Found.{or_else-some, refuse-some, if-some}
use repics.PvaAssign.Run.Depth.{size, member_sizes, inner_weight, fuel_for}

abbrev pub is_variant : FieldDesc → Bool
is_variant variant = true
is_variant _ = false

fuel_for-rest :
    (d : FieldDesc) (o : PyObj) → is_variant d ≡ false → fuel_for d o ≡ size d + inner_weight o
unfolding fuel_for size
fuel_for-rest variant o h = cc
fuel_for-rest (structure id ms) o h = refl
fuel_for-rest d o h = refl

accepts-variant : (w : Option FieldDesc) (d : FieldDesc) → accepts w d ≡ true → is_variant d ≡ false
unfolding accepts is_struct
accepts-variant none d h = cc
accepts-variant (some (scalar st)) variant h = ground arith
accepts-variant (some w) variant h = cc
accepts-variant (some w) d h = refl

accepts_loosely-variant :
    (w : Option FieldDesc) (d : FieldDesc) → accepts_loosely w d ≡ true → is_variant d ≡ false
unfolding accepts_loosely
accepts_loosely-variant none d h = cc
accepts_loosely-variant (some (scalar st)) variant h = ground arith
accepts_loosely-variant (some w) variant h = cc
accepts_loosely-variant (some w) d h = refl

struct-variant : (d : FieldDesc) → is_struct d ≡ true → is_variant d ≡ false
unfolding is_struct
struct-variant variant h = cc
struct-variant d h = refl

pub find_variant-size :
    (p : String → FieldDesc → Bool) (k : ℕ) (ms : Members) (x : Pick)
    → find_variant p k ms ≡ some x
    → (p x.1 x.2 ≡ true) × (size x.2 ≤ member_sizes ms)
unfolding find_variant size
find_variant-size p k no_members x h = cc
find_variant-size p k (member n d ms) x h =
    if-split (p n d) (some (k, n, d)) (find_variant p (suc k) ms)
      (λ y q. let e : (k, n, d) ≡ x = cc in rw (sym e) (y, omega arith))
      (λ y q. let (u, v) = find_variant-size p (suc k) ms x q in (u, omega arith)) h

-- The member that the passes pick is no variant field, and it is no larger than the members together.
choose-size :
    (wanted : Option FieldDesc) (ms : Members) (o : PyObj) (x : Pick)
    → choose wanted ms o ≡ some x
    → (is_variant x.2 ≡ false) × (size x.2 ≤ member_sizes ms)
unfolding choose
choose-size wanted ms o x h =
    let first = λ (n : String) (d : FieldDesc). accepts wanted d in
    let second = λ (n : String) (d : FieldDesc). accepts_loosely wanted d in
    let third = λ (n : String) (d : FieldDesc). is_struct d in
    let last = if is_dict o then find_variant third 0 ms else none in
    elim (or_else-some (find_variant first 0 ms) (or_else (find_variant second 0 ms) last) x h) [
      | inl y ↦ let (u, v) = find_variant-size first 0 ms x y in (accepts-variant wanted x.2 u, v)
      | inr y ↦ elim (or_else-some (find_variant second 0 ms) last x y) [
        | inl z ↦
            let (u, v) = find_variant-size second 0 ms x z in
            (accepts_loosely-variant wanted x.2 u, v)
        | inr z ↦
            let (u, v) = find_variant-size third 0 ms x (if-some (is_dict o) _ x z) in
            (struct-variant x.2 u, v)
      ]
    ]

pub pick-fuel :
    (held : ℕ) (ms : Members) (o : PyObj) (x : Pick)
    → pick_union_variant held ms o ≡ ok x
    → fuel_for x.2 o ≤ member_sizes ms + inner_weight o
unfolding pick_union_variant
pick-fuel held ms o x h =
    let (w, _, q) = bind-ok (infer_desc held o) _ x h in
    let (u, v) = choose-size w ms o x (refuse-some (choose w ms o) x q) in
    omega (arith, fuel_for-rest x.2 o u)

pub find_child-size :
    (C : BitCount) (key : String) (ms : Members) (b i : ℕ) (d : FieldDesc)
    → find_child key (member_bits C ms b) ≡ some (d, i)
    → size d ≤ member_sizes ms
unfolding find_child member_bits size
find_child-size C key no_members b i d h = cc
find_child-size C key (member n e ms) b i d h =
    if-split (n == key) (some (e, b)) (find_child key (member_bits C ms (b + C.total_bits e)))
      (λ y q. let p : e ≡ d = cc in rw (sym p) (omega arith))
      (λ y q. omega (arith, find_child-size C key ms (b + C.total_bits e) i d q)) h
