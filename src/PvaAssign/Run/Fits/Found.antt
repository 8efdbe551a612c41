-- ===== src/PvaAssign/Run/Fits/Found.antt =====
-- src/pva/value.rs, `pick_union_variant` and the search for a member by name: what is found.
use Prim.Native.String.{String}
use repics.Prelude.{
  ℕ, suc, ◌+◌, arith, ◌≡◌, ap, ◌∙◌, Bool, true, false, Option, none, some, ok, bind-ok, inl, inr,
  ◌⊎◌, string_eq, if-split, if◌then◌else◌,
}
use repics.PvaType.{FieldDesc, Members, no_members, member}
use repics.PvaFields.{is_struct}
use repics.PvaAssign.{PyObj}
use repics.PvaAssign.Union.{
  Pick, find_variant, pick_union_variant, infer_desc, ok_or_refuse, or_else, is_dict, choose,
  accepts, accepts_loosely,
}
use repics.PvaAssign.Run.{member_or_refuse}
use repics.PvaAssign.Run.Fits.{variant_at}

pub find_variant-at :
    (p : String → FieldDesc → Bool) (k : ℕ) (ms : Members) (i : ℕ) (n : String) (d : FieldDesc)
    → find_variant p k ms ≡ some (i, n, d)
    → (j : ℕ) × (i ≡ k + j) × (variant_at ms j ≡ some (n, d))
unfolding find_variant variant_at
find_variant-at p k no_members i n d e = cc
find_variant-at p k (member m c ms) i n d e =
    if-split (p m c) (some (k, m, c)) (find_variant p (suc k) ms) (λ h q. (0, ground arith, cc))
      (λ h q. let (j, u, v) = find_variant-at p (suc k) ms i n d q in (suc j, omega (arith, u), v))
      e

pub or_else-some :
    (a b : Option Pick) (x : Pick) → or_else a b ≡ some x → (a ≡ some x) ⊎ (b ≡ some x)
unfolding or_else
or_else-some none b x h = inr h
or_else-some (some y) b x h = inl h

-- Whatever test a member was found by, its index says which it is.
pub found-at :
    (p : String → FieldDesc → Bool) (ms : Members) (x : Pick)
    → find_variant p 0 ms ≡ some x
    → variant_at ms x.0 ≡ some (x.1, x.2)
found-at p ms (i, n, d) h =
    let (j, e, at) = find_variant-at p 0 ms i n d h in ap (variant_at ms) (omega (arith, e)) ∙ at

pub if-some :
    (b : Bool) (o : Option Pick) (x : Pick) → (if b then o else none) ≡ some x → o ≡ some x
if-some true o x h = h
if-some false o x h = cc

pub refuse-some : (o : Option Pick) (x : Pick) → ok_or_refuse o ≡ ok x → o ≡ some x
unfolding ok_or_refuse
refuse-some none x h = cc
refuse-some (some y) x h = cc

pub choose-at :
    (wanted : Option FieldDesc) (ms : Members) (o : PyObj) (x : Pick)
    → choose wanted ms o ≡ some x
    → variant_at ms x.0 ≡ some (x.1, x.2)
unfolding choose
choose-at wanted ms o x h =
    let first = λ (n : String) (d : FieldDesc). accepts wanted d in
    let second = λ (n : String) (d : FieldDesc). accepts_loosely wanted d in
    let third = λ (n : String) (d : FieldDesc). is_struct d in
    let last = if is_dict o then find_variant third 0 ms else none in
    elim (or_else-some (find_variant first 0 ms) (or_else (find_variant second 0 ms) last) x h) [
      | inl y ↦ found-at first ms x y
      | inr y ↦ elim (or_else-some (find_variant second 0 ms) last x y) [
        | inl z ↦ found-at second ms x z
        | inr z ↦ found-at third ms x (if-some (is_dict o) (find_variant third 0 ms) x z)
      ]
    ]

pub pick-at :
    (held : ℕ) (ms : Members) (o : PyObj) (x : Pick)
    → pick_union_variant held ms o ≡ ok x
    → variant_at ms x.0 ≡ some (x.1, x.2)
unfolding pick_union_variant
pick-at held ms o x h =
    let (w, _, q) = bind-ok (infer_desc held o) _ x h in
    choose-at w ms o x (refuse-some (choose w ms o) x q)

pub text-ok :
    (name : String) (o : Option Pick) (x : Pick) → member_or_refuse name o ≡ ok x → o ≡ some x
unfolding member_or_refuse
text-ok name none x h = cc
text-ok name (some y) x h = cc
