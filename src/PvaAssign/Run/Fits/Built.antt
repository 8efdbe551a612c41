-- ===== src/PvaAssign/Run/Fits/Built.antt =====
-- src/pva/value.rs, what `assign` sets a field to: a value of the field's type.
use Prim.Native.String.{String}
use repics.Prelude.{
  ℕ, zero, suc, ◌≡◌, refl, sym, ap, ◌∙◌, true, List, ◌∷◌, Option, none, some, Result, ok, err,
  ◌>>=◌, bind-ok, ok-injective, string_eq, ◌==◌, if-split, ◌&&◌,
}
use repics.Prelude.Int.{ℤ, pos, negsuc}
use repics.Epics.BitSet.{BitSetLib}
use repics.PvaType.{
  ScalarType, string, FieldDesc, scalar, scalar_array, variant, variant_array, structure,
  structure_array, union, union_array, Members,
}
use repics.PvaScalar.{string_value, ScalarValue, ScalarError, scalar_fits, py_to_scalar, is_string}
use repics.PvaScalar.Fitting.{py_to_scalar-fits}
use repics.PvaAssign.{
  PyObj, py_none, py_str, py_tuple, Objs, no_objs, obj, PvField, union_value, Structs, struct,
  UnionItems, absent_union, union_item, VariantItems, variant_item, all_fit, Failure, blocked,
  AssignLib,
}
use repics.PvaAssign.Union.{Pick, find_variant, pick_union_variant, infer_desc}
use repics.PvaAssign.Run.{
  Assign, build, built_union, build_union, member_or_refuse, text_of, variant_of, build_variant,
  push_struct, build_structs, push_union, build_unions, push_variant, build_variants, value_for,
  scalar_or_refuse, py_to_array, own_view, scalar_for, text_array, array_or_refuse, as_scalar,
  iterate, texts_of,
}
use repics.PvaAssign.Run.Fits.{
  Fits, scalar_fit, array_fit, structure_fit, structs_fit, union_fit, unions_fit, variant_fit,
  variants_fit, FitsStructs, no_struct, and_absent, and_struct, FitsUnion, unselected, selected,
  FitsUnions, no_union, and_no_union, and_union, no_value, typed, FitsVariants, no_variant,
  and_no_variant, and_variant, variant_at,
}
use repics.PvaAssign.Run.Fits.Found.{found-at, pick-at, text-ok}

Fits-ok :
    {d : FieldDesc} {g f : PvField}
    → Fits d g
    → Path (Result Failure PvField) (ok g) (ok f)
    → Fits d f
Fits-ok h e = rw (sym (ok-injective e)) h

-- The default value of a type is a value of that type.
abbrev pub DefaultsFit : AssignLib → Type 0
DefaultsFit L = (d : FieldDesc) → Fits d (L.default_value_for d)

module _ (B : BitSetLib) (L : AssignLib) (held : ℕ) where
  -- An assignment keeps every field to its descriptor, whether it returns or not.
  abbrev pub Keeps : Assign B → Type 0
  Keeps rec =
      (d : FieldDesc) (t : PvField) (o : PyObj) (marks : B.Bits) (bit : ℕ)
      → Fits d t
      → Fits d (rec d t o marks bit).target

  module _ (rec : Assign B) (defaults : DefaultsFit L) (keeps : Keeps rec) where
    build-Fits :
        (d : FieldDesc) (o : PyObj) (f : PvField) → build B L held rec d o ≡ ok f → Fits d f
    unfolding build
    build-Fits d o f e =
        let (u, _, q) = bind-ok (rec d (L.default_value_for d) o B.empty 0).result _ f e in
        Fits-ok (keeps d (L.default_value_for d) o B.empty 0 (defaults d)) q

    built_union-Fits :
        (id : String) (ms : Members) (x : Pick) (o : PyObj) (f : PvField)
        → variant_at ms x.0 ≡ some (x.1, x.2)
        → built_union B L held rec x o ≡ ok f
        → Fits (union id ms) f
    unfolding built_union
    built_union-Fits id ms (i, n, d) o f at e =
        let (g, b, q) = bind-ok (build B L held rec d o) _ f e in
        Fits-ok (union_fit (selected i d at (build-Fits d o g b))) q

    picked-Fits :
        (id : String) (ms : Members) (o : PyObj) (f : PvField)
        → (pick_union_variant held ms o >>= λ x. built_union B L held rec x o) ≡ ok f
        → Fits (union id ms) f
    picked-Fits id ms o f e =
        let (x, p, q) = bind-ok (pick_union_variant held ms o) _ f e in
        built_union-Fits id ms x o f (pick-at held ms o x p) q

    build_union-Fits :
        (id : String) (ms : Members) (o : PyObj) (f : PvField)
        → build_union B L held rec ms o ≡ ok f
        → Fits (union id ms) f
    unfolding build_union
    build_union-Fits id ms py_none f e = Fits-ok (union_fit unselected) e
    build_union-Fits id ms (py_tuple (obj k (obj v no_objs))) f e =
        let (name, _, q) = bind-ok (text_of k) _ f e in
        let (x, p, r) =
          bind-ok (member_or_refuse name (find_variant (λ n d. n == name) 0 ms)) _ f q in
        built_union-Fits id ms x v f (found-at _ ms x (text-ok name _ x p)) r
    build_union-Fits id ms (py_tuple os) f e = cc
    build_union-Fits id ms o f e = picked-Fits id ms o f e

    variant_of-Fits :
        (o : PyObj) (d : Option FieldDesc) (f : PvField)
        → variant_of B L held rec o d ≡ ok f
        → Fits variant f
    unfolding variant_of
    variant_of-Fits o none f e = Fits-ok (variant_fit no_value) e
    variant_of-Fits o (some d) f e =
        let (g, b, q) = bind-ok (build B L held rec d o) _ f e in
        Fits-ok (variant_fit (typed (build-Fits d o g b))) q

    build_variant-Fits :
        (o : PyObj) (f : PvField) → build_variant B L held rec o ≡ ok f → Fits variant f
    unfolding build_variant
    build_variant-Fits o f e =
        let (d, _, q) = bind-ok (infer_desc held o) _ f e in variant_of-Fits o d f q

    push_struct-Fits :
        (id : String) (ms : Members) (f : PvField) (rest : Result Failure Structs) (xs : Structs)
        → Fits (structure id ms) f
        → ((ys : Structs) → rest ≡ ok ys → FitsStructs ms ys)
        → push_struct B L held f rest ≡ ok xs
        → FitsStructs ms xs
    unfolding push_struct
    push_struct-Fits id ms _ rest xs (structure_fit {fs} y) later e =
        let (ys, r, q) = bind-ok rest (λ ys. ok (struct fs ys)) xs e in
        rw (sym (ok-injective q)) (and_struct y (later ys r))

    build_structs-Fits :
        (id : String) (ms : Members) (os : Objs) (xs : Structs)
        → build_structs B L held rec (structure id ms) os ≡ ok xs
        → FitsStructs ms xs
    unfolding build_structs
    build_structs-Fits id ms no_objs xs e = rw (sym (ok-injective e)) no_struct
    build_structs-Fits id ms (obj py_none os) xs e =
        let (ys, r, q) = bind-ok (build_structs B L held rec (structure id ms) os) _ xs e in
        rw (sym (ok-injective q)) (and_absent (build_structs-Fits id ms os ys r))
    build_structs-Fits id ms (obj o os) xs e =
        let (f, b, q) = bind-ok (build B L held rec (structure id ms) o) _ xs e in
        push_struct-Fits id ms f (build_structs B L held rec (structure id ms) os) xs
          (build-Fits (structure id ms) o f b) (build_structs-Fits id ms os) q

    selected-Fits :
        (ms : Members) (s : ℤ) (n : String) (f : PvField) (rest : Result Failure UnionItems)
        (xs : UnionItems)
        → FitsUnion ms s n f
        → ((ys : UnionItems) → rest ≡ ok ys → FitsUnions ms ys)
        → (rest >>= λ ys. ok (union_item s n f ys)) ≡ ok xs
        → FitsUnions ms xs
    selected-Fits ms s n f rest xs y later e =
        let (ys, r, q) = bind-ok rest (λ ys. ok (union_item s n f ys)) xs e in
        rw (sym (ok-injective q)) (and_union y (later ys r))

    pushed-Fits :
        (ms : Members) (s : ℤ) (n : String) (f : PvField) (rest : Result Failure UnionItems)
        (xs : UnionItems)
        → FitsUnion ms s n f
        → ((ys : UnionItems) → rest ≡ ok ys → FitsUnions ms ys)
        → push_union B L held (union_value s n f) rest ≡ ok xs
        → FitsUnions ms xs
    unfolding push_union
    pushed-Fits ms (negsuc zero) n f rest xs y later e =
        let (ys, r, q) = bind-ok rest (λ ys. ok (absent_union ys)) xs e in
        rw (sym (ok-injective q)) (and_no_union (later ys r))
    pushed-Fits ms (negsuc (suc k)) n f rest xs y later e =
        selected-Fits ms (negsuc (suc k)) n f rest xs y later e
    pushed-Fits ms (pos k) n f rest xs y later e = selected-Fits ms (pos k) n f rest xs y later e

    push_union-Fits :
        (id : String) (ms : Members) (f : PvField) (rest : Result Failure UnionItems)
        (xs : UnionItems)
        → Fits (union id ms) f
        → ((ys : UnionItems) → rest ≡ ok ys → FitsUnions ms ys)
        → push_union B L held f rest ≡ ok xs
        → FitsUnions ms xs
    push_union-Fits id ms _ rest xs (union_fit {s} {n} {f} y) later e =
        pushed-Fits ms s n f rest xs y later e

    build_unions-Fits :
        (id : String) (ms : Members) (os : Objs) (xs : UnionItems)
        → build_unions B L held rec ms os ≡ ok xs
        → FitsUnions ms xs
    unfolding build_unions
    build_unions-Fits id ms no_objs xs e = rw (sym (ok-injective e)) no_union
    build_unions-Fits id ms (obj o os) xs e =
        let (f, b, q) = bind-ok (build_union B L held rec ms o) _ xs e in
        push_union-Fits id ms f (build_unions B L held rec ms os) xs (build_union-Fits id ms o f b)
          (build_unions-Fits id ms os) q

    push_variant-Fits :
        (f : PvField) (rest : Result Failure VariantItems) (xs : VariantItems)
        → Fits variant f
        → ((ys : VariantItems) → rest ≡ ok ys → FitsVariants ys)
        → push_variant B L held f rest ≡ ok xs
        → FitsVariants xs
    unfolding push_variant
    push_variant-Fits _ rest xs (variant_fit {d} {f} y) later e =
        let (ys, r, q) = bind-ok rest (λ ys. ok (variant_item d f ys)) xs e in
        rw (sym (ok-injective q)) (and_variant y (later ys r))

    build_variants-Fits :
        (os : Objs) (xs : VariantItems) → build_variants B L held rec os ≡ ok xs → FitsVariants xs
    unfolding build_variants
    build_variants-Fits no_objs xs e = rw (sym (ok-injective e)) no_variant
    build_variants-Fits (obj py_none os) xs e =
        let (ys, r, q) = bind-ok (build_variants B L held rec os) _ xs e in
        rw (sym (ok-injective q)) (and_no_variant (build_variants-Fits os ys r))
    build_variants-Fits (obj o os) xs e =
        let rest = build_variants B L held rec os in
        let (f, b, q) =
          bind-ok (build_variant B L held rec o) (λ f. push_variant B L held f rest) xs e in
        push_variant-Fits f rest xs (build_variant-Fits o f b) (build_variants-Fits os) q

    texts-fit :
        (os : Objs) (vs : List ScalarValue)
        → texts_of B L held os ≡ ok vs
        → all_fit string vs ≡ true
    unfolding texts_of scalar_fits
    texts-fit no_objs vs e = sym (ap (all_fit string) (ok-injective e))
    texts-fit (obj o os) vs e =
        let text = string_value (L.str_of o) in
        if-split (own_view held o) (err blocked) (texts_of B L held os >>= λ ws. ok (text ∷ ws))
          (λ _ q. cc)
          (λ _ q.
            let (ws, r, u) = bind-ok (texts_of B L held os) (λ ws. ok (text ∷ ws)) vs q in
            sym (ap (all_fit string) (ok-injective u)) ∙ texts-fit os ws r)
          e

    text_array-fits :
        (o : PyObj) (vs : List ScalarValue)
        → text_array B L held o ≡ ok vs
        → all_fit string vs ≡ true
    unfolding text_array scalar_fits
    text_array-fits (py_str s) vs e = sym (ap (all_fit string) (ok-injective e))
    text_array-fits o vs e =
        let (os, _, q) = bind-ok (iterate held o) (λ os. texts_of B L held os) vs e in
        texts-fit os vs q

    numbers-fit :
        (o : PyObj) (st : ScalarType) (r : Option (List ScalarValue)) (vs : List ScalarValue)
        → L.array_of o st ≡ r
        → array_or_refuse B L held r ≡ ok vs
        → all_fit st vs ≡ true
    unfolding array_or_refuse
    numbers-fit o st none vs h e = cc
    numbers-fit o st (some ws) vs h e = L.array_of-fits o st vs (h ∙ ap some (ok-injective e))

    py_to_array-fits :
        (o : PyObj) (st : ScalarType) (vs : List ScalarValue)
        → py_to_array B L held o st ≡ ok vs
        → all_fit st vs ≡ true
    unfolding py_to_array is_string
    py_to_array-fits o string vs e = text_array-fits o vs e
    py_to_array-fits o st vs e = numbers-fit o st (L.array_of o st) vs refl e

    scalar-Fits :
        (st : ScalarType) (r : Result ScalarError ScalarValue) (f : PvField)
        → ((v : ScalarValue) → r ≡ ok v → scalar_fits st v ≡ true)
        → scalar_or_refuse B L held r ≡ ok f
        → Fits (scalar st) f
    unfolding scalar_or_refuse
    scalar-Fits st (err x) f h e = cc
    scalar-Fits st (ok v) f h e = Fits-ok (scalar_fit (h v refl)) e

    pub value_for-Fits :
        (d : FieldDesc) (o : PyObj) (f : PvField) → value_for B L held rec d o ≡ ok f → Fits d f
    unfolding value_for scalar_for
    value_for-Fits (scalar st) o f e =
        let r = py_to_scalar L.scalars (as_scalar B L held o) st in
        if-split (is_string st && own_view held o) (err blocked) (scalar_or_refuse B L held r)
          (λ _ q. cc)
          (λ _ q. scalar-Fits st r f (py_to_scalar-fits L.scalars (as_scalar B L held o) st) q) e
    value_for-Fits (scalar_array st) o f e =
        let (vs, r, q) = bind-ok (py_to_array B L held o st) _ f e in
        Fits-ok (array_fit (py_to_array-fits o st vs r)) q
    value_for-Fits (structure_array id ms) o f e =
        let (os, _, p) = bind-ok (iterate held o) _ f e in
        let (xs, r, q) = bind-ok (build_structs B L held rec (structure id ms) os) _ f p in
        Fits-ok (structs_fit (build_structs-Fits id ms os xs r)) q
    value_for-Fits (union id ms) o f e = build_union-Fits id ms o f e
    value_for-Fits (union_array id ms) o f e =
        let (os, _, p) = bind-ok (iterate held o) _ f e in
        let (xs, r, q) = bind-ok (build_unions B L held rec ms os) _ f p in
        Fits-ok (unions_fit (build_unions-Fits id ms os xs r)) q
    value_for-Fits variant o f e = build_variant-Fits o f e
    value_for-Fits variant_array o f e =
        let (os, _, p) = bind-ok (iterate held o) _ f e in
        let (xs, r, q) = bind-ok (build_variants B L held rec os) _ f p in
        Fits-ok (variants_fit (build_variants-Fits os xs r)) q
    value_for-Fits (structure id ms) o f e = cc
