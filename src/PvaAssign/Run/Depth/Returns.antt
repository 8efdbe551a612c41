-- ===== src/PvaAssign/Run/Depth/Returns.antt =====
-- src/pva/value.rs, `assign`: it returns, on enough fuel.
use Prim.Native.String.{String}
use repics.Prelude.{
  ℕ, zero, suc, ◌+◌, ◌≤◌, arith, ◌≡◌, refl, ap, ◌∙◌, Bool, true, false, eqb, List, Option, none,
  some, Result, ok, err, ◌>>=◌, and-split, ◌&&◌, string_eq, ◌==◌, if◌then◌else◌,
}
use repics.Prelude.Int.{ℤ, pos, negsuc}
use repics.Epics.BitSet.{BitSetLib}
use repics.PvaType.{
  ScalarType, string, long, double, FieldDesc, scalar, scalar_array, variant, variant_array,
  structure, structure_array, union, union_array, Members,
}
use repics.PvaFields.{is_struct, BitCount, children, member_bits}
use repics.PvaScalar.{F64, ScalarValue, ScalarError, py_to_scalar, is_string}
use repics.PvaAssign.{
  PyObj, py_none, py_str, py_tuple, py_array, py_value, py_iterable, py_other, Objs, no_objs, obj,
  Entries, no_entries, entry, PvField, typed_array, structure_value, union_value, variant_value,
  NamedFields, Structs, UnionItems, cannot_infer, not_iterable, not_a_structure, raised, blocked,
  VariantItems, Failure, AssignLib,
}
use repics.PvaAssign.Union.{
  infer_number, infer_float, has_i128, Pick, find_variant, pick_union_variant, infer_desc,
  ok_or_refuse, choose,
}
use repics.PvaAssign.Run.{
  Progress, Assign, get_field, find_child, build, built_union, build_union, member_or_refuse,
  text_of, variant_of, build_variant, push_struct, build_structs, push_union, build_unions,
  push_variant, build_variants, value_for, scalar_or_refuse, py_to_array, own_view, scalar_for,
  text_array, array_or_refuse, as_scalar, iterate, texts_of, store, stopped, in_structure,
  set_member, to_member, with_key, proceed, assign_entries, assign_structure, dict_of, assign_step,
  assign,
}
use repics.Prelude.Int.{ℤ}
use repics.PvaAssign.Run.{value_keys}
use repics.PvaAssign.Run.Depth.{
  size, member_sizes, weight, weights, entry_weights, structures_only, all_structures,
  entries_structures, inner_weight, fuel_for, Shallow, returns, raises, panics, blocks,
}
use repics.PvaAssign.Run.Fits.Found.{text-ok}
use repics.PvaAssign.Run.Depth.Weights.{
  inner_weight-le, fuel_for-le, iterate-Light, dict_of-light, infer_desc-fuel,
}
use repics.PvaAssign.Run.Depth.Picked.{find_variant-size, pick-fuel, find_child-size}

ruleset outcomes = (returns, raises, panics, blocks)

bind-Shallow :
    {A B : Type 0} (r : Result Failure A) (g : A → Result Failure B)
    → Shallow r
    → ((a : A) → r ≡ ok a → Shallow (g a))
    → Shallow (r >>= g)
bind-Shallow _ g returns k = k _ refl
bind-Shallow _ g raises k = raises
bind-Shallow _ g panics k = panics
bind-Shallow _ g blocks k = blocks

if-Shallow :
    {A : Type 0} (b : Bool) (x y : Result Failure A)
    → Shallow x
    → Shallow y
    → Shallow (if b then x else y)
if-Shallow true x y h k = h
if-Shallow false x y h k = k

value_keys-Shallow : (d : FieldDesc) → Shallow (value_keys d)
unfolding value_keys
value_keys-Shallow (structure id ms) = search outcomes
value_keys-Shallow d = search outcomes

iterate-Shallow : (held : ℕ) (o : PyObj) → Shallow (iterate held o)
unfolding iterate
iterate-Shallow held (py_value root d es) =
    if-Shallow (eqb root held) (err blocked) (value_keys d) (search outcomes) (value_keys-Shallow d)
iterate-Shallow held (py_array kind n ndim os i f) =
    if-Shallow (eqb ndim 0) (err (raised not_iterable)) (ok os) (search outcomes) (search outcomes)
iterate-Shallow held o = search outcomes

dict_of-Shallow : (held : ℕ) (o : PyObj) → Shallow (dict_of held o)
unfolding dict_of
dict_of-Shallow held (py_value root d es) =
    if-Shallow (eqb root held) (err blocked) _ (search outcomes) (
      if-Shallow (is_struct d) (ok es) (err (raised not_a_structure)) (search outcomes)
        (search outcomes))
dict_of-Shallow held o = search outcomes

text_of-Shallow : (o : PyObj) → Shallow (text_of o)
unfolding text_of
text_of-Shallow (py_str s) = search outcomes
text_of-Shallow o = search outcomes

infer_number-Shallow : (i : Option ℤ) (f : Option F64) → Shallow (infer_number i f)
unfolding infer_number infer_float
infer_number-Shallow i none =
    if-Shallow (has_i128 i) (ok (some (scalar long))) (err (raised cannot_infer)) (search outcomes)
      (search outcomes)
infer_number-Shallow i (some x) =
    if-Shallow (has_i128 i) (ok (some (scalar long))) (ok (some (scalar double))) (search outcomes)
      (search outcomes)

infer_desc-Shallow : (held : ℕ) (o : PyObj) → Shallow (infer_desc held o)
unfolding infer_desc
infer_desc-Shallow held (py_value root d es) =
    if-Shallow (eqb root held) (err blocked) (ok (some d)) (search outcomes) (search outcomes)
infer_desc-Shallow held (py_iterable os i f) = infer_number-Shallow i f
infer_desc-Shallow held (py_other i f) = infer_number-Shallow i f
infer_desc-Shallow held o = search outcomes

refuse-Shallow : (o : Option Pick) → Shallow (ok_or_refuse o)
unfolding ok_or_refuse
refuse-Shallow none = search outcomes
refuse-Shallow (some x) = search outcomes

pick-Shallow : (held : ℕ) (ms : Members) (o : PyObj) → Shallow (pick_union_variant held ms o)
unfolding pick_union_variant
pick-Shallow held ms o =
    bind-Shallow (infer_desc held o) _ (infer_desc-Shallow held o)
      (λ w _. refuse-Shallow (choose w ms o))

member-Shallow : (name : String) (o : Option Pick) → Shallow (member_or_refuse name o)
unfolding member_or_refuse
member-Shallow name none = search outcomes
member-Shallow name (some x) = search outcomes

zero-fuel : (d : FieldDesc) (o : PyObj) → fuel_for d o ≤ 0 → ⊥
unfolding fuel_for size
zero-fuel variant o u = omega arith
zero-fuel (structure id ms) o u = omega arith
zero-fuel d o u = omega arith

module _ (B : BitSetLib) (L : AssignLib) (held : ℕ) where
  numbers-Shallow : (r : Option (List ScalarValue)) → Shallow (array_or_refuse B L held r)
  unfolding array_or_refuse
  numbers-Shallow none = search outcomes
  numbers-Shallow (some vs) = search outcomes

  texts-Shallow : (os : Objs) → Shallow (texts_of B L held os)
  unfolding texts_of
  texts-Shallow no_objs = returns
  texts-Shallow (obj o os) =
      if-Shallow (own_view held o) (err blocked) _ blocks
        (bind-Shallow (texts_of B L held os) _ (texts-Shallow os) (λ vs _. returns))

  array-Shallow : (o : PyObj) (st : ScalarType) → Shallow (py_to_array B L held o st)
  unfolding py_to_array text_array is_string
  array-Shallow (py_str s) string = search outcomes
  array-Shallow o string =
      bind-Shallow (iterate held o) (texts_of B L held) (iterate-Shallow held o)
        (λ os _. texts-Shallow os)
  array-Shallow o st = numbers-Shallow (L.array_of o st)

  scalar-Shallow : (r : Result ScalarError ScalarValue) → Shallow (scalar_or_refuse B L held r)
  unfolding scalar_or_refuse
  scalar-Shallow (ok v) = search outcomes
  scalar-Shallow (err e) = search outcomes

  push_struct-Shallow :
      (f : PvField) (rest : Result Failure Structs)
      → Shallow rest
      → Shallow (push_struct B L held f rest)
  unfolding push_struct
  push_struct-Shallow (structure_value fs) rest h = bind-Shallow rest _ h (λ xs _. returns)
  push_struct-Shallow f rest h = search outcomes

  push_union-Shallow :
      (f : PvField) (rest : Result Failure UnionItems)
      → Shallow rest
      → Shallow (push_union B L held f rest)
  unfolding push_union
  push_union-Shallow (union_value (negsuc zero) n f) rest h =
      bind-Shallow rest _ h (λ xs _. returns)
  push_union-Shallow (union_value (negsuc (suc k)) n f) rest h =
      bind-Shallow rest _ h (λ xs _. returns)
  push_union-Shallow (union_value (pos k) n f) rest h = bind-Shallow rest _ h (λ xs _. returns)
  push_union-Shallow f rest h = search outcomes

  push_variant-Shallow :
      (f : PvField) (rest : Result Failure VariantItems)
      → Shallow rest
      → Shallow (push_variant B L held f rest)
  unfolding push_variant
  push_variant-Shallow (variant_value d f) rest h = bind-Shallow rest _ h (λ xs _. returns)
  push_variant-Shallow f rest h = search outcomes

  -- The calls inside a call return on this much fuel.
  abbrev pub Reaches : Assign B → ℕ → Type 0
  Reaches rec fuel =
      (d : FieldDesc) (t : PvField) (o : PyObj) (marks : B.Bits) (bit : ℕ)
      → structures_only o ≡ true
      → fuel_for d o ≤ fuel
      → Shallow (rec d t o marks bit).result

  module _ (rec : Assign B) (fuel : ℕ) (reaches : Reaches rec fuel) where
    build-Shallow :
        (d : FieldDesc) (o : PyObj)
        → structures_only o ≡ true
        → fuel_for d o ≤ fuel
        → Shallow (build B L held rec d o)
    unfolding build
    build-Shallow d o h u =
        bind-Shallow (rec d (L.default_value_for d) o B.empty 0).result _
          (reaches d (L.default_value_for d) o B.empty 0 h u) (λ _ _. returns)

    built_union-Shallow :
        (x : Pick) (o : PyObj)
        → structures_only o ≡ true
        → fuel_for x.2 o ≤ fuel
        → Shallow (built_union B L held rec x o)
    unfolding built_union
    built_union-Shallow (i, n, d) o h u =
        bind-Shallow (build B L held rec d o) _ (build-Shallow d o h u) (λ f _. returns)

    picked-Shallow :
        (ms : Members) (o : PyObj)
        → structures_only o ≡ true
        → member_sizes ms + inner_weight o ≤ fuel
        → Shallow (pick_union_variant held ms o >>= λ x. built_union B L held rec x o)
    picked-Shallow ms o h u =
        bind-Shallow (pick_union_variant held ms o) _ (pick-Shallow held ms o)
          (λ x p. built_union-Shallow x o h (omega (arith, pick-fuel held ms o x p)))

    build_union-Shallow :
        (ms : Members) (o : PyObj)
        → structures_only o ≡ true
        → member_sizes ms + inner_weight o ≤ fuel
        → Shallow (build_union B L held rec ms o)
    unfolding build_union structures_only fuel_for
    build_union-Shallow ms py_none h u = search outcomes
    build_union-Shallow ms (py_tuple (obj k (obj v no_objs))) h u =
        let (hv, _) =
          and-split (structures_only v) true
            (and-split (structures_only k) (structures_only v && true) h).1 in
        bind-Shallow (text_of k) _ (text_of-Shallow k) (λ name _.
          let o = find_variant (λ n d. n == name) 0 ms in
          bind-Shallow (member_or_refuse name o) _ (member-Shallow name o) (λ x p.
            let (_, s) = find_variant-size (λ n d. n == name) 0 ms x (text-ok name o x p) in
            built_union-Shallow x v hv (omega (arith, fuel_for-le x.2 v))))
    build_union-Shallow ms (py_tuple os) h u = search outcomes
    build_union-Shallow ms o h u = picked-Shallow ms o h u

    variant_of-Shallow :
        (o : PyObj) (d : Option FieldDesc)
        → structures_only o ≡ true
        → ((c : FieldDesc) → d ≡ some c → fuel_for c o ≤ fuel)
        → Shallow (variant_of B L held rec o d)
    unfolding variant_of
    variant_of-Shallow o none h u = returns
    variant_of-Shallow o (some d) h u =
        bind-Shallow (build B L held rec d o) _ (build-Shallow d o h (u d refl)) (λ f _. returns)

    build_variant-Shallow :
        (o : PyObj)
        → structures_only o ≡ true
        → suc (weight o) ≤ fuel
        → Shallow (build_variant B L held rec o)
    unfolding build_variant
    build_variant-Shallow o h u =
        bind-Shallow (infer_desc held o) _ (infer_desc-Shallow held o) (λ d p.
          variant_of-Shallow o d h (λ c e. omega (arith, infer_desc-fuel held o c h (p ∙ ap ok e))))

    build_structs-Shallow :
        (d : FieldDesc) (os : Objs)
        → all_structures os ≡ true
        → size d + weights os ≤ fuel
        → Shallow (build_structs B L held rec d os)
    unfolding build_structs weight structures_only
    build_structs-Shallow d no_objs h u = returns
    build_structs-Shallow d (obj py_none os) h u =
        bind-Shallow (build_structs B L held rec d os) _
          (build_structs-Shallow d os h (omega arith)) (λ xs _. returns)
    build_structs-Shallow d (obj o os) h u =
        let (ho, hs) = and-split (structures_only o) (all_structures os) h in
        let rest = build_structs B L held rec d os in
        bind-Shallow (build B L held rec d o) (λ f. push_struct B L held f rest)
          (build-Shallow d o ho (omega (arith, fuel_for-le d o)))
          (λ f _. push_struct-Shallow f rest (build_structs-Shallow d os hs (omega arith)))

    build_unions-Shallow :
        (ms : Members) (os : Objs)
        → all_structures os ≡ true
        → member_sizes ms + weights os ≤ fuel
        → Shallow (build_unions B L held rec ms os)
    unfolding build_unions weight structures_only
    build_unions-Shallow ms no_objs h u = returns
    build_unions-Shallow ms (obj o os) h u =
        let (ho, hs) = and-split (structures_only o) (all_structures os) h in
        let rest = build_unions B L held rec ms os in
        bind-Shallow (build_union B L held rec ms o) (λ f. push_union B L held f rest)
          (build_union-Shallow ms o ho (omega (arith, inner_weight-le o)))
          (λ f _. push_union-Shallow f rest (build_unions-Shallow ms os hs (omega arith)))

    build_variants-Shallow :
        (os : Objs)
        → all_structures os ≡ true
        → suc (weights os) ≤ fuel
        → Shallow (build_variants B L held rec os)
    unfolding build_variants weight structures_only
    build_variants-Shallow no_objs h u = returns
    build_variants-Shallow (obj py_none os) h u =
        bind-Shallow (build_variants B L held rec os) _ (build_variants-Shallow os h (omega arith))
          (λ xs _. returns)
    build_variants-Shallow (obj o os) h u =
        let (ho, hs) = and-split (structures_only o) (all_structures os) h in
        let rest = build_variants B L held rec os in
        bind-Shallow (build_variant B L held rec o) (λ f. push_variant B L held f rest)
          (build_variant-Shallow o ho (omega arith))
          (λ f _. push_variant-Shallow f rest (build_variants-Shallow os hs (omega arith)))

    value_for-Shallow :
        (d : FieldDesc) (o : PyObj)
        → structures_only o ≡ true
        → fuel_for d o ≤ suc fuel
        → Shallow (value_for B L held rec d o)
    unfolding value_for scalar_for fuel_for size
    value_for-Shallow (scalar st) o h u =
        if-Shallow (is_string st && own_view held o) (err blocked) _ blocks
          (scalar-Shallow (py_to_scalar L.scalars (as_scalar B L held o) st))
    value_for-Shallow (scalar_array st) o h u =
        bind-Shallow (py_to_array B L held o st) (λ vs. ok (typed_array st vs)) (array-Shallow o st)
          (λ vs _. returns)
    value_for-Shallow (structure_array id ms) o h u =
        bind-Shallow (iterate held o) _ (iterate-Shallow held o) (λ os p.
          let (w, hs) = iterate-Light held o os h p in
          bind-Shallow (build_structs B L held rec (structure id ms) os) _
            (build_structs-Shallow (structure id ms) os hs (omega arith)) (λ xs _. returns))
    value_for-Shallow (union id ms) o h u = build_union-Shallow ms o h (omega arith)
    value_for-Shallow (union_array id ms) o h u =
        bind-Shallow (iterate held o) _ (iterate-Shallow held o) (λ os p.
          let (w, hs) = iterate-Light held o os h p in
          bind-Shallow (build_unions B L held rec ms os) _
            (build_unions-Shallow ms os hs (omega arith)) (λ xs _. returns))
    value_for-Shallow variant o h u = build_variant-Shallow o h (omega arith)
    value_for-Shallow variant_array o h u =
        bind-Shallow (iterate held o) _ (iterate-Shallow held o) (λ os p.
          let (w, hs) = iterate-Light held o os h p in
          bind-Shallow (build_variants B L held rec os) _
            (build_variants-Shallow os hs (omega arith)) (λ xs _. returns))
    value_for-Shallow (structure id ms) o h u = panics

    module _ (C : BitCount) where
      to_member-Shallow :
          (ms : Members) (b : ℕ) (key : String) (c : Option (FieldDesc × ℕ)) (t : Option PvField)
          (fs : NamedFields) (v : PyObj) (marks : B.Bits)
          → find_child key (member_bits C ms b) ≡ c
          → structures_only v ≡ true
          → member_sizes ms + weight v ≤ fuel
          → Shallow (to_member B rec key c t fs v marks).result
      unfolding to_member stopped set_member
      to_member-Shallow ms b key none t fs v marks e h u = raises
      to_member-Shallow ms b key (some (d, i)) none fs v marks e h u = raises
      to_member-Shallow ms b key (some (d, i)) (some t) fs v marks e h u =
          reaches d t v marks i h (omega (arith, fuel_for-le d v, find_child-size C key ms b i d e))

      with_key-Shallow :
          (ms : Members) (b : ℕ) (k : Result Failure String) (fs : NamedFields) (v : PyObj)
          (marks : B.Bits)
          → Shallow k
          → structures_only v ≡ true
          → member_sizes ms + weight v ≤ fuel
          → Shallow (with_key B rec (member_bits C ms b) fs k v marks).result
      unfolding with_key stopped
      with_key-Shallow ms b _ fs v marks raises h u = raises
      with_key-Shallow ms b _ fs v marks panics h u = panics
      with_key-Shallow ms b _ fs v marks blocks h u = blocks
      with_key-Shallow ms b (ok key) fs v marks returns h u =
          to_member-Shallow ms b key (find_child key (member_bits C ms b)) (get_field key fs) fs v
            marks refl h u

      proceed-Shallow :
          (r : Result Failure Unit) (p next : Progress B)
          → Shallow p.result
          → Shallow next.result
          → Shallow (proceed B r p next).result
      unfolding proceed
      proceed-Shallow (err e) p next h k = h
      proceed-Shallow (ok u) p next h k = k

      assign_entries-Shallow :
          (ms : Members) (b : ℕ) (es : Entries) (p : Progress B)
          → Shallow p.result
          → entries_structures es ≡ true
          → member_sizes ms + entry_weights es ≤ fuel
          → Shallow (assign_entries B rec (member_bits C ms b) es p).result
      unfolding assign_entries weight structures_only
      assign_entries-Shallow ms b no_entries p x h u = x
      assign_entries-Shallow ms b (entry k v es) p x h u =
          let (hkv, he) =
            and-split (structures_only k && structures_only v) (entries_structures es) h in
          let (_, hv) = and-split (structures_only k) (structures_only v) hkv in
          proceed-Shallow p.result p _ x (
            assign_entries-Shallow ms b es
              (with_key B rec (member_bits C ms b) p.fields (text_of k) v p.marks)
              (with_key-Shallow ms b (text_of k) p.fields v p.marks (text_of-Shallow k) hv
                (omega arith))
              he (omega arith))

      assign_structure-Shallow :
          (ms : Members) (b : ℕ) (o : PyObj) (r : Result Failure Entries) (t : PvField)
          (marks : B.Bits)
          → Shallow r
          → ((es : Entries)
              → r ≡ ok es
              → (entries_structures es ≡ true) × (member_sizes ms + entry_weights es ≤ fuel))
          → Shallow (assign_structure B rec (member_bits C ms b) r t marks).result
      unfolding assign_structure in_structure
      assign_structure-Shallow ms b o _ t marks raises h = raises
      assign_structure-Shallow ms b o _ t marks panics h = panics
      assign_structure-Shallow ms b o _ t marks blocks h = blocks
      assign_structure-Shallow ms b o (ok es) (structure_value fs) marks returns h =
          let (x, y) = h es refl in assign_entries-Shallow ms b es _ returns x y
      assign_structure-Shallow ms b o (ok es) t marks returns h = raises

      store-Shallow :
          (r : Result Failure PvField) (t : PvField) (marks : B.Bits) (bit : ℕ)
          → Shallow r
          → Shallow (store B r t marks bit).result
      unfolding store
      store-Shallow _ t marks bit returns = returns
      store-Shallow _ t marks bit raises = raises
      store-Shallow _ t marks bit panics = panics
      store-Shallow _ t marks bit blocks = blocks

      assign_step-Shallow : Reaches (assign_step B L held C rec) (suc fuel)
      unfolding assign_step children fuel_for size
      assign_step-Shallow (structure id ms) t o marks bit h u =
          assign_structure-Shallow ms (suc bit) o (dict_of held o) t marks (dict_of-Shallow held o)
            (λ es e. let (w, x) = dict_of-light held o es h e in (x, omega arith))
      assign_step-Shallow d t o marks bit h u =
          store-Shallow (value_for B L held rec d o) t marks bit (value_for-Shallow d o h u)

  -- Assigning an object whose `Value`s are all of structure types needs no more fuel than the type's
  -- size and the object's depth give: on that much it returns, raises, panics, or waits for the lock
  -- that its own thread holds.
  pub assign-Shallow :
      (C : BitCount) (fuel : ℕ) (d : FieldDesc) (t : PvField) (o : PyObj) (marks : B.Bits) (bit : ℕ)
      → structures_only o ≡ true
      → fuel_for d o ≤ fuel
      → Shallow (assign B L held C fuel d t o marks bit).result
  unfolding assign
  assign-Shallow C zero d t o marks bit h u = elim (zero-fuel d o u) [ ]
  assign-Shallow C (suc fuel) d t o marks bit h u =
      assign_step-Shallow (assign B L held C fuel) fuel (assign-Shallow C fuel) C d t o marks bit h
        u
