-- ===== src/PvaToPy/Fitting.antt =====
-- src/pva/value.rs, `field_to_py`: a value of a type is converted by it.
use Prim.Native.String.{String}
use repics.Prelude.{
  [], ◌∷◌, if-split, string_eq, ◌==◌, ok-injective, ℕ, zero, suc, ◌≤◌, ◌<◌, ◌≡◌, refl, ap, ◌∙◌,
  arith, Option, none, some, Result, ok, err,
}
use repics.Prelude.Int.{ℤ, pos}
use repics.PvaType.{
  FieldDesc, structure, structure_array, union, union_array, Members, no_members, member,
}
use repics.PvaFields.{FieldPath, FieldError, view_path_vanished, desc_at, find_member, members_of}
use repics.PvaScalar.{in_signed}
use repics.PvaScalar.Wrap.{as_signed-wraps}
use mathlib.Core.Path.{subst}
use repics.PvaAssign.{
  PvField, structure_value, union_value, union_items, variant_value, variant_items, null,
  NamedFields, no_fields, field, UnionItems, no_union_items, absent_union, union_item, VariantItems,
  no_variant_items, absent_variant, variant_item,
}
use repics.PvaAssign.Run.{selector_of, get_field}
use repics.PvaAssign.Run.Fits.{
  variant_at, Fits, scalar_fit, array_fit, structure_fit, structs_fit, union_fit, unions_fit,
  variant_fit, variants_fit, FitsUnion, unselected, selected, FitsUnions, no_union, and_no_union,
  and_union, FitsVariant, no_value, typed, FitsVariants, no_variant, and_no_variant, and_variant,
}
use repics.PvaToPy.{
  PyOut, none_out, list_out, PyOuts, out, ConvertError, nth_member, union_member, field_to_py,
  unions_to_py, variants_to_py, variant_type, variant_to_py, list_of, cons_out,
}

pub some-injective {ℓ} : {A : Type ℓ} {a b : A} → Path (Option A) (some a) (some b) → a ≡ b
some-injective h = cc

unfoldable pub member_count : Members → ℕ
member_count no_members = 0
member_count (member n d ms) = suc (member_count ms)

-- Every union in a type has at most 2^31 members, so that the index of each is its selector.
unfoldable mutual
  pub Narrow : FieldDesc → Type 0
  Narrow (union id ms) = (member_count ms ≤ 2147483648) × NarrowMembers ms
  Narrow (union_array id ms) = (member_count ms ≤ 2147483648) × NarrowMembers ms
  Narrow (structure id ms) = NarrowMembers ms
  Narrow (structure_array id ms) = NarrowMembers ms
  Narrow d = Unit {0}

  pub NarrowMembers : Members → Type 0
  NarrowMembers no_members = Unit {0}
  NarrowMembers (member n d ms) = Narrow d × NarrowMembers ms

-- The same of the type that a variant carries, if it carries one.
unfoldable pub NarrowIfTyped : Option FieldDesc → Type 0
unfolding Narrow
NarrowIfTyped none = Unit {0}
NarrowIfTyped (some d) = Narrow d

-- And of all types that are carried in a field.
unfoldable mutual
  unfolding NarrowIfTyped

  pub Carries : PvField → Type 0
  Carries (structure_value fs) = CarriesFields fs
  Carries (union_value s n f) = Carries f
  Carries (union_items xs) = CarriesUnions xs
  Carries (variant_value vd f) = NarrowIfTyped vd × Carries f
  Carries (variant_items xs) = CarriesVariants xs
  Carries f = Unit {0}

  CarriesFields : NamedFields → Type 0
  CarriesFields no_fields = Unit {0}
  CarriesFields (field n f fs) = Carries f × CarriesFields fs

  CarriesUnions : UnionItems → Type 0
  CarriesUnions no_union_items = Unit {0}
  CarriesUnions (absent_union xs) = CarriesUnions xs
  CarriesUnions (union_item s n f xs) = Carries f × CarriesUnions xs

  CarriesVariants : VariantItems → Type 0
  CarriesVariants no_variant_items = Unit {0}
  CarriesVariants (absent_variant xs) = CarriesVariants xs
  CarriesVariants (variant_item vd f xs) = NarrowIfTyped vd × Carries f × CarriesVariants xs

-- They reach the field at a path.
find_member-Narrow :
    (ms : Members) (seg : String) (c : FieldDesc)
    → NarrowMembers ms
    → find_member ms seg ≡ some c
    → Narrow c
unfolding NarrowMembers find_member
find_member-Narrow no_members seg c x h = cc
find_member-Narrow (member n d ms) seg c x h =
    if-split (n == seg) _ _ (λ _ e. subst Narrow (some-injective e) x.0)
      (λ _ e. find_member-Narrow ms seg c x.1 e) h

get_field-Carries :
    (seg : String) (fs : NamedFields) (t : PvField)
    → CarriesFields fs
    → get_field seg fs ≡ some t
    → Carries t
unfolding CarriesFields get_field
get_field-Carries seg no_fields t x h = cc
get_field-Carries seg (field n f fs) t x h =
    if-split (n == seg) _ _ (λ _ e. subst Carries (some-injective e) x.0)
      (λ _ e. get_field-Carries seg fs t x.1 e) h

pub structure-Carries :
    (seg : String) (fs : NamedFields) (t : PvField)
    → Carries (structure_value fs)
    → get_field seg fs ≡ some t
    → Carries t
unfolding Carries
structure-Carries seg fs t x h = get_field-Carries seg fs t x h

members_of-Narrow : (d : FieldDesc) → Narrow d → NarrowMembers (members_of d)
unfolding Narrow NarrowMembers members_of
members_of-Narrow (structure id ms) x = x
members_of-Narrow d x = record {}

pub desc_at-Narrow :
    (path : FieldPath) (d c : FieldDesc) → Narrow d → desc_at d path ≡ ok c → Narrow c
unfolding desc_at
desc_at-Narrow [] d c x h = subst Narrow (ok-injective h) x
desc_at-Narrow (seg ∷ path) d c x h =
    by_member (find_member (members_of d) seg) refl h (λ e y k. desc_at-Narrow path e c y k)
  where
    by_member :
        (o : Option FieldDesc)
        → find_member (members_of d) seg ≡ o
        → (elim o as (λ _. Result FieldError FieldDesc) [
          | none ↦ err view_path_vanished
          | some e ↦ desc_at e path
        ])
          ≡ ok c
        → ((e : FieldDesc) → Narrow e → desc_at e path ≡ ok c → Narrow c)
        → Narrow c
    by_member none q k later = cc
    by_member (some e) q k later =
        later e (find_member-Narrow (members_of d) seg e (members_of-Narrow d x) q) k

-- The member that an index selects.
variant_at-Narrow :
    (ms : Members) (i : ℕ) (n : String) (d : FieldDesc)
    → variant_at ms i ≡ some (n, d)
    → (i < member_count ms) × (nth_member ms i ≡ some d) × (NarrowMembers ms → Narrow d)
unfolding variant_at member_count nth_member NarrowMembers
variant_at-Narrow no_members i n d h = cc
variant_at-Narrow (member m e ms) zero n d h =
    let same : e ≡ d = cc in (omega arith, ap some same, λ x. subst Narrow same x.0)
variant_at-Narrow (member m e ms) (suc i) n d h =
    let (a, b, c) = variant_at-Narrow ms i n d h in (omega (arith, a), b, λ x. c x.1)

selected-member :
    (ms : Members) (i : ℕ) (n : String) (d : FieldDesc)
    → variant_at ms i ≡ some (n, d)
    → member_count ms ≤ 2147483648
    → union_member ms (selector_of i) ≡ some d
unfolding selector_of union_member
selected-member ms i n d h small =
    let (a, b, c) = variant_at-Narrow ms i n d h in
    ap (union_member ms) (
      (as_signed-wraps 0x8000_0000 (pos i) (omega arith)).2
        (unfold in_signed in ground (arith, a, small)))
    ∙ b

module _ (descriptor : PvField → FieldDesc) where
  abbrev Converts : FieldDesc → PvField → Type 0
  Converts d f = (o : PyOut) × (field_to_py descriptor d f ≡ ok o)

  abbrev member_out : PvField → Option FieldDesc → Result ConvertError PyOut
  member_out f o = elim o as (λ _. Result ConvertError PyOut) [
    | none ↦ ok none_out
    | some d ↦ field_to_py descriptor d f
  ]

  listed :
      (r : Result ConvertError PyOuts)
      → (xs : PyOuts) × (r ≡ ok xs)
      → (o : PyOut) × (list_of r ≡ ok o)
  unfolding list_of
  listed r (xs, h) = (list_out xs, rw h refl)

  consed :
      (r : Result ConvertError PyOut) (rest : Result ConvertError PyOuts)
      → (o : PyOut) × (r ≡ ok o)
      → (xs : PyOuts) × (rest ≡ ok xs)
      → (xs : PyOuts) × (cons_out r rest ≡ ok xs)
  unfolding cons_out
  consed r rest (o, h) (xs, k) = (out o xs, rw (h, k) refl)

  variant_out :
      (f : PvField) (r : Result ConvertError PyOut)
      → (o : PyOut) × (r ≡ ok o)
      → (o : PyOut) × (variant_to_py f r ≡ ok o)
  unfolding variant_to_py
  variant_out null r x = (none_out, refl)
  variant_out f r x = x

  mutual
    unfolding field_to_py union_member Narrow NarrowMembers Carries CarriesUnions CarriesVariants
        NarrowIfTyped unions_to_py variants_to_py variant_type variant_to_py

    Fits-Converts : {d : FieldDesc} {f : PvField} → Fits d f → Narrow d → Carries f → Converts d f
    Fits-Converts (scalar_fit h) x y = (_, refl)
    Fits-Converts (array_fit h) x y = (_, refl)
    Fits-Converts (structure_fit h) x y = (_, refl)
    Fits-Converts (structs_fit h) x y = (_, refl)
    Fits-Converts (union_fit {ms} {s} {f} h) x y = FitsUnion-Converts h x.0 x.1 y
    Fits-Converts (unions_fit {ms} {xs} h) x y =
        listed (unions_to_py descriptor ms xs) (FitsUnions-Converts h x.0 x.1 y)
    Fits-Converts (variant_fit {d} {f} h) x y = FitsVariant-Converts h y.0 y.1
    Fits-Converts (variants_fit {xs} h) x y =
        listed (variants_to_py descriptor xs) (FitsVariants-Converts h y)

    FitsUnion-Converts :
        {ms : Members} {s : ℤ} {n : String} {f : PvField}
        → FitsUnion ms s n f
        → member_count ms ≤ 2147483648
        → NarrowMembers ms
        → Carries f
        → (o : PyOut) × (member_out f (union_member ms s) ≡ ok o)
    FitsUnion-Converts unselected x y z = (none_out, refl)
    FitsUnion-Converts (selected {ms} i {n} d {f} h fit) x y z =
        let (o, e) = Fits-Converts fit ((variant_at-Narrow ms i n d h).2 y) z in
        (o, ap (member_out f) (selected-member ms i n d h x) ∙ e)

    FitsUnions-Converts :
        {ms : Members} {xs : UnionItems}
        → FitsUnions ms xs
        → member_count ms ≤ 2147483648
        → NarrowMembers ms
        → CarriesUnions xs
        → (os : PyOuts) × (unions_to_py descriptor ms xs ≡ ok os)
    FitsUnions-Converts no_union x y z = (_, refl)
    FitsUnions-Converts (and_no_union h) x y z =
        consed (ok none_out) _ (none_out, refl) (FitsUnions-Converts h x y z)
    FitsUnions-Converts (and_union {ms} {s} {f} {xs} h k) x y z =
        consed (member_out f (union_member ms s)) (unions_to_py descriptor ms xs)
          (FitsUnion-Converts h x y z.0) (FitsUnions-Converts k x y z.1)

    FitsVariant-Converts :
        {vd : Option FieldDesc} {f : PvField}
        → FitsVariant vd f
        → NarrowIfTyped vd
        → Carries f
        → (o : PyOut) × (variant_to_py f (field_to_py descriptor (variant_type descriptor vd f) f)
            ≡ ok o)
    FitsVariant-Converts no_value x y = (none_out, refl)
    FitsVariant-Converts (typed {d} {f} h) x y = variant_out f _ (Fits-Converts h x y)

    FitsVariants-Converts :
        {xs : VariantItems}
        → FitsVariants xs
        → CarriesVariants xs
        → (os : PyOuts) × (variants_to_py descriptor xs ≡ ok os)
    FitsVariants-Converts no_variant y = (_, refl)
    FitsVariants-Converts (and_no_variant h) y =
        consed (ok none_out) _ (none_out, refl) (FitsVariants-Converts h y)
    FitsVariants-Converts (and_variant {d} {f} {xs} h k) y =
        consed (variant_to_py f (field_to_py descriptor (variant_type descriptor d f) f))
          (variants_to_py descriptor xs) (FitsVariant-Converts h y.0 y.1)
          (FitsVariants-Converts k y.2)

  -- A value of a type is converted by that type.
  pub field_to_py-ok :
      (d : FieldDesc) (f : PvField) → Fits d f → Narrow d → Carries f → Converts d f
  field_to_py-ok d f x y z = Fits-Converts x y z
