-- ===== src/PvaView/Paths.antt =====
-- src/pva/value.rs, `field_at` and `field_at_mut`: the field at a path of the type.
use Prim.Native.String.{String}
use repics.Prelude.{
  ◌≡◌, refl, sym, ap, ◌∙◌, Bool, true, false, if◌then◌else◌, [], ◌∷◌, Option, none, some, Result,
  ok, err, ok-injective, string_eq, ◌==◌, if-true, if-false,
}
use repics.PvaType.{FieldDesc, structure, Members, member}
use repics.PvaFields.{FieldError, view_path_vanished, FieldPath, desc_at, find_member, members_of}
use repics.PvaAssign.{PvField, structure_value, NamedFields, no_fields, field}
use repics.PvaAssign.Run.{get_field, set_field}
use repics.PvaAssign.Run.Fits.{Fits, structure_fit, FitsMembers, no_member, and_member}
use repics.PvaToPy.Fitting.{Carries, structure-Carries, some-injective}
use mathlib.Core.Path.{subst}
use repics.PvaView.{field_at, put_at}

-- A member of the type has a field of its own type, and another of that type may take its place.
abbrev pub Holds : String → FieldDesc → Members → NamedFields → Type 0
Holds k c ms fs =
    (t : PvField) × (get_field k fs ≡ some t)
    × Fits c t
    × ((g : PvField) → Fits c g → FitsMembers ms (set_field k g fs))

head-Holds :
    (same : Bool) (k n : String) (d c : FieldDesc) (f : PvField) (ms : Members) (fs : NamedFields)
    (r : Option FieldDesc)
    → (n == k) ≡ same
    → Fits d f
    → FitsMembers ms fs
    → (r ≡ some c → Holds k c ms fs)
    → (if same then some d else r) ≡ some c
    → Holds k c (member n d ms) (field n f fs)
unfolding get_field set_field
head-Holds true k n d c f ms fs r e x xs later h =
    let p : d ≡ c = cc in (f, rw e refl, rw (sym p) x, λ g y. rw e (and_member (rw p y) xs))
head-Holds false k n d c f ms fs r e x xs later h =
    let (t, q, y, put) = later h in (t, rw e q, y, λ g z. rw e (and_member x (put g z)))

member-Holds :
    (k : String) (c : FieldDesc) {ms : Members} {fs : NamedFields}
    → FitsMembers ms fs
    → find_member ms k ≡ some c
    → Holds k c ms fs
unfolding find_member
member-Holds k c no_member h = cc
member-Holds k c (and_member {n} {d} {f} {ms} {fs} x xs) h =
    head-Holds (n == k) k n d c f ms fs (find_member ms k) refl x xs (member-Holds k c xs) h

-- The same for a path.
abbrev pub HoldsAt : FieldDesc → FieldDesc → PvField → FieldPath → Type 0
HoldsAt d c f p =
    (t : PvField) × (field_at f p ≡ some t)
    × Fits c t
    × ((g : PvField) → Fits c g → Fits d (put_at f p g) × (field_at (put_at f p g) p ≡ some g))

get_field-set_field :
    (k : String) (fs : NamedFields) (t g : PvField)
    → get_field k fs ≡ some t
    → get_field k (set_field k g fs) ≡ some g
unfolding get_field set_field
get_field-set_field k no_fields t g h = cc
get_field-set_field k (field n f fs) t g h = by_name (n == k) refl h (get_field-set_field k fs t g)
  where
    by_name :
        (same : Bool)
        → (n == k) ≡ same
        → (if same then some f else get_field k fs) ≡ some t
        → (get_field k fs ≡ some t → get_field k (set_field k g fs) ≡ some g)
        → get_field k (if same then field n g fs else field n f (set_field k g fs)) ≡ some g
    by_name true e h later = if-true (n == k) (some g) _ e
    by_name false e h later = rw e (later h)

field_at-cons :
    (seg : String) (p : FieldPath) (fs : NamedFields) (g : PvField)
    → get_field seg fs ≡ some g
    → field_at (structure_value fs) (seg ∷ p) ≡ field_at g p
unfolding field_at
field_at-cons seg p fs g h =
    ap
      (λ (o : Option PvField). elim o as (λ _. Option PvField) [
        | none ↦ none
        | some t ↦ field_at t p
      ])
      h

put_at-cons :
    (seg : String) (p : FieldPath) (fs : NamedFields) (g h : PvField)
    → get_field seg fs ≡ some g
    → put_at (structure_value fs) (seg ∷ p) h ≡ structure_value (set_field seg (put_at g p h) fs)
unfolding put_at
put_at-cons seg p fs g h e =
    ap
      (λ (o : Option PvField). elim o as (λ _. PvField) [
        | none ↦ structure_value fs
        | some t ↦ structure_value (set_field seg (put_at t p h) fs)
      ])
      e

desc_at-cons :
    (d : FieldDesc) (seg : String) (p : FieldPath) (c : FieldDesc)
    → desc_at d (seg ∷ p) ≡ ok c
    → (e : FieldDesc) × (find_member (members_of d) seg ≡ some e) × (desc_at e p ≡ ok c)
unfolding desc_at
desc_at-cons d seg p c h = by_member (find_member (members_of d) seg) refl h
  where
    by_member :
        (o : Option FieldDesc)
        → find_member (members_of d) seg ≡ o
        → (elim o as (λ _. Result FieldError FieldDesc) [
          | none ↦ err view_path_vanished
          | some e ↦ desc_at e p
        ])
          ≡ ok c
        → (e : FieldDesc) × (find_member (members_of d) seg ≡ some e) × (desc_at e p ≡ ok c)
    by_member none q h = cc
    by_member (some e) q h = (e, q, h)

below-HoldsAt :
    (id seg : String) (p : FieldPath) (c : FieldDesc) (ms : Members) (fs : NamedFields)
    (e : FieldDesc)
    → Holds seg e ms fs
    → ((t : PvField) → Fits e t → HoldsAt e c t p)
    → HoldsAt (structure id ms) c (structure_value fs) (seg ∷ p)
below-HoldsAt id seg p c ms fs e (t, q, y, put) later =
    let (u, a, z, set) = later t y in
    (
      u,
      field_at-cons seg p fs t q ∙ a,
      z,
      λ g w.
          let (fit, got) = set g w in
          let there = put_at-cons seg p fs t g q in
          (
            rw there (structure_fit (put (put_at t p g) fit)),
            rw there (
                field_at-cons seg p (set_field seg (put_at t p g) fs) (put_at t p g)
                  (get_field-set_field seg fs t (put_at t p g) q)
                ∙ got),
          ),
    )

-- Where the type has a path, a value of the type has a field of that path's type there; putting
-- another of that type there leaves a value of the type, and it is what is then found there.
pub desc_at-HoldsAt :
    (p : FieldPath) (d c : FieldDesc) (f : PvField)
    → Fits d f
    → desc_at d p ≡ ok c
    → HoldsAt d c f p
unfolding desc_at field_at put_at members_of find_member
desc_at-HoldsAt [] d c f x h =
    let e : d ≡ c = ok-injective h in (f, refl, rw (sym e) x, λ g y. (rw e y, refl))
desc_at-HoldsAt (seg ∷ p) _ c _ (structure_fit {id} {ms} {fs} xs) h =
    let (d, e, q) = desc_at-cons (structure id ms) seg p c h in
    below-HoldsAt id seg p c ms fs d (member-Holds seg d xs e) (λ t y. desc_at-HoldsAt p d c t y q)
desc_at-HoldsAt (seg ∷ p) d c f x h = cc

-- Two paths of which neither leads through the other.
pub data Apart : FieldPath → FieldPath → Type 0 where
  differ : {s t : String} {p q : FieldPath} → (s == t) ≡ false → Apart (s ∷ p) (t ∷ q)
  deeper : {s : String} {p q : FieldPath} → Apart p q → Apart (s ∷ p) (s ∷ q)

get_field-other :
    (k t : String) (g : PvField) (fs : NamedFields)
    → (k == t) ≡ false
    → get_field t (set_field k g fs) ≡ get_field t fs
unfolding get_field set_field
get_field-other k t g no_fields h = refl
get_field-other k t g (field n f fs) h = by_name (n == k) refl (get_field-other k t g fs h)
  where
    by_name :
        (same : Bool)
        → (n == k) ≡ same
        → get_field t (set_field k g fs) ≡ get_field t fs
        → get_field t (if same then field n g fs else field n f (set_field k g fs))
          ≡ get_field t (field n f fs)
    by_name true e later =
        let d : (n == t) ≡ false = ap (λ m. m == t) ((string_eq.equal_iff n k).0 e) ∙ h in
        if-false (n == t) _ _ d ∙ sym (if-false (n == t) _ _ d)
    by_name false e later = ap (λ o. if n == t then some f else o) later

-- A write below a member, if there is one.
put_below : String → (PvField → PvField) → NamedFields → Option PvField → PvField
put_below s put fs none = structure_value fs
put_below s put fs (some g) = structure_value (set_field s (put g) fs)

put_below-other :
    (s t : String) (q : FieldPath) (put : PvField → PvField) (fs : NamedFields) (o : Option PvField)
    → (s == t) ≡ false
    → field_at (put_below s put fs o) (t ∷ q) ≡ field_at (structure_value fs) (t ∷ q)
unfolding put_below field_at
put_below-other s t q put fs none e = refl
put_below-other s t q put fs (some g) e =
    ap
      (λ (o : Option PvField). elim o as (λ _. Option PvField) [
        | none ↦ none
        | some f ↦ field_at f q
      ])
      (get_field-other s t (put g) fs e)

put_below-same :
    (s : String) (q : FieldPath) (put : PvField → PvField) (fs : NamedFields) (o : Option PvField)
    → get_field s fs ≡ o
    → ((g : PvField) → field_at (put g) q ≡ field_at g q)
    → field_at (put_below s put fs o) (s ∷ q) ≡ field_at (structure_value fs) (s ∷ q)
unfolding put_below
put_below-same s q put fs none e same = refl
put_below-same s q put fs (some g) e same =
    field_at-cons s q (set_field s (put g) fs) (put g) (get_field-set_field s fs g (put g) e)
    ∙ same g
    ∙ sym (field_at-cons s q fs g e)

put_at-put_below :
    (s : String) (p : FieldPath) (h : PvField) (fs : NamedFields) (o : Option PvField)
    → get_field s fs ≡ o
    → put_at (structure_value fs) (s ∷ p) h ≡ put_below s (λ g. put_at g p h) fs o
unfolding put_below put_at
put_at-put_below s p h fs none e =
    ap
      (λ (o : Option PvField). elim o as (λ _. PvField) [
        | none ↦ structure_value fs
        | some t ↦ structure_value (set_field s (put_at t p h) fs)
      ])
      e
put_at-put_below s p h fs (some g) e = put_at-cons s p fs g h e

-- What is written at a path is seen only on paths that lead to it or through it.
pub put_at-Apart :
    (f h : PvField) {p q : FieldPath} → Apart p q → field_at (put_at f p h) q ≡ field_at f q
put_at-Apart (structure_value fs) h (differ {s} {t} {p} {q} e) =
    ap (λ f. field_at f (t ∷ q)) (put_at-put_below s p h fs (get_field s fs) refl)
    ∙ put_below-other s t q (λ g. put_at g p h) fs (get_field s fs) e
put_at-Apart (structure_value fs) h (deeper {s} {p} {q} x) =
    ap (λ f. field_at f (s ∷ q)) (put_at-put_below s p h fs (get_field s fs) refl)
    ∙ put_below-same s q (λ g. put_at g p h) fs (get_field s fs) refl (λ g. put_at-Apart g h x)
put_at-Apart f h (differ {s} {t} {p} {q} e) = unfold put_at in refl
put_at-Apart f h (deeper {s} {p} {q} x) = unfold put_at in refl

pub field_at-Carries :
    (path : FieldPath) (f t : PvField) → Carries f → field_at f path ≡ some t → Carries t
unfolding field_at
field_at-Carries [] f t x h = subst Carries (some-injective h) x
field_at-Carries (seg ∷ path) (structure_value fs) t x h =
    by_field (get_field seg fs) refl h (λ g y k. field_at-Carries path g t y k)
  where
    by_field :
        (o : Option PvField)
        → get_field seg fs ≡ o
        → (elim o as (λ _. Option PvField) [ none ↦ none | some g ↦ field_at g path ]) ≡ some t
        → ((g : PvField) → Carries g → field_at g path ≡ some t → Carries t)
        → Carries t
    by_field none q k later = cc
    by_field (some g) q k later = later g (structure-Carries seg fs g x q) k
field_at-Carries (seg ∷ path) f t x h = cc
