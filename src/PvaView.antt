-- ===== src/PvaView.antt =====
-- src/pva/value.rs, `Value`: a root with its type, its field and its marks, and the operations of a
-- view of it. A path is its segments; a view's prefix is part of the path that an operation takes.
pub mod Paths
pub mod Operations
pub mod Examples
use Prim.Native.String.{String}
use repics.Prelude.{
  ℕ, zero, suc, ◌≡◌, Bool, true, false, if◌then◌else◌, List, [], ◌∷◌, ◌++◌, Option, none, some,
  Result, ok, err, ◌>>=◌, string_eq, ◌==◌,
}
use repics.Prelude.Int.{ℤ, pos, negsuc}
use repics.Epics.BitSet.{BitSetLib}
use repics.PvaType.{FieldDesc, structure, union, Members, no_members, member}
use repics.PvaToPy.{PyOut, ConvertError, field_to_py}
use repics.PvaFields.{FieldPath, BitCount, desc_at, FieldError, collect_marked, is_struct}
use repics.PvaAssign.{
  PyObj, PvField, structure_value, union_value, null, NamedFields, Failure, AssignLib,
}
use repics.PvaAssign.Union.{Pick, find_variant}
use repics.PvaAssign.Run.{Outcome, assign, get_field, set_field, selector_of}

pub data ViewError : Type 0 where
  -- `KeyError`
  no_such_field : ViewError
  no_such_union_field : ViewError
  no_union_member_named : String → ViewError
  -- `TypeError`
  not_a_structure_view : ViewError
  view_cannot_be_sent : ViewError
  -- A field that `field_to_py` does not convert.
  conversion : ConvertError → ViewError
  -- An assignment that failed.
  assign_failed : Failure → ViewError

-- `field_at`: the field at a path, through structures only.
unfoldable pub field_at : PvField → FieldPath → Option PvField
unfolding get_field
field_at f [] = some f
field_at (structure_value fs) (seg ∷ p) = elim (get_field seg fs) [
  | none ↦ none
  | some g ↦ field_at g p
]
field_at f (seg ∷ p) = none

-- A write through what `field_at_mut` gives.
unfoldable pub put_at : PvField → FieldPath → PvField → PvField
unfolding get_field set_field
put_at f [] h = h
put_at (structure_value fs) (seg ∷ p) h = elim (get_field seg fs) [
  | none ↦ structure_value fs
  | some g ↦ structure_value (set_field seg (put_at g p h) fs)
]
put_at f (seg ∷ p) h = f

pub bit_or_zero : Option ℕ → ℕ
bit_or_zero none = 0
bit_or_zero (some b) = b

member_names : FieldDesc → Result ViewError (List String)
member_names (structure id ms) = ok (names ms)
  where
    names : Members → List String
    names no_members = []
    names (member n d ms) = n ∷ names ms
member_names d = err not_a_structure_view

module _ (B : BitSetLib) where
  pub record Root : Type 0 where
    pub desc : FieldDesc
    pub field : PvField
    pub marks : B.Bits

  or_no_field : {A : Type 0} → Result FieldError A → Result ViewError A
  or_no_field (ok a) = ok a
  or_no_field (err e) = err no_such_field

  -- `has`
  pub has : Root → FieldPath → Bool
  unfolding desc_at
  has r path = elim (desc_at r.desc path) [ ok d ↦ true | err e ↦ false ]

  -- `keys`, of the view at this path.
  pub keys : Root → FieldPath → Result ViewError (List String)
  unfolding desc_at member_names
  keys r prefix = elim (desc_at r.desc prefix) [
    | ok d ↦ member_names d
    | err e ↦ err not_a_structure_view
  ]

  -- What `item` gives: another view, or what `field_to_py` makes of a field.
  pub data Item : Type 0 where
    view : FieldPath → Item
    plain : PyOut → Item

  converted : Result ConvertError PyOut → Result ViewError Item
  converted (ok o) = ok (plain o)
  converted (err e) = err (conversion e)

  found : (PvField → FieldDesc) → FieldDesc → FieldPath → Option PvField → Result ViewError Item
  unfolding is_struct converted
  found descriptor d path none = if is_struct d then ok (view path) else err no_such_field
  found descriptor d path (some f) =
      if is_struct d then ok (view path) else converted (field_to_py descriptor d f)

  -- `item`, of a field whose type `descriptor` gives where a variant has none.
  unfoldable pub get_item : (PvField → FieldDesc) → Root → FieldPath → Result ViewError Item
  unfolding desc_at field_at or_no_field found
  get_item descriptor r path =
      or_no_field (desc_at r.desc path) >>= λ d. found descriptor d path (field_at r.field path)

  refused : Root → ViewError → Root × Result ViewError Unit
  refused r e = (r, err e)

  pub ended : Result Failure Unit → Result ViewError Unit
  ended (ok u) = ok u
  ended (err e) = err (assign_failed e)

  -- `with_root`: only the whole value can be sent.
  pub with_root : {A : Type 0} → Root → FieldPath → (Root → A) → Result ViewError A
  with_root r [] f = ok (f r)
  with_root r (s ∷ prefix) f = err view_cannot_be_sent

  module _ (C : BitCount) (L : AssignLib) where
    written : Root → FieldPath → Outcome B → Root × Result ViewError Unit
    unfolding put_at ended
    written r path o = (
      record { desc = r.desc; field = put_at r.field path o.target; marks = o.marks },
      ended o.result,
    )

    write_to :
        ℕ
        → ℕ
        → Root
        → FieldPath
        → PyObj
        → Result FieldError FieldDesc
        → Option PvField
        → Root × Result ViewError Unit
    unfolding refused written bit_or_zero
    write_to fuel held r path o (err e) t = refused r no_such_field
    write_to fuel held r path o (ok d) none = refused r no_such_field
    write_to fuel held r path o (ok d) (some t) =
        written r path
          (assign B L held C fuel d t o r.marks (bit_or_zero (C.bit_for_path r.desc path)))

    -- `v[path] = o`, of the root `held`, which it locks.
    unfoldable pub set_item : ℕ → ℕ → Root → FieldPath → PyObj → Root × Result ViewError Unit
    unfolding write_to desc_at field_at
    set_item fuel held r path o =
        write_to fuel held r path o (desc_at r.desc path) (field_at r.field path)

    picked : String → Option Pick → Result ViewError PvField
    unfolding selector_of
    picked name none = err (no_union_member_named name)
    picked name (some (i, n, d)) = ok (union_value (selector_of i) n (L.default_value_for d))

    selection : Members → Option String → Result ViewError PvField
    unfolding find_variant picked
    selection ms none = ok (union_value (negsuc 0) "" null)
    selection ms (some name) = picked name (find_variant (λ n d. n == name) 0 ms)

    mark_at : B.Bits → Option ℕ → B.Bits
    mark_at marks none = marks
    mark_at marks (some b) = B.set marks b

    select_in : Root → FieldPath → Result ViewError PvField → Root × Result ViewError Unit
    unfolding refused put_at mark_at
    select_in r path (err e) = refused r e
    select_in r path (ok f) = (
      record {
        desc = r.desc;
        field = put_at r.field path f;
        marks = mark_at r.marks (C.bit_for_path r.desc path);
      },
      ok (record {}),
    )

    select_from :
        Root
        → FieldPath
        → Option String
        → Result FieldError FieldDesc
        → Option PvField
        → Root × Result ViewError Unit
    unfolding refused select_in selection
    select_from r path name (ok (union id ms)) (some t) = select_in r path (selection ms name)
    select_from r path name d t = refused r no_such_union_field

    -- `select`
    unfoldable pub select : Root → FieldPath → Option String → Root × Result ViewError Unit
    unfolding select_from desc_at field_at
    select r path name = select_from r path name (desc_at r.desc path) (field_at r.field path)

  with_fields : PvField → List FieldPath → List (FieldPath × PvField)
  unfolding field_at
  with_fields f [] = []
  with_fields f (p ∷ ps) =
      let rest = with_fields f ps in elim (field_at f p) [ none ↦ rest | some g ↦ (p, g) ∷ rest ]

  -- `marked_leaves`
  pub marked_leaves : BitCount → Root → FieldPath → Result ViewError (List (FieldPath × PvField))
  unfolding with_root with_fields collect_marked
  marked_leaves C r prefix =
      with_root r prefix
        (λ g. with_fields g.field (collect_marked B C g.desc 0 [] g.marks false true))
