-- ===== src/PvaView/Operations.antt =====
-- src/pva/value.rs, `Value`: what its operations keep.
use Prim.Native.String.{String}
use repics.Prelude.{
  ℕ, ◌+◌, ◌≡◌, refl, sym, if◌then◌else◌, Bool-cases, Option, none, some, Result, ok, err,
  Result-cases, inl, inr, ◌⊎◌, string_eq, ◌==◌, ok-injective,
}
use repics.Epics.BitSet.{BitSetLib}
use repics.PvaType.{FieldDesc, union, Members}
use repics.PvaFields.{FieldPath, BitCount, FieldError, desc_at, is_struct}
use repics.PvaAssign.{PyObj, PvField, AssignLib}
use repics.PvaAssign.Union.{Pick, find_variant}
use repics.PvaAssign.Run.{assign}
use repics.PvaAssign.Run.Fits.{Fits, union_fit, unselected, selected}
use repics.PvaAssign.Run.Fits.Found.{found-at}
use repics.PvaAssign.Run.Fits.Built.{DefaultsFit}
use repics.PvaAssign.Run.Fits.Kept.{assign-Fits}
use repics.PvaView.{
  ViewError, no_such_field, Root, field_at, bit_or_zero, write_to, written, ended, set_item,
  selection, picked, select_in, select_from, select, get_item, view, plain, found, or_no_field,
  refused,
}
use repics.PvaAssign.Run.Marks.{MarksOnly, assign-marks}
use repics.PvaView.Paths.{desc_at-HoldsAt, Apart, put_at-Apart, field_at-Carries}
use repics.PvaToPy.{PyOut, field_to_py}
use repics.PvaToPy.Fitting.{Narrow, Carries, desc_at-Narrow, field_to_py-ok}

module _ (B : BitSetLib) (L : AssignLib) (C : BitCount) (defaults : DefaultsFit L) where
  -- The field is a value of the type.
  abbrev pub IsValue : Root B → Type 0
  IsValue r = Fits r.desc r.field

  write_to-IsValue :
      (fuel held : ℕ) (r : Root B) (path : FieldPath) (o : PyObj) (d : Result FieldError FieldDesc)
      (t : Option PvField)
      → desc_at r.desc path ≡ d
      → field_at r.field path ≡ t
      → IsValue r
      → IsValue (write_to B C L fuel held r path o d t).0
  unfolding write_to written refused
  write_to-IsValue fuel held r path o (err e) t h q x = x
  write_to-IsValue fuel held r path o (ok d) none h q x = x
  write_to-IsValue fuel held r path o (ok d) (some t) h q x =
      let (u, a, y, put) = desc_at-HoldsAt path r.desc d r.field x h in
      let e : u ≡ t = cc in
      (put _ (assign-Fits B L held C defaults fuel d t o r.marks _ (rw (sym e) y))).0

  set_item-IsValue :
      (fuel held : ℕ) (r : Root B) (path : FieldPath) (o : PyObj)
      → IsValue r
      → IsValue (set_item B C L fuel held r path o).0
  unfolding set_item
  set_item-IsValue fuel held r path o x =
      write_to-IsValue fuel held r path o (desc_at r.desc path) (field_at r.field path) refl refl x

  picked-Fits :
      (id : String) (ms : Members) (name : String) (x : Option Pick) (f : PvField)
      → find_variant (λ n d. n == name) 0 ms ≡ x
      → picked B C L name x ≡ ok f
      → Fits (union id ms) f
  unfolding picked
  picked-Fits id ms name none f h e = cc
  picked-Fits id ms name (some (i, n, d)) f h e =
      rw (sym (ok-injective e))
        (union_fit (selected i d (found-at (λ n d. n == name) ms (i, n, d) h) (defaults d)))

  selection-Fits :
      (id : String) (ms : Members) (name : Option String) (f : PvField)
      → selection B C L ms name ≡ ok f
      → Fits (union id ms) f
  unfolding selection
  selection-Fits id ms none f e = rw (sym (ok-injective e)) (union_fit unselected)
  selection-Fits id ms (some name) f e =
      picked-Fits id ms name (find_variant (λ n d. n == name) 0 ms) f refl e

  select_in-IsValue :
      (r : Root B) (path : FieldPath) (d : FieldDesc) (f : Result ViewError PvField)
      → desc_at r.desc path ≡ ok d
      → ((g : PvField) → f ≡ ok g → Fits d g)
      → IsValue r
      → IsValue (select_in B C L r path f).0
  unfolding select_in refused
  select_in-IsValue r path d (err e) h k x = x
  select_in-IsValue r path d (ok g) h k x =
      let (_, _, _, put) = desc_at-HoldsAt path r.desc d r.field x h in (put g (k g refl)).0

  select_from-IsValue :
      (r : Root B) (path : FieldPath) (name : Option String) (d : Result FieldError FieldDesc)
      (t : Option PvField)
      → desc_at r.desc path ≡ d
      → IsValue r
      → IsValue (select_from B C L r path name d t).0
  unfolding select_from refused
  select_from-IsValue r path name (ok (union id ms)) (some t) h x =
      select_in-IsValue r path (union id ms) (selection B C L ms name) h (selection-Fits id ms name)
        x
  select_from-IsValue r path name _ t h x = x

  -- The values that Python can make: a fresh one, and what an assignment or a selection leaves,
  -- whether it fails or not.
  pub data IsMade : Root B → Type 0 where
    created :
        (d : FieldDesc)
        → IsMade (record { desc = d; field = L.default_value_for d; marks = B.empty })
    assigned :
        {r : Root B} (fuel held : ℕ) (path : FieldPath) (o : PyObj)
        → IsMade r
        → IsMade (set_item B C L fuel held r path o).0
    chosen :
        {r : Root B} (path : FieldPath) (name : Option String)
        → IsMade r
        → IsMade (select B C L r path name).0

  IsMade-IsValue : {r : Root B} → IsMade r → IsValue r
  unfolding select
  IsMade-IsValue (created d) = defaults d
  IsMade-IsValue (assigned {r} fuel held path o m) =
      set_item-IsValue fuel held r path o (IsMade-IsValue m)
  IsMade-IsValue (chosen {r} path name m) =
      select_from-IsValue r path name (desc_at r.desc path) (field_at r.field path) refl
        (IsMade-IsValue m)

  get_item-found :
      (descriptor : PvField → FieldDesc) (r : Root B) (path : FieldPath) (d : FieldDesc)
      (t : PvField)
      → desc_at r.desc path ≡ ok d
      → field_at r.field path ≡ some t
      → (o : PyOut) → field_to_py descriptor d t ≡ ok o
      → get_item B descriptor r path ≡ ok (if is_struct d then view path else plain o)
  unfolding get_item or_no_field found
  get_item-found descriptor r path d t h q o k = elim (Bool-cases (is_struct d)) [
    | inl e ↦ rw (h, q, e) refl
    | inr e ↦ rw (h, q, e, k) refl
  ]

  -- However a value was made, by whatever assignments and selections, at each path of its type stands
  -- a value of that path's type, and reading it does not fail: `field_to_py` converts it by that
  -- type, and `item` gives a view where the path's type is a structure, and otherwise what it was
  -- converted to; if no union of the value's type, or of a type that a variant in it carries, has
  -- more than 2^31 members.
  pub IsMade-readable :
      (descriptor : PvField → FieldDesc) (r : Root B) (path : FieldPath) (d : FieldDesc)
      → IsMade r
      → desc_at r.desc path ≡ ok d
      → Narrow r.desc
      → Carries r.field
      → (t : PvField) × (o : PyOut) × (field_at r.field path ≡ some t)
        × Fits d t
        × (field_to_py descriptor d t ≡ ok o)
        × (get_item B descriptor r path ≡ ok (if is_struct d then view path else plain o))
  IsMade-readable descriptor r path d m h narrow carries =
      let (t, q, x, _) = desc_at-HoldsAt path r.desc d r.field (IsMade-IsValue m) h in
      let (o, k) =
        field_to_py-ok descriptor d t x (desc_at-Narrow path r.desc d narrow h)
          (field_at-Carries path r.field t carries q) in
      (t, o, q, x, k, get_item-found descriptor r path d t h q o k)

  set_item-written :
      (fuel held : ℕ) (r : Root B) (path : FieldPath) (o : PyObj) (d : FieldDesc) (t : PvField)
      → desc_at r.desc path ≡ ok d
      → field_at r.field path ≡ some t
      → set_item B C L fuel held r path o
        ≡ written B C L r path
            (assign B L held C fuel d t o r.marks (bit_or_zero (C.bit_for_path r.desc path)))
  unfolding set_item write_to
  set_item-written fuel held r path o d t h q = rw (h, q) refl

  set_item-refused :
      (fuel held : ℕ) (r : Root B) (path : FieldPath) (o : PyObj) (e : FieldError)
      → desc_at r.desc path ≡ err e
      → set_item B C L fuel held r path o ≡ (r, err no_such_field)
  unfolding set_item write_to refused
  set_item-refused fuel held r path o e h = rw h refl

  -- Assigning at a path of the type finds a field there, and does to the value what the assignment does
  -- to that field and no more: the type stays, the new field is found at the path, what stands at a
  -- path that does not lead to it or through it is as it was, and so is every mark outside the bits
  -- of the path's type, and the error is the assignment's. A path that the type does not have, and
  -- only that, is refused and changes nothing.
  pub set_item-at :
      (fuel held : ℕ) (r : Root B) (path : FieldPath) (o : PyObj)
      → IsValue r
      → ((d : FieldDesc) × (t : PvField) × (desc_at r.desc path ≡ ok d)
          × (let start = bit_or_zero (C.bit_for_path r.desc path) in
              let a = assign B L held C fuel d t o r.marks start in
              let out = set_item B C L fuel held r path o in
              (field_at r.field path ≡ some t)
              × (out.0.desc ≡ r.desc)
              × (field_at out.0.field path ≡ some a.target)
              × ((q : FieldPath) → Apart path q → field_at out.0.field q ≡ field_at r.field q)
              × MarksOnly B start (start + C.total_bits d) r.marks out.0.marks
              × (out.1 ≡ ended B a.result)))
        ⊎ ((e : FieldError) × (desc_at r.desc path ≡ err e)
            × (set_item B C L fuel held r path o ≡ (r, err no_such_field)))
  unfolding written
  set_item-at fuel held r path o x = elim (Result-cases (desc_at r.desc path)) [
    | inl (d, h) ↦
        let (t, q, y, put) = desc_at-HoldsAt path r.desc d r.field x h in
        let start = bit_or_zero (C.bit_for_path r.desc path) in
        let fits = assign-Fits B L held C defaults fuel d t o r.marks start y in
        inl (
          d,
          t,
          h,
          rw (set_item-written fuel held r path o d t h q) (
            q,
            refl,
            (put _ fits).1,
            λ p y. put_at-Apart r.field _ y,
            assign-marks B C L held fuel d t o r.marks start,
            refl,
          ),
        )
    | inr (e, h) ↦ inr (e, h, set_item-refused fuel held r path o e h)
  ]
