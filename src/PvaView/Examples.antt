-- ===== src/PvaView/Examples.antt =====
-- src/pva/value.rs, `Value`: examples.
use repics.Prelude.{◌≤◌, arith, ◌+◌, ◌≡◌, refl, ◌⊎◌, [], ◌∷◌, some, ok, err}
use repics.Epics.BitSet.{list_bits}
use repics.PvaType.{FieldDesc, structure, scalar, double, union, member, no_members, string}
use repics.PvaFields.{desc_at, FieldPath, FieldError, is_struct}
use repics.PvaView.Paths.{Apart}
use repics.PvaToPy.{PyOut, field_to_py}
use repics.PvaToPy.Fitting.{Narrow, Carries, member_count}
use repics.PvaFields.Plain.{plain_bits, count, bit_from}
use repics.PvaAssign.{py_float, PvField}
use repics.PvaAssign.Run.{assign}
use repics.PvaAssign.Run.Fits.{Fits}
use repics.PvaAssign.Run.Marks.{MarksOnly}
use repics.PvaAssign.Run.Plain.{plain_assign, zero_field, zero-Fits}
use repics.PvaView.{
  Root, plain, no_such_field, field_at, get_item, set_item, select, bit_or_zero, ended,
}
use repics.PvaView.Operations.{IsMade, created, assigned, chosen, IsMade-readable, set_item-at}

abbrev choice : FieldDesc
choice = union "" (member "number" (scalar double) (member "text" (scalar string) no_members))

abbrev sample_type : FieldDesc
sample_type = structure "" (
    member "value" (scalar double)
      (member "meta" (structure "" (member "extra" choice no_members)) no_members))

abbrev fresh : Root list_bits
fresh = record {
  desc = sample_type;
  field = plain_assign.default_value_for sample_type;
  marks = [];
}

abbrev extra : FieldPath
extra = "meta" ∷ "extra" ∷ []

abbrev with_text : Root list_bits
with_text = (select list_bits plain_bits plain_assign fresh extra (some "text")).0

abbrev with_number : Root list_bits
with_number =
    (set_item list_bits plain_bits plain_assign 9 0 with_text ("value" ∷ []) (py_float 5)).0

with_number-IsMade : IsMade list_bits plain_assign plain_bits zero-Fits with_number
with_number-IsMade =
    assigned 9 0 ("value" ∷ []) (py_float 5) (chosen extra (some "text") (created sample_type))

marks_both : with_number.marks ≡ 1 ∷ 3 ∷ []
unfolding select set_item assign zero_field count bit_from
marks_both = refl

extra_found : desc_at with_number.desc extra ≡ ok choice
unfolding select set_item assign zero_field count bit_from desc_at
extra_found = refl

abbrev any_type : PvField → FieldDesc
any_type f = scalar string

two_members : 2 ≤ 2147483648
two_members = omega arith

narrow : Narrow with_number.desc
unfolding Narrow member_count select set_item assign zero_field count bit_from
narrow = (tt, (((two_members, (tt, (tt, tt))), tt), tt))

carries : Carries with_number.field
unfolding Carries select set_item assign zero_field count bit_from
carries = (tt, ((tt, tt), tt))

IsMade-readable_example :
    (t : PvField) × (o : PyOut) × (field_at with_number.field extra ≡ some t)
    × Fits choice t
    × (field_to_py any_type choice t ≡ ok o)
    × (get_item list_bits any_type with_number extra ≡ ok (plain o))
unfolding is_struct
IsMade-readable_example =
    IsMade-readable list_bits plain_assign plain_bits zero-Fits any_type with_number extra choice
      with_number-IsMade extra_found narrow carries

set_item-at_example :
    ((d : FieldDesc) × (t : PvField) × (desc_at sample_type extra ≡ ok d)
      × (let start = bit_or_zero (plain_bits.bit_for_path sample_type extra) in
          let a = assign list_bits plain_assign 0 plain_bits 9 d t (py_float 5) [] start in
          let out = set_item list_bits plain_bits plain_assign 9 0 fresh extra (py_float 5) in
          (field_at fresh.field extra ≡ some t)
          × (out.0.desc ≡ sample_type)
          × (field_at out.0.field extra ≡ some a.target)
          × ((q : FieldPath) → Apart extra q → field_at out.0.field q ≡ field_at fresh.field q)
          × MarksOnly list_bits start (start + plain_bits.total_bits d) [] out.0.marks
          × (out.1 ≡ ended list_bits a.result)))
    ⊎ ((e : FieldError) × (desc_at sample_type extra ≡ err e)
        × (set_item list_bits plain_bits plain_assign 9 0 fresh extra (py_float 5)
            ≡ (fresh, err no_such_field)))
set_item-at_example =
    set_item-at list_bits plain_assign plain_bits zero-Fits 9 0 fresh extra (py_float 5)
      (zero-Fits sample_type)
