-- ===== src/PvaAssign/Run/Examples.antt =====
-- src/pva/value.rs, `assign`: examples.
use repics.Prelude.{◌+◌, ◌≤◌, ◌≡◌, refl, arith, ◌⊎◌, [], ◌∷◌, none, ok, err}
use repics.Prelude.Int.{pos, negsuc}
use repics.Epics.BitSet.{list_bits}
use repics.PvaType.{
  FieldDesc, scalar, variant, structure, union, Members, no_members, member, int, byte, double,
  string,
}
use repics.PvaFields.{is_struct}
use repics.PvaFields.Plain.{plain_bits, count}
use repics.PvaScalar.{int_value, byte_value}
use repics.PvaAssign.{
  PyObj, py_int, py_str, py_dict, py_tuple, py_value, no_objs, obj, no_entries, entry, PvField,
  scalar_value, structure_value, variant_value, null, no_fields, field, Failure, raised,
  no_such_member, cannot_infer, blocked, too_deep,
}
use repics.PvaAssign.Run.{Outcome, assign}
use repics.PvaAssign.Run.Fits.{Fits}
use repics.PvaAssign.Run.Fits.Kept.{assign-Fits}
use repics.PvaAssign.Run.Marks.{MarksOnly, assign-marks}
use repics.PvaAssign.Run.Depth.{Shallow, fuel_for, weight, size, structures_only}
use repics.PvaAssign.Run.Depth.Returns.{assign-Shallow}
use repics.PvaAssign.Run.Refusals.{
  unchanged, assign-own_view, assign-dict_in_union, assign-variant_in_variant,
  assign-all_or_nothing, Sets, Fails,
}
use repics.PvaAssign.Run.Plain.{plain_assign, zero_field, zero-Fits}

abbrev alarm : Members
alarm = member "severity" (scalar int) (member "status" (scalar byte) no_members)

abbrev start_value : PvField
start_value = plain_assign.default_value_for (structure "alarm_t" alarm)

abbrev both : PyObj
both = py_dict (
    entry (py_str "status") (py_int (pos 200))
      (entry (py_str "severity") (py_int (pos 3)) no_entries))

-- The second key is unknown; the first one's assignment stays.
abbrev half_known : PyObj
half_known = py_dict (
    entry (py_str "severity") (py_int (pos 3)) (entry (py_str "color") (py_int (pos 1)) no_entries))

abbrev run : FieldDesc → PvField → PyObj → Outcome list_bits
run d t o = assign list_bits plain_assign 7 plain_bits 9 d t o [] 2

assigns_both : run (structure "alarm_t" alarm) start_value both ≡ record {
  target = structure_value (
      field "severity"
        (scalar_value (int_value (pos 3)))
        (field "status" (scalar_value (byte_value (negsuc 55))) no_fields));
  marks = 3 ∷ 4 ∷ [];
  result = ok (record {});
}
unfolding assign zero_field count
assigns_both = refl

stops_half_way : run (structure "alarm_t" alarm) start_value half_known ≡ record {
  target = structure_value (
      field "severity"
        (scalar_value (int_value (pos 3)))
        (field "status" (scalar_value (byte_value (pos 0))) no_fields));
  marks = 3 ∷ [];
  result = err (raised (no_such_member "color"));
}
unfolding assign zero_field count
stops_half_way = refl

abbrev number_or_text : FieldDesc
number_or_text =
    union "" (member "number" (scalar double) (member "text" (scalar string) no_members))

picks_by_name :
    (run number_or_text
      (plain_assign.default_value_for number_or_text)
      (py_tuple (obj (py_str "text") (obj (py_int (pos 5)) no_objs)))).marks
    ≡ 2 ∷ []
unfolding assign zero_field count
picks_by_name = refl

assign-Fits_example :
    Fits (structure "alarm_t" alarm) (run (structure "alarm_t" alarm) start_value half_known).target
assign-Fits_example =
    assign-Fits list_bits plain_assign 7 plain_bits zero-Fits 9 (structure "alarm_t" alarm)
      start_value half_known [] 2 (zero-Fits (structure "alarm_t" alarm))

assign-marks_example :
    MarksOnly list_bits 2
      (2 + plain_bits.total_bits (structure "alarm_t" alarm))
      []
      (run (structure "alarm_t" alarm) start_value both).marks
assign-marks_example =
    assign-marks list_bits plain_bits plain_assign 7 9 (structure "alarm_t" alarm) start_value both
      [] 2

enough : fuel_for (structure "alarm_t" alarm) both ≤ 9
unfolding fuel_for weight size
enough = omega arith

assign-Shallow_example : Shallow (run (structure "alarm_t" alarm) start_value both).result
unfolding structures_only
assign-Shallow_example =
    assign-Shallow list_bits plain_assign 7 plain_bits 9 (structure "alarm_t" alarm) start_value
      both [] 2 refl enough

assign-own_view_example :
    run (structure "alarm_t" alarm) start_value (py_value 7 (structure "alarm_t" alarm) no_entries)
    ≡ unchanged list_bits plain_assign 7 plain_bits start_value [] blocked
assign-own_view_example =
    assign-own_view list_bits plain_assign 7 plain_bits (structure "alarm_t" alarm) no_entries 8
      (structure "alarm_t" alarm) start_value [] 2 refl

assign-dict_in_union_example :
    run (union "" (member "a" (structure "alarm_t" alarm) no_members)) null both
    ≡ unchanged list_bits plain_assign 7 plain_bits null [] (raised cannot_infer)
assign-dict_in_union_example =
    assign-dict_in_union list_bits plain_assign 7 plain_bits 8 ""
      (member "a" (structure "alarm_t" alarm) no_members) null
      (entry (py_str "status") (py_int (pos 200))
        (entry (py_str "severity") (py_int (pos 3)) no_entries))
      [] 2

assign-variant_in_variant_example :
    run variant (variant_value none null) (py_value 3 variant no_entries)
    ≡ unchanged list_bits plain_assign 7 plain_bits (variant_value none null) [] too_deep
assign-variant_in_variant_example =
    assign-variant_in_variant list_bits plain_assign 7 plain_bits 9 3 no_entries
      (variant_value none null) [] 2 refl

assign-all_or_nothing_example :
    ((g : PvField) × Sets list_bits plain_assign 7 plain_bits 9 number_or_text (py_str "x") g)
    ⊎ ((e : Failure) × Fails list_bits plain_assign 7 plain_bits 9 number_or_text (py_str "x") e)
unfolding is_struct
assign-all_or_nothing_example =
    assign-all_or_nothing list_bits plain_assign 7 plain_bits 9 number_or_text (py_str "x") refl
