-- ===== src/PvaFields/Examples.antt =====
-- src/pva/value.rs, the fields of a value: examples.
use repics.Prelude.{Bool, ◌↔◌, ◌≡◌, refl, true, false, ◌||◌, [], ◌∷◌, ok, string_eq}
use repics.Epics.BitSet.{list_bits, holds}
use repics.PvaType.{FieldDesc, scalar, structure, Members, no_members, member, int, double, string}
use repics.PvaFields.{changed_set, to_set, desc_at}
use repics.PvaFields.Listing.{marked_leaf_paths, topmost_paths, nodes}
use repics.PvaFields.Views.{changed_set-lists, StandsBelow, view_bit}
use repics.PvaFields.Plain.{plain_bits, count, bit_from}

abbrev alarm : Members
alarm = member "severity" (scalar int) (member "message" (scalar string) no_members)

abbrev pub scalar_type : FieldDesc
scalar_type =
    structure "epics:nt/NTScalar:1.0"
      (member "value" (scalar double) (member "alarm" (structure "alarm_t" alarm) no_members))

-- Bits: 0 the whole, 1 value, 2 alarm, 3 severity, 4 message.
changed_set_leaves :
    changed_set list_bits plain_bits scalar_type [] (2 ∷ []) true false
    ≡ ok (("alarm" ∷ "severity" ∷ []) ∷ ("alarm" ∷ "message" ∷ []) ∷ [])
unfolding changed_set count bit_from
changed_set_leaves = refl

changed_set_whole : changed_set list_bits plain_bits scalar_type [] (0 ∷ 3 ∷ []) false false ≡ ok []
unfolding changed_set count bit_from
changed_set_whole = refl

alarm_found : desc_at scalar_type ("alarm" ∷ []) ≡ ok (structure "alarm_t" alarm)
unfolding desc_at
alarm_found = refl

changed_set-lists_example :
    (above : Bool) × ((above ≡ true)
      ↔ StandsBelow list_bits plain_bits scalar_type (4 ∷ []) ("alarm" ∷ []))
    × (let bit = view_bit list_bits plain_bits scalar_type ("alarm" ∷ []) in
        let fields = nodes plain_bits (structure "alarm_t" alarm) bit [] [] in
        (changed_set list_bits plain_bits scalar_type ("alarm" ∷ []) (4 ∷ []) true false
          ≡ ok (to_set (marked_leaf_paths list_bits (4 ∷ []) above fields)))
        × ((above || holds (4 ∷ []) bit) ≡ true
            → changed_set list_bits plain_bits scalar_type ("alarm" ∷ []) (4 ∷ []) false false
              ≡ ok [])
        × (above ≡ false
            → changed_set list_bits plain_bits scalar_type ("alarm" ∷ []) (4 ∷ []) false false
              ≡ ok (to_set (topmost_paths list_bits (4 ∷ []) fields))))
changed_set-lists_example =
    changed_set-lists list_bits plain_bits scalar_type ("alarm" ∷ []) (4 ∷ [])
      (structure "alarm_t" alarm) alarm_found
