-- ===== src/PvaAssign/Run/Marks.antt =====
-- src/pva/value.rs, `assign`: what it marks.
use Prim.Native.String.{String}
use repics.Prelude.{
  ℕ, zero, suc, ◌+◌, ◌≤◌, ◌<◌, ◌≡◌, refl, ap, ◌∙◌, ◌⊎◌, inl, inr, true, eqb, arith, Option, none,
  some, Result, ok, err, string_eq, ◌==◌, if-split, Bool-cases,
}
use repics.Epics.BitSet.{BitSetLib}
use repics.PvaType.{FieldDesc, structure, Members, no_members, member}
use repics.PvaFields.{BitCount, sum_bits, children, member_bits}
use repics.PvaAssign.{
  PyObj, Entries, no_entries, entry, PvField, structure_value, NamedFields, Failure, AssignLib,
}
use repics.PvaAssign.Run.{
  Progress, Assign, get_field, find_child, text_of, value_for, store, stopped, in_structure,
  set_member, to_member, with_key, proceed, assign_entries, assign_structure, dict_of, assign_step,
  assign,
}

module _ (B : BitSetLib) where
  -- Every mark is as it was, or it lies in the span and is set.
  abbrev pub MarksOnly : ℕ → ℕ → B.Bits → B.Bits → Type 0
  MarksOnly low high m n =
      (b : ℕ) → (B.get n b ≡ B.get m b) ⊎ ((low ≤ b) × (b < high) × (B.get n b ≡ true))

  MarksOnly-refl : (low high : ℕ) (m : B.Bits) → MarksOnly low high m m
  MarksOnly-refl low high m b = inl refl

  MarksOnly-trans :
      (low high : ℕ) (m n k : B.Bits)
      → MarksOnly low high m n
      → MarksOnly low high n k
      → MarksOnly low high m k
  MarksOnly-trans low high m n k h q b = elim (q b) [
    | inr x ↦ inr x
    | inl e ↦ elim (h b) [ inl u ↦ inl (e ∙ u) | inr (x, y, u) ↦ inr (x, y, e ∙ u) ]
  ]

  MarksOnly-widen :
      (low high low' high' : ℕ) (m n : B.Bits)
      → low' ≤ low
      → high ≤ high'
      → MarksOnly low high m n
      → MarksOnly low' high' m n
  MarksOnly-widen low high low' high' m n u v h b = elim (h b) [
    | inl e ↦ inl e
    | inr (x, y, e) ↦ inr (omega arith, omega arith, e)
  ]

  MarksOnly-set :
      (low high bit : ℕ) (m : B.Bits) → low ≤ bit → bit < high → MarksOnly low high m (B.set m bit)
  MarksOnly-set low high bit m u v b = elim (Bool-cases (eqb bit b)) [
    | inl e ↦ inr (ground arith, ground arith, ground (arith, B.get-set m bit b))
    | inr e ↦ inl (ground (arith, B.get-set m bit b))
  ]

find_child-span :
    (C : BitCount) (key : String) (ms : Members) (b i : ℕ) (d : FieldDesc)
    → find_child key (member_bits C ms b) ≡ some (d, i)
    → (b ≤ i) × (i + C.total_bits d ≤ b + sum_bits C.total_bits ms)
unfolding find_child member_bits
find_child-span C key no_members b i d h = cc
find_child-span C key (member n e ms) b i d h =
    if-split (n == key) (some (e, b)) (find_child key (member_bits C ms (b + C.total_bits e)))
      (λ y q.
        let i_eq : b ≡ i = cc in
        let d_eq : e ≡ d = cc in
        let t_eq : C.total_bits e ≡ C.total_bits d = ap C.total_bits d_eq in
        (omega arith, omega arith))
      (λ y q.
        let (u, v) = find_child-span C key ms (b + C.total_bits e) i d q in
        (omega arith, omega arith))
      h

module _ (B : BitSetLib) (C : BitCount) where
  -- What the calls of `assign` inside a call mark.
  abbrev pub MarksSpan : Assign B → Type 0
  MarksSpan rec =
      (d : FieldDesc) (t : PvField) (o : PyObj) (marks : B.Bits) (bit : ℕ)
      → MarksOnly B bit (bit + C.total_bits d) marks (rec d t o marks bit).marks

  module _ (rec : Assign B) (spans : MarksSpan rec) where
    to_member-marks :
        (ms : Members) (low high : ℕ) (key : String) (c : Option (FieldDesc × ℕ))
        (t : Option PvField) (fs : NamedFields) (v : PyObj) (marks : B.Bits)
        → low + sum_bits C.total_bits ms ≤ high
        → find_child key (member_bits C ms low) ≡ c
        → MarksOnly B low high marks (to_member B rec key c t fs v marks).marks
    unfolding to_member stopped set_member
    to_member-marks ms low high key none t fs v marks u h = MarksOnly-refl B low high marks
    to_member-marks ms low high key (some (d, i)) none fs v marks u h =
        MarksOnly-refl B low high marks
    to_member-marks ms low high key (some (d, i)) (some t) fs v marks u h =
        let (x, y) = find_child-span C key ms low i d h in
        MarksOnly-widen B i (i + C.total_bits d) low high marks _ x (omega arith)
          (spans d t v marks i)

    with_key-marks :
        (ms : Members) (low high : ℕ) (k : Result Failure String) (fs : NamedFields) (v : PyObj)
        (marks : B.Bits)
        → low + sum_bits C.total_bits ms ≤ high
        → MarksOnly B low high marks (with_key B rec (member_bits C ms low) fs k v marks).marks
    unfolding with_key stopped
    with_key-marks ms low high (err e) fs v marks u = MarksOnly-refl B low high marks
    with_key-marks ms low high (ok key) fs v marks u =
        to_member-marks ms low high key (find_child key (member_bits C ms low)) (get_field key fs)
          fs v marks u refl

    proceed-marks :
        (low high : ℕ) (r : Result Failure Unit) (p next : Progress B)
        → MarksOnly B low high p.marks next.marks
        → MarksOnly B low high p.marks (proceed B r p next).marks
    unfolding proceed
    proceed-marks low high (err e) p next h = MarksOnly-refl B low high p.marks
    proceed-marks low high (ok u) p next h = h

    assign_entries-marks :
        (ms : Members) (low high : ℕ) (es : Entries) (p : Progress B)
        → low + sum_bits C.total_bits ms ≤ high
        → MarksOnly B low high p.marks (assign_entries B rec (member_bits C ms low) es p).marks
    unfolding assign_entries
    assign_entries-marks ms low high no_entries p u = MarksOnly-refl B low high p.marks
    assign_entries-marks ms low high (entry k v es) p u =
        let next = with_key B rec (member_bits C ms low) p.fields (text_of k) v p.marks in
        proceed-marks low high p.result p _ (
          MarksOnly-trans B low high p.marks next.marks _
            (with_key-marks ms low high (text_of k) p.fields v p.marks u)
            (assign_entries-marks ms low high es next u))

    assign_structure-marks :
        (ms : Members) (low high : ℕ) (r : Result Failure Entries) (t : PvField) (marks : B.Bits)
        → low + sum_bits C.total_bits ms ≤ high
        → MarksOnly B low high marks (assign_structure B rec (member_bits C ms low) r t marks).marks
    unfolding assign_structure in_structure
    assign_structure-marks ms low high (err e) t marks u = MarksOnly-refl B low high marks
    assign_structure-marks ms low high (ok es) (structure_value fs) marks u =
        assign_entries-marks ms low high es
          (record { fields = fs; marks = marks; result = ok (record {}) }) u
    assign_structure-marks ms low high (ok es) t marks u = MarksOnly-refl B low high marks

    store-marks :
        (r : Result Failure PvField) (t : PvField) (marks : B.Bits) (bit high : ℕ)
        → bit < high
        → MarksOnly B bit high marks (store B r t marks bit).marks
    unfolding store
    store-marks (err e) t marks bit high u = MarksOnly-refl B bit high marks
    store-marks (ok f) t marks bit high u = MarksOnly-set B bit high bit marks (omega arith) u

    assign_step-marks : (L : AssignLib) (held : ℕ) → MarksSpan (assign_step B L held C rec)
    unfolding assign_step children
    assign_step-marks L held (structure id ms) t o marks bit =
        MarksOnly-widen B (suc bit) (bit + C.total_bits (structure id ms)) bit _ marks _
          (omega arith) (omega arith)
          (assign_structure-marks ms (suc bit) _ (dict_of held o) t marks
            (omega (arith, C.total_bits-structure id ms)))
    assign_step-marks L held d t o marks bit =
        store-marks (value_for B L held rec d o) t marks bit _ (omega (arith, C.total_bits-pos d))

  -- Assigning to a field leaves every mark outside the span of the field's bits as it was and clears
  -- none inside it, whatever the object is and wherever the assignment stops.
  pub assign-marks :
      (L : AssignLib) (held f : ℕ) (d : FieldDesc) (t : PvField) (o : PyObj) (marks : B.Bits)
      (bit : ℕ)
      → MarksOnly B bit (bit + C.total_bits d) marks (assign B L held C f d t o marks bit).marks
  unfolding assign
  assign-marks L held zero d t o marks bit = MarksOnly-refl B bit (bit + C.total_bits d) marks
  assign-marks L held (suc f) d t o marks bit =
      assign_step-marks (assign B L held C f) (assign-marks L held f) L held d t o marks bit
