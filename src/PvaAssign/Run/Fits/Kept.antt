-- ===== src/PvaAssign/Run/Fits/Kept.antt =====
-- src/pva/value.rs, `assign`: a field keeps to its descriptor.
use Prim.Native.String.{String}
use repics.Prelude.{
  ℕ, zero, suc, ◌+◌, ◌≡◌, refl, sym, Bool, true, false, Option, none, some, Result, ok, err,
  string_eq, ◌==◌, if◌then◌else◌,
}
use repics.Epics.BitSet.{BitSetLib}
use repics.PvaType.{FieldDesc, structure, Members, member}
use repics.PvaFields.{BitCount, children, member_bits}
use repics.PvaAssign.{
  PyObj, Entries, no_entries, entry, PvField, NamedFields, field, Failure, AssignLib,
}
use repics.PvaAssign.Run.{
  Progress, Assign, get_field, set_field, find_child, text_of, value_for, store, stopped,
  in_structure, set_member, to_member, with_key, proceed, assign_entries, assign_structure, dict_of,
  assign_step, assign,
}
use repics.PvaAssign.Run.Fits.{Fits, structure_fit, FitsMembers, no_member, and_member}
use repics.PvaAssign.Run.Fits.Built.{Keeps, DefaultsFit, value_for-Fits}

-- One step of the search for a member by name, in the type and in the fields at once.
head-Fits :
    (same : Bool) (n : String) (d e : FieldDesc) (b c : ℕ) (f t : PvField) (ms : Members)
    (fs : NamedFields) (r : Option (FieldDesc × ℕ)) (s : Option PvField)
    (put : PvField → NamedFields)
    → Fits d f
    → FitsMembers ms fs
    → (r ≡ some (e, c)
        → s ≡ some t
        → Fits e t × ((g : PvField) → Fits e g → FitsMembers ms (put g)))
    → (if same then some (d, b) else r) ≡ some (e, c)
    → (if same then some f else s) ≡ some t
    → Fits e t
      × ((g : PvField)
          → Fits e g
          → FitsMembers (member n d ms) (if same then field n g fs else field n f (put g)))
head-Fits true n d e b c f t ms fs r s put x xs later h q =
    let p : d ≡ e = cc in let u : f ≡ t = cc in (rw (sym p, sym u) x, λ g y. and_member (rw p y) xs)
head-Fits false n d e b c f t ms fs r s put x xs later h q =
    let (y, ys) = later h q in (y, λ g z. and_member x (ys g z))

member-Fits :
    (C : BitCount) (key : String) {ms : Members} {fs : NamedFields} (b c : ℕ) (e : FieldDesc)
    (t : PvField)
    → FitsMembers ms fs
    → find_child key (member_bits C ms b) ≡ some (e, c)
    → get_field key fs ≡ some t
    → Fits e t × ((g : PvField) → Fits e g → FitsMembers ms (set_field key g fs))
unfolding find_child get_field set_field member_bits
member-Fits C key b c e t no_member h q = cc
member-Fits C key b c e t (and_member {n} {d} {f} {ms} {fs} x xs) h q =
    head-Fits (n == key) n d e b c f t ms fs _ _ (λ g. set_field key g fs) x xs
      (member-Fits C key (b + C.total_bits d) c e t xs) h q

module _ (B : BitSetLib) (L : AssignLib) (held : ℕ) where
  module _ (rec : Assign B) (defaults : DefaultsFit L) (keeps : Keeps B L held rec) where
    module _ (C : BitCount) where
      to_member-Fits :
          (ms : Members) (b : ℕ) (key : String) (c : Option (FieldDesc × ℕ)) (t : Option PvField)
          (fs : NamedFields) (v : PyObj) (marks : B.Bits)
          → find_child key (member_bits C ms b) ≡ c
          → get_field key fs ≡ t
          → FitsMembers ms fs
          → FitsMembers ms (to_member B rec key c t fs v marks).fields
      unfolding to_member stopped set_member
      to_member-Fits ms b key none t fs v marks h q x = x
      to_member-Fits ms b key (some (d, i)) none fs v marks h q x = x
      to_member-Fits ms b key (some (d, i)) (some t) fs v marks h q x =
          let (y, put) = member-Fits C key b i d t x h q in
          put (rec d t v marks i).target (keeps d t v marks i y)

      with_key-Fits :
          (ms : Members) (b : ℕ) (k : Result Failure String) (fs : NamedFields) (v : PyObj)
          (marks : B.Bits)
          → FitsMembers ms fs
          → FitsMembers ms (with_key B rec (member_bits C ms b) fs k v marks).fields
      unfolding with_key stopped
      with_key-Fits ms b (err e) fs v marks x = x
      with_key-Fits ms b (ok key) fs v marks x =
          to_member-Fits ms b key (find_child key (member_bits C ms b)) (get_field key fs) fs v
            marks refl refl x

      proceed-Fits :
          (ms : Members) (r : Result Failure Unit) (p next : Progress B)
          → FitsMembers ms p.fields
          → FitsMembers ms next.fields
          → FitsMembers ms (proceed B r p next).fields
      unfolding proceed
      proceed-Fits ms (err e) p next x y = x
      proceed-Fits ms (ok u) p next x y = y

      assign_entries-Fits :
          (ms : Members) (b : ℕ) (es : Entries) (p : Progress B)
          → FitsMembers ms p.fields
          → FitsMembers ms (assign_entries B rec (member_bits C ms b) es p).fields
      unfolding assign_entries
      assign_entries-Fits ms b no_entries p x = x
      assign_entries-Fits ms b (entry k v es) p x = proceed-Fits ms p.result p _ x (
          assign_entries-Fits ms b es
            (with_key B rec (member_bits C ms b) p.fields (text_of k) v p.marks)
            (with_key-Fits ms b (text_of k) p.fields v p.marks x))

      assign_structure-Fits :
          (id : String) (ms : Members) (b : ℕ) (r : Result Failure Entries) (t : PvField)
          (marks : B.Bits)
          → Fits (structure id ms) t
          → Fits (structure id ms) (assign_structure B rec (member_bits C ms b) r t marks).target
      unfolding assign_structure in_structure
      assign_structure-Fits id ms b (err e) t marks x = x
      assign_structure-Fits id ms b (ok es) _ marks (structure_fit {fs} x) = structure_fit (
          assign_entries-Fits ms b es
            (record { fields = fs; marks = marks; result = ok (record {}) }) x)

      store-Fits :
          (d : FieldDesc) (r : Result Failure PvField) (t : PvField) (marks : B.Bits) (bit : ℕ)
          → ((f : PvField) → r ≡ ok f → Fits d f)
          → Fits d t
          → Fits d (store B r t marks bit).target
      unfolding store
      store-Fits d (err e) t marks bit h x = x
      store-Fits d (ok f) t marks bit h x = h f refl

      assign_step-Fits : Keeps B L held (assign_step B L held C rec)
      unfolding assign_step children
      assign_step-Fits (structure id ms) t o marks bit x =
          assign_structure-Fits id ms (suc bit) (dict_of held o) t marks x
      assign_step-Fits d t o marks bit x =
          store-Fits d (value_for B L held rec d o) t marks bit
            (value_for-Fits B L held rec defaults keeps d o) x

  -- Assigning leaves a field that is a value of its descriptor's type such a value, whatever the
  -- object is, where the assignment stops, and however deep the recursion is let go.
  pub assign-Fits :
      (C : BitCount)
      → DefaultsFit L
      → (f : ℕ) (d : FieldDesc) (t : PvField) (o : PyObj) (marks : B.Bits) (bit : ℕ) → Fits d t
      → Fits d (assign B L held C f d t o marks bit).target
  unfolding assign
  assign-Fits C defaults zero d t o marks bit x = x
  assign-Fits C defaults (suc f) d t o marks bit x =
      assign_step-Fits (assign B L held C f) defaults (assign-Fits C defaults f) C d t o marks bit x
