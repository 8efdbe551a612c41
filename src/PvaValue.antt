-- ===== src/PvaValue.antt =====
-- src/pva/value.rs, `desc_at`, `Root::mark_span`, `changed`: which fields of a value are marked changed.
-- A path is its segments; a view's prefix is part of the path.
pub mod Marks
pub mod Changed
pub mod Examples
use repics.Prelude.{
  ℕ, zero, suc, ◌+◌, ◌≡◌, Bool, true, false, ◌&&◌, ◌||◌, not, String, string_eq, ◌==◌, Option, none,
  some, List, [], ◌∷◌, ◌++◌, Result, ok, err, leb, ltb, if◌then◌else◌,
}
use repics.Epics.BitSet.{BitSetLib}
use repics.Epics.Pvdata.{Pvdata}
use repics.PvaServer.Operation.{Root}

abbrev pub FieldPath : Type 0
FieldPath = List String

-- What the value code asks of a descriptor.
pub record DescLib (P : Pvdata) : Type 0 where
  -- The members, if it is a structure.
  pub fields : P.Desc → Option (List (String × P.Desc))
  pub total_bits : P.Desc → ℕ
  pub bit_for_path : P.Desc → FieldPath → Option ℕ
  -- Every descriptor has a bit of its own, and the whole value has bit 0.
  pub total_bits-pos : (d : P.Desc) → (n : ℕ) × (total_bits d ≡ suc n)
  pub bit_for_path-root : (d : P.Desc) → bit_for_path d [] ≡ some 0

pub data ChangedError : Type 0 where
  no_such_field : FieldPath → ChangedError

find_member : {D : Type 0} → String → List (String × D) → Option D
find_member seg [] = none
find_member seg ((n, d) ∷ ms) = if n == seg then some d else find_member seg ms

module _ (B : BitSetLib) where
  -- `for b in start..end { marks.set(b) }`, by the start and the length.
  pub set_span : B.Bits → ℕ → ℕ → B.Bits
  set_span s start zero = s
  set_span s start (suc n) = B.set (set_span s start n) (start + n)

  -- `marks.iter().filter(|b| *b < start || *b >= end)`, set in a new set.
  keep_outside : List ℕ → ℕ → ℕ → B.Bits → B.Bits
  keep_outside [] start end s = s
  keep_outside (b ∷ bs) start end s =
      keep_outside bs start end (if ltb b start || leb end b then B.set s b else s)

  -- `(start..end).any(|b| marks.get(b))`, by the start and the length.
  any_in : B.Bits → ℕ → ℕ → Bool
  any_in s start zero = false
  any_in s start (suc n) = any_in s start n || B.get s (start + n)

module _ {P : Pvdata} (D : DescLib P) where
  member_at : Option (List (String × P.Desc)) → String → Option P.Desc
  unfolding find_member
  member_at none seg = none
  member_at (some ms) seg = find_member seg ms

  pub desc_at : P.Desc → FieldPath → Option P.Desc
  unfolding member_at
  desc_at d [] = some d
  desc_at d (seg ∷ p) = elim (member_at (D.fields d) seg) [ none ↦ none | some c ↦ desc_at c p ]

  marked_span : Root P → Bool → ℕ → P.Desc → Root P
  unfolding set_span keep_outside
  marked_span r val start sub =
      if val
      then record r { marks = set_span P.bits r.marks start (D.total_bits sub) }
      else record r {
        marks =
            keep_outside P.bits (P.bits.iter r.marks) start (start + D.total_bits sub) P.bits.empty;
      }

  span_at : Root P → FieldPath → Bool → Option P.Desc → Option ℕ → Bool × Root P
  unfolding marked_span
  span_at r path val none start = (false, r)
  span_at r path val (some sub) none = (false, r)
  span_at r path val (some sub) (some start) = (true, marked_span r val start sub)

  pub mark_span : Root P → FieldPath → Bool → Bool × Root P
  unfolding span_at desc_at
  mark_span r path val = span_at r path val (desc_at r.desc path) (D.bit_for_path r.desc path)

  -- Whether a proper prefix of the path that is not empty is marked itself.
  ancestor_marked : Root P → FieldPath → FieldPath → Bool
  ancestor_marked r before [] = false
  ancestor_marked r before (seg ∷ []) = false
  ancestor_marked r before (seg ∷ t ∷ p) =
      let rest = ancestor_marked r (before ++ (seg ∷ [])) (t ∷ p) in
      rest || elim (D.bit_for_path r.desc (before ++ (seg ∷ []))) [
        | none ↦ false
        | some b ↦ P.bits.get r.marks b
      ]

  start_of : Option ℕ → ℕ
  start_of none = 0
  start_of (some b) = b

  -- One turn of the loop of `changed`.
  field_changed : Root P → FieldPath → Option P.Desc → Result ChangedError Bool
  unfolding any_in ancestor_marked start_of
  field_changed r path none = err (no_such_field path)
  field_changed r path (some sub) = ok (
      any_in P.bits r.marks (start_of (D.bit_for_path r.desc path)) (D.total_bits sub)
      || ancestor_marked r [] path
      || P.bits.get r.marks 0)

  any_changed : Root P → List FieldPath → Result ChangedError Bool
  unfolding field_changed
  any_changed r [] = ok false
  any_changed r (p ∷ ps) =
      let rest = any_changed r ps in
      elim (field_changed r p (desc_at r.desc p)) [
        | err e ↦ err e
        | ok true ↦ ok true
        | ok false ↦ rest
      ]

  -- `changed`, on a view with this prefix.
  pub changed : Root P → FieldPath → List FieldPath → Result ChangedError Bool
  unfolding any_changed
  changed r prefix [] = any_changed r (prefix ∷ [])
  changed r prefix (f ∷ fs) = any_changed r (prefixed (f ∷ fs))
    where
      prefixed : List FieldPath → List FieldPath
      prefixed [] = []
      prefixed (p ∷ ps) = (prefix ++ p) ∷ prefixed ps
