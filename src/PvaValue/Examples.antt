-- ===== src/PvaValue/Examples.antt =====
-- A structure of two fields, marked and asked.
use repics.Prelude.{
  ℕ, suc, ◌<◌, ◌≡◌, refl, true, false, String, string_eq, ◌==◌, Option, none, some, List, [], ◌∷◌,
  ok, eqb, if◌then◌else◌, Bool-cases, inl, inr, arith,
}
use repics.Epics.BitSet.{holds}
use repics.Epics.Pvdata.{plain_pvdata}
use repics.PvaServer.Operation.{Root}
use repics.PvaValue.{FieldPath, DescLib, desc_at, mark_span, changed}
use repics.PvaValue.Changed.{changed-mark_span}

abbrev members : ℕ → Option (List (String × ℕ))
members d = if eqb d 3 then some (("a", 1) ∷ ("b", 1) ∷ []) else none

abbrev bits_of : ℕ → ℕ
bits_of d = if eqb d 3 then 3 else 1

abbrev bit_of : ℕ → List String → Option ℕ
bit_of d [] = some 0
bit_of d (seg ∷ p) = if seg == "a" then some 1 else if seg == "b" then some 2 else none

bits_of-suc : (d : ℕ) → (n : ℕ) × (bits_of d ≡ suc n)
bits_of-suc d = elim (Bool-cases (eqb d 3)) [
  | inl h ↦ (2, ground (arith, h))
  | inr h ↦ (0, ground (arith, h))
]

abbrev descriptors : DescLib plain_pvdata
descriptors = record {
  fields = members;
  total_bits = bits_of;
  bit_for_path = bit_of;
  total_bits-pos = bits_of-suc;
  bit_for_path-root = λ d. refl;
}

abbrev root : Root plain_pvdata
root = record { desc = 3; field = 10; marks = 1 ∷ [] }

marks_fit : (b : ℕ) → holds root.marks b ≡ true → b < bits_of root.desc
marks_fit b h = ground arith

changed-mark_span_example :
    ((path : FieldPath)
      → (mark_span descriptors root path true).0 ≡ true
      → changed descriptors (mark_span descriptors root path true).1 [] (path ∷ []) ≡ ok true)
    × ((path : FieldPath) (sub : ℕ)
        → desc_at descriptors root.desc path ≡ some sub
        → changed descriptors (mark_span descriptors root [] false).1 [] (path ∷ []) ≡ ok false)
changed-mark_span_example = changed-mark_span descriptors root marks_fit
