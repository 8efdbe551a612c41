-- ===== src/PvaFields/Plain.antt =====
-- src/pva/value.rs, the fields of a value: the counting of bits can be met.
use Prim.Native.String.{String}
use repics.Prelude.{
  ℕ, suc, ◌+◌, ◌<◌, ◌≡◌, refl, arith, [], ◌∷◌, Option, none, some, if◌then◌else◌, string_eq, ◌==◌,
}
use repics.PvaType.{FieldDesc, structure, Members, no_members, member}
use repics.PvaFields.{FieldPath, BitCount, sum_bits}

-- One bit for each field, a structure's own first.
unfoldable mutual
  pub count : FieldDesc → ℕ
  count (structure id ms) = suc (count_members ms)
  count _ = 1

  pub count_members : Members → ℕ
  count_members no_members = 0
  count_members (member n d ms) = count d + count_members ms

pub count_members-sum : (ms : Members) → count_members ms ≡ sum_bits count ms
unfolding count
count_members-sum no_members = refl
count_members-sum (member n d ms) = omega (arith, count_members-sum ms)

pub count-structure :
    (id : String) (ms : Members) → count (structure id ms) ≡ suc (sum_bits count ms)
unfolding count
count-structure id ms = omega (arith, count_members-sum ms)

pub count-pos : (d : FieldDesc) → 0 < count d
unfolding count
count-pos (structure id ms) = omega arith
count-pos d = omega arith

-- The member's bit and type, where the members start at `b`.
unfoldable pub locate : String → Members → ℕ → Option (FieldDesc × ℕ)
unfolding count
locate k no_members b = none
locate k (member n d ms) b = if n == k then some (d, b) else locate k ms (b + count d)

unfoldable pub locate_in : String → FieldDesc → ℕ → Option (FieldDesc × ℕ)
unfolding locate
locate_in k (structure id ms) b = locate k ms (suc b)
locate_in k d b = none

unfoldable pub bit_from : FieldDesc → FieldPath → ℕ → Option ℕ
unfolding locate_in
bit_from d [] b = some b
bit_from d (k ∷ p) b = elim (locate_in k d b) [ none ↦ none | some (c, i) ↦ bit_from c p i ]

pub bit_from-root : (d : FieldDesc) → bit_from d [] 0 ≡ some 0
unfolding bit_from
bit_from-root d = refl

abbrev pub plain_bits : BitCount
plain_bits = record {
  total_bits = count;
  total_bits-pos = count-pos;
  bit_for_path = λ d p. bit_from d p 0;
  bit_for_path-root = bit_from-root;
  total_bits-structure = count-structure;
}
