-- ===== src/PvaFields/Spans.antt =====
-- src/pva/value.rs, `children`: the bits of the members of a structure.
use Prim.Native.String.{String}
use repics.Prelude.{ℕ, suc, ◌+◌, ◌≡◌, refl, ap, Bool, List, [], ◌∷◌, ◌++◌, arith}
use repics.Epics.BitSet.{BitSetLib}
use repics.PvaType.{FieldDesc, structure, Members, no_members, member}
use repics.PvaFields.{
  FieldPath, BitCount, sum_bits, join, member_bits, children, collect_marked, collect_members,
}

module _ (C : BitCount) where
  -- The members stand one after another from `start` to `end`, each on all the bits of its type.
  abbrev pub Tiles : List (String × FieldDesc × ℕ) → ℕ → ℕ → Type 0
  Tiles [] start end = start ≡ end
  Tiles ((n, d, b) ∷ cs) start end = (b ≡ start) × Tiles cs (start + C.total_bits d) end

  member_bits-Tiles :
      (ms : Members) (b e : ℕ) → b + sum_bits C.total_bits ms ≡ e → Tiles (member_bits C ms b) b e
  unfolding member_bits
  member_bits-Tiles no_members b e h = omega arith
  member_bits-Tiles (member n d ms) b e h =
      (refl, member_bits-Tiles ms (b + C.total_bits d) e (omega arith))

  -- The members of a structure take up the bits after its own and up to the last of its type, one
  -- after another and without a gap or an overlap.
  pub children-Tiles :
      (id : String) (ms : Members) (bit : ℕ)
      → Tiles (children C (structure id ms) bit) (suc bit) (bit + C.total_bits (structure id ms))
  unfolding children
  children-Tiles id ms bit =
      member_bits-Tiles ms (suc bit) _ (omega (arith, C.total_bits-structure id ms))

module _ (B : BitSetLib) (C : BitCount) (marks : B.Bits) where
  -- The loop over the members, each with its bit.
  each_child : FieldPath → Bool → Bool → List (String × FieldDesc × ℕ) → List FieldPath
  unfolding collect_marked
  each_child path i x [] = []
  each_child path i x ((n, d, b) ∷ cs) =
      collect_marked B C d b (join path n) marks i x ++ each_child path i x cs

  each_child-member_bits :
      (path : FieldPath) (i x : Bool) (ms : Members) (b : ℕ)
      → collect_members B C ms b path marks i x ≡ each_child path i x (member_bits C ms b)
  unfolding collect_marked each_child member_bits
  each_child-member_bits path i x no_members b = refl
  each_child-member_bits path i x (member n d ms) b =
      ap (λ ps. collect_marked B C d b (join path n) marks i x ++ ps)
        (each_child-member_bits path i x ms (b + C.total_bits d))

  collect_members-children :
      (id : String) (ms : Members) (bit : ℕ) (path : FieldPath) (i x : Bool)
      → collect_members B C ms (suc bit) path marks i x
        ≡ each_child path i x (children C (structure id ms) bit)
  unfolding children
  collect_members-children id ms bit path i x = each_child-member_bits path i x ms (suc bit)
