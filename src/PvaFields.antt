-- ===== src/PvaFields.antt =====
-- src/pva/value.rs, the fields of a value with their bits: `children`, `collect_marked`,
-- `changedSet`, `marked_leaves`.
-- A path is its segments; a member's name holds no dot.
pub mod Listing
pub mod Views
pub mod Spans
pub mod Plain
pub mod Examples
use Prim.Native.String.{String}
use repics.Prelude.{
  ℕ, suc, ◌+◌, ◌<◌, ◌≡◌, Bool, true, false, ◌&&◌, ◌||◌, not, List, [], ◌∷◌, ◌++◌, if◌then◌else◌,
  Option, none, some, Result, ok, err, ◌>>=◌, Eq, string_eq, list_eq, ◌==◌,
}
use repics.Epics.BitSet.{BitSetLib}
use repics.PvaType.{FieldDesc, structure, Members, no_members, member}

abbrev pub FieldPath : Type 0
FieldPath = List String

-- The bits of the members together, each counted by `t`.
abbrev pub sum_bits : (FieldDesc → ℕ) → Members → ℕ
sum_bits t no_members = 0
sum_bits t (member n d ms) = t d + sum_bits t ms

-- `FieldDesc::total_bits`: a structure has a bit of its own before those of its members.
pub record BitCount : Type 0 where
  pub total_bits : FieldDesc → ℕ
  pub total_bits-pos : (d : FieldDesc) → 0 < total_bits d
  -- The bit of the field at a path; the whole value has bit 0.
  pub bit_for_path : FieldDesc → FieldPath → Option ℕ
  pub bit_for_path-root : (d : FieldDesc) → bit_for_path d [] ≡ some 0
  pub total_bits-structure :
      (id : String) (ms : Members) → total_bits (structure id ms) ≡ suc (sum_bits total_bits ms)

pub data FieldError : Type 0 where
  -- `KeyError`
  view_path_vanished : FieldError

unfoldable pub members_of : FieldDesc → Members
members_of (structure id ms) = ms
members_of _ = no_members

unfoldable pub find_member : Members → String → Option FieldDesc
find_member no_members seg = none
find_member (member n d ms) seg = if n == seg then some d else find_member ms seg

unfoldable pub desc_at : FieldDesc → FieldPath → Result FieldError FieldDesc
unfolding members_of find_member
desc_at d [] = ok d
desc_at d (seg ∷ p) = elim (find_member (members_of d) seg) [
  | none ↦ err view_path_vanished
  | some c ↦ desc_at c p
]

unfoldable pub is_struct : FieldDesc → Bool
is_struct (structure id ms) = true
is_struct _ = false

unfoldable pub join : FieldPath → String → FieldPath
join prefix String.[] = prefix
join prefix key = prefix ++ (key ∷ [])

-- Only a path that is not empty is listed.
unfoldable pub own_path : FieldPath → List FieldPath
own_path [] = []
own_path (s ∷ p) = (s ∷ p) ∷ []

-- `paths.into_iter().collect()` into a set, which is a list without repetition here.
unfoldable pub path_holds : List FieldPath → FieldPath → Bool
path_holds [] p = false
path_holds (q ∷ qs) p = q == p || path_holds qs p

insert_path : FieldPath → List FieldPath → List FieldPath
unfolding path_holds
insert_path p ps = if path_holds ps p then ps else p ∷ ps

pub to_set : List FieldPath → List FieldPath
unfolding insert_path
to_set [] = []
to_set (p ∷ ps) = insert_path p (to_set ps)

-- The parents of a path: its proper prefixes that are not empty, each after `before`.
insert_parents : FieldPath → FieldPath → List FieldPath → List FieldPath
unfolding insert_path
insert_parents before [] out = out
insert_parents before (s ∷ []) out = out
insert_parents before (s ∷ t ∷ p) out =
    insert_path (before ++ (s ∷ [])) (insert_parents (before ++ (s ∷ [])) (t ∷ p) out)

pub add_parents : List FieldPath → List FieldPath → List FieldPath
unfolding insert_parents
add_parents [] out = out
add_parents (p ∷ ps) out = add_parents ps (insert_parents [] p out)

module _ (C : BitCount) where
  unfoldable pub member_bits : Members → ℕ → List (String × FieldDesc × ℕ)
  member_bits no_members b = []
  member_bits (member n d ms) b = (n, d, b) ∷ member_bits ms (b + C.total_bits d)

  -- Each member of a structure with its bit, when the structure's own bit is `bit`.
  unfoldable pub children : FieldDesc → ℕ → List (String × FieldDesc × ℕ)
  unfolding member_bits
  children (structure id ms) bit = member_bits ms (suc bit)
  children _ bit = []

module _ (B : BitSetLib) (C : BitCount) where
  is_marked : B.Bits → Bool → ℕ → Bool
  is_marked marks inherited bit = inherited || B.get marks bit

  -- What a field lists, from what the loop over its members lists.
  listed : FieldDesc → FieldPath → Bool → Bool → List FieldPath → List FieldPath
  unfolding own_path is_struct
  listed d prefix marked expand below =
      if marked && not (expand && is_struct d)
      then (if expand then own_path prefix ++ below else own_path prefix)
      else below

  unfoldable mutual
    unfolding listed is_marked join

    pub collect_marked : FieldDesc → ℕ → FieldPath → B.Bits → Bool → Bool → List FieldPath
    collect_marked (structure id ms) bit prefix marks inherited expand =
        let marked = is_marked marks inherited bit in
        let below = collect_members ms (suc bit) prefix marks (marked && expand) expand in
        listed (structure id ms) prefix marked expand below
    collect_marked d bit prefix marks inherited expand =
        listed d prefix (is_marked marks inherited bit) expand []

    -- The loop over `children`: a member's bit, then the bits past all of its own.
    collect_members : Members → ℕ → FieldPath → B.Bits → Bool → Bool → List FieldPath
    collect_members no_members b prefix marks inherited expand = []
    collect_members (member n d ms) b prefix marks inherited expand =
        collect_marked d b (join prefix n) marks inherited expand
        ++ collect_members ms (b + C.total_bits d) prefix marks inherited expand

  pub ancestors_marked : FieldDesc → B.Bits → FieldPath → FieldPath → Bool
  ancestors_marked desc marks before [] = false
  ancestors_marked desc marks before (s ∷ []) = false
  ancestors_marked desc marks before (s ∷ t ∷ p) =
      let rest = ancestors_marked desc marks (before ++ (s ∷ [])) (t ∷ p) in
      rest
      || elim (C.bit_for_path desc (before ++ (s ∷ []))) [ none ↦ false | some b ↦ B.get marks b ]

  pub start_of : Option ℕ → ℕ
  start_of none = 0
  start_of (some b) = b

  -- The view's own paths, with or without their parents.
  pub view_paths : FieldDesc → FieldPath → B.Bits → Bool → Bool → FieldDesc → List FieldPath
  unfolding collect_marked ancestors_marked start_of to_set add_parents
  view_paths desc prefix marks expand parents sub =
      let above = B.get marks 0 || ancestors_marked desc marks [] prefix in
      let out =
        to_set (collect_marked sub (start_of (C.bit_for_path desc prefix)) [] marks above expand) in
      if parents then add_parents out out else out

  -- `changedSet`, on a view of a value of type `desc` with this prefix.
  pub changed_set :
      FieldDesc → FieldPath → B.Bits → Bool → Bool → Result FieldError (List FieldPath)
  unfolding view_paths desc_at
  changed_set desc prefix marks expand parents =
      desc_at desc prefix >>= λ sub. ok (view_paths desc prefix marks expand parents sub)
