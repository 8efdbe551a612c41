-- ===== src/PvaAssign/Run/Depth.antt =====
-- src/pva/value.rs, `assign`: how deep the recursion goes.
pub mod Weights
pub mod Picked
pub mod Returns
use Prim.Native.String.{String}
use repics.Prelude.{
  ℕ, zero, suc, ◌+◌, max, ◌≤◌, ◌≡◌, refl, arith, Bool, true, false, ◌&&◌, Option, none, some,
  Result, ok, err, ◌>>=◌,
}
use repics.PvaType.{
  FieldDesc, scalar, scalar_array, variant, variant_array, structure, structure_array, union,
  union_array, Members, no_members, member,
}
use repics.PvaFields.{is_struct}
use repics.PvaAssign.{
  PyObj, py_tuple, py_list, py_dict, py_array, py_value, py_iterable, Objs, no_objs, obj, Entries,
  no_entries, entry, PyErr, Failure, raised, panicked, blocked,
}

unfoldable mutual
  pub size : FieldDesc → ℕ
  size (structure id ms) = suc (member_sizes ms)
  size (structure_array id ms) = suc (suc (member_sizes ms))
  size (union id ms) = suc (member_sizes ms)
  size (union_array id ms) = suc (member_sizes ms)
  size variant = 2
  size variant_array = 2
  size _ = 1

  pub member_sizes : Members → ℕ
  member_sizes no_members = 0
  member_sizes (member n d ms) = size d + member_sizes ms

-- The weight of an object: its depth, a `Value` counted with the size of its type.
unfoldable mutual
  unfolding size

  pub weight : PyObj → ℕ
  weight (py_tuple os) = suc (weights os)
  weight (py_list os) = suc (weights os)
  weight (py_dict es) = suc (entry_weights es)
  weight (py_array kind n ndim os i f) = suc (weights os)
  weight (py_iterable os i f) = suc (weights os)
  weight (py_value root d es) = size d + suc (entry_weights es)
  weight _ = 1

  pub weights : Objs → ℕ
  weights no_objs = 0
  weights (obj o os) = max (weight o) (weights os)

  pub entry_weights : Entries → ℕ
  entry_weights no_entries = 0
  entry_weights (entry k v es) = max (max (weight k) (weight v)) (entry_weights es)

-- Every `Value` in the object is of a structure type.
unfoldable mutual
  pub structures_only : PyObj → Bool
  structures_only (py_tuple os) = all_structures os
  structures_only (py_list os) = all_structures os
  structures_only (py_dict es) = entries_structures es
  structures_only (py_array kind n ndim os i f) = all_structures os
  structures_only (py_iterable os i f) = all_structures os
  structures_only (py_value root d es) = is_struct d && entries_structures es
  structures_only _ = true

  pub all_structures : Objs → Bool
  all_structures no_objs = true
  all_structures (obj o os) = structures_only o && all_structures os

  pub entries_structures : Entries → Bool
  entries_structures no_entries = true
  entries_structures (entry k v es) =
      structures_only k && structures_only v && entries_structures es

-- The weight of what the object holds: of a `Value`, without its type.
unfoldable pub inner_weight : PyObj → ℕ
unfolding weight
inner_weight (py_value root d es) = suc (entry_weights es)
inner_weight o = weight o

-- The fuel that an assignment to a field of this type takes at most.
unfoldable pub fuel_for : FieldDesc → PyObj → ℕ
unfolding inner_weight
fuel_for variant o = suc (suc (weight o))
fuel_for d o = size d + inner_weight o

-- It returns, raises, panics or waits; it does not fail for want of fuel.
pub data Shallow {A : Type 0} : Result Failure A → Type 0 where
  returns : {a : A} → Shallow (ok a)
  raises : {e : PyErr} → Shallow (err (raised e))
  panics : Shallow (err panicked)
  blocks : Shallow (err blocked)
