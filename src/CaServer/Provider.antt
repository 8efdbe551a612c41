-- ===== src/CaServer/Provider.antt =====
-- src/ca_server.rs, `CaProvider` and the start of `CaServer`: named tables of PVs. The entries are
-- shared, so a table holds references into a heap of them.
use repics.Prelude.{
  ℕ, ◌≡◌, refl, ◌⊎◌, inl, inr, Bool, true, false, ◌||◌, String, string_eq, ◌==◌, Option, none, some,
  List, [], ◌∷◌, ◌++◌, Result, ok, err, arith, if◌then◌else◌, Bool-cases,
}
use repics.Prelude.Map.{is_some}

pub record Provider : Type 0 where
  pub name : String
  pub pvs : List (String × ℕ)

pub data AddError : Type 0 where
  already_added : String → AddError

unfoldable pub new : String → Provider
new name = record { name = name; pvs = [] }

-- `pvs.iter().any(|(n, _)| n == name)`
unfoldable pub listed : String → List (String × ℕ) → Bool
listed name [] = false
listed name ((n, r) ∷ pvs) = n == name || listed name pvs

unfoldable pub add : Provider → String → ℕ → Result AddError Provider
add p name r =
    if listed name p.pvs
    then err (already_added name)
    else ok (record p { pvs = p.pvs ++ ((name, r) ∷ []) })

-- `pvs.iter().position(|(n, _)| n == name).map(|i| pvs.remove(i).1)`
unfoldable pub take_out : String → List (String × ℕ) → Option ℕ × List (String × ℕ)
take_out name [] = (none, [])
take_out name ((n, r) ∷ pvs) =
    let rest = take_out name pvs in if n == name then (some r, pvs) else (rest.0, (n, r) ∷ rest.1)

-- Names stand once in a table.
abbrev pub IsTable : List (String × ℕ) → Type 0
IsTable [] = Unit
IsTable ((n, r) ∷ pvs) = (listed n pvs ≡ false) × IsTable pvs

listed-append :
    (name n : String) (r : ℕ) (pvs : List (String × ℕ))
    → listed name (pvs ++ ((n, r) ∷ [])) ≡ (listed name pvs || n == name)
unfolding listed
listed-append name n r [] = ground arith
listed-append name n r ((m, s) ∷ pvs) = ground (arith, listed-append name n r pvs)

IsTable-append :
    (n : String) (r : ℕ) (pvs : List (String × ℕ))
    → listed n pvs ≡ false
    → IsTable pvs
    → IsTable (pvs ++ ((n, r) ∷ []))
unfolding listed
IsTable-append n r [] h t = (refl, tt)
IsTable-append n r ((m, s) ∷ pvs) h t = ground (
  arith,
  IsTable-append n r pvs,
  listed-append m n r pvs,
  string_eq.equal_iff n m,
  string_eq.equal_iff m n,
)

-- `add` refuses a name that is taken, changing nothing, and otherwise appends the PV; the names stay
-- distinct.
pub add-IsTable :
    (p : Provider) (name : String) (r : ℕ)
    → IsTable p.pvs
    → ((listed name p.pvs ≡ true) × (add p name r ≡ err (already_added name)))
      ⊎ ((q : Provider) × (add p name r ≡ ok q)
          × (listed name p.pvs ≡ false)
          × (q.pvs ≡ p.pvs ++ ((name, r) ∷ []))
          × IsTable q.pvs)
unfolding add
add-IsTable p name r t = elim (Bool-cases (listed name p.pvs)) [
  | inl h ↦ inl (h, ground (arith, h))
  | inr h ↦ inr (
    record p { pvs = p.pvs ++ ((name, r) ∷ []) },
    ground (arith, h),
    h,
    refl,
    IsTable-append name r p.pvs h t,
  )
]

listed-take_out :
    (name n : String) (pvs : List (String × ℕ))
    → IsTable pvs
    → listed n (take_out name pvs).1 ≡ (if name == n then false else listed n pvs)
unfolding listed take_out
listed-take_out name n [] t = ground arith
listed-take_out name n ((m, s) ∷ pvs) t = ground (
  arith,
  listed-take_out name n pvs t.1,
  string_eq.equal_iff m name,
  string_eq.equal_iff m n,
  string_eq.equal_iff name n,
)

-- In a table with distinct names, `remove` finds an entry exactly if the name is listed, and what is
-- left lists the other names and no more.
pub take_out-IsTable :
    (name : String) (pvs : List (String × ℕ))
    → IsTable pvs
    → (is_some (take_out name pvs).0 ≡ listed name pvs)
      × ((n : String)
          → listed n (take_out name pvs).1 ≡ (if name == n then false else listed n pvs))
      × IsTable (take_out name pvs).1
unfolding take_out listed
take_out-IsTable name [] t = (refl, λ n. ground arith, tt)
take_out-IsTable name ((m, s) ∷ pvs) t =
    let rest = take_out-IsTable name pvs t.1 in
    (
      ground (arith, rest.0),
      λ n. listed-take_out name n ((m, s) ∷ pvs) t,
      ground (arith, rest.2, rest.1 m, string_eq.equal_iff name m, string_eq.equal_iff m name),
    )
