-- ===== src/PvaFields/Views.antt =====
-- src/pva/value.rs, `changedSet`: what a view lists.
use mathlib.Core.Path.{subst}
use repics.Prelude.{
  ℕ, ◌≡◌, refl, sym, ap, ◌⊎◌, inl, inr, ◌↔◌, arith, Bool, true, false, ◌||◌, List, [], ◌∷◌, ◌++◌,
  append_assoc, ok, String, Option, none, some, Option-cases,
}
use repics.Epics.BitSet.{BitSetLib}
use repics.PvaType.{FieldDesc}
use repics.PvaFields.{
  FieldPath, BitCount, desc_at, to_set, ancestors_marked, start_of, view_paths, changed_set,
  collect_marked,
}
use repics.PvaFields.Listing.{
  nodes, marked_leaf_paths, topmost_paths, collect_marked-expand, collect_marked-topmost,
  collect_marked-whole,
}

or-split : (a b : Bool) → (a || b) ≡ true → (a ≡ true) ⊎ (b ≡ true)
or-split true b h = inl refl
or-split false b h = inr h

or-left : (a b : Bool) → a ≡ true → (a || b) ≡ true
or-left true b h = refl
or-left false b h = cc

or-right : (a b : Bool) → b ≡ true → (a || b) ≡ true
or-right true b h = refl
or-right false b h = h

module _ (B : BitSetLib) (C : BitCount) where
  -- The field at a path has a bit, and it is set.
  pub MarkedAt : FieldDesc → B.Bits → FieldPath → Type 0
  MarkedAt desc marks p = (b : ℕ) × (C.bit_for_path desc p ≡ some b) × (B.get marks b ≡ true)

  -- The value is marked as a whole, or the path leads through a field that is marked.
  pub StandsBelow : FieldDesc → B.Bits → FieldPath → Type 0
  StandsBelow desc marks prefix =
      (B.get marks 0 ≡ true)
      ⊎ ((s : String) × (p : FieldPath) × (t : String) × (q : FieldPath) × (prefix
            ≡ (s ∷ p) ++ (t ∷ q))
          × MarkedAt desc marks (s ∷ p))

  own_bit : FieldDesc → B.Bits → Option ℕ → Bool
  own_bit desc marks o = elim o [ none ↦ false | some b ↦ B.get marks b ]

  own_bit-MarkedAt :
      (desc : FieldDesc) (marks : B.Bits) (p : FieldPath)
      → own_bit desc marks (C.bit_for_path desc p) ≡ true
      → MarkedAt desc marks p
  unfolding own_bit MarkedAt
  own_bit-MarkedAt desc marks p h = elim (Option-cases (C.bit_for_path desc p)) [
    | inl e ↦ absurd (ground (arith, e, h))
    | inr (b, e) ↦ (b, e, ground (arith, e, h))
  ]

  MarkedAt-own_bit :
      (desc : FieldDesc) (marks : B.Bits) (p : FieldPath)
      → MarkedAt desc marks p
      → own_bit desc marks (C.bit_for_path desc p) ≡ true
  unfolding own_bit MarkedAt
  MarkedAt-own_bit desc marks p (b, e, h) = rw e h

  -- What `ancestors_marked` finds below a path.
  Between : FieldDesc → B.Bits → FieldPath → FieldPath → Type 0
  Between desc marks before prefix =
      (s : String) × (p : FieldPath) × (t : String) × (q : FieldPath) × (prefix
        ≡ (s ∷ p) ++ (t ∷ q))
      × MarkedAt desc marks (before ++ (s ∷ p))

  ancestors_marked-Between :
      (desc : FieldDesc) (marks : B.Bits) (before prefix : FieldPath)
      → ancestors_marked B C desc marks before prefix ≡ true
      → Between desc marks before prefix
  unfolding ancestors_marked Between own_bit
  ancestors_marked-Between desc marks before [] h = cc
  ancestors_marked-Between desc marks before (s ∷ []) h = cc
  ancestors_marked-Between desc marks before (s ∷ t ∷ p) h =
      elim (or-split (ancestors_marked B C desc marks (before ++ (s ∷ [])) (t ∷ p))
        (own_bit desc marks (C.bit_for_path desc (before ++ (s ∷ [])))) h) [
          | inl e ↦
              let (u, r, v, q, same, m) =
                ancestors_marked-Between desc marks (before ++ (s ∷ [])) (t ∷ p) e in
              (
                s,
                u ∷ r,
                v,
                q,
                ap (λ x. s ∷ x) same,
                subst (MarkedAt desc marks) (append_assoc before (s ∷ []) (u ∷ r)) m,
              )
          | inr e ↦ (s, [], t, p, refl, own_bit-MarkedAt desc marks (before ++ (s ∷ [])) e)
        ]

  MarkedAt-ancestors_marked :
      (desc : FieldDesc) (marks : B.Bits) (before : FieldPath) (s : String) (p : FieldPath)
      (t : String) (q : FieldPath)
      → MarkedAt desc marks (before ++ (s ∷ p))
      → ancestors_marked B C desc marks before ((s ∷ p) ++ (t ∷ q)) ≡ true
  unfolding ancestors_marked own_bit
  MarkedAt-ancestors_marked desc marks before s [] t q m =
      or-right _ _ (MarkedAt-own_bit desc marks (before ++ (s ∷ [])) m)
  MarkedAt-ancestors_marked desc marks before s (u ∷ p) t q m = or-left _ _ (
      MarkedAt-ancestors_marked desc marks (before ++ (s ∷ [])) u p t q
        (subst (MarkedAt desc marks) (sym (append_assoc before (s ∷ []) (u ∷ p))) m))

  -- `inherited`, of the view.
  marked_above : FieldDesc → FieldPath → B.Bits → Bool
  unfolding ancestors_marked
  marked_above desc prefix marks = B.get marks 0 || ancestors_marked B C desc marks [] prefix

  marked_above_iff :
      (desc : FieldDesc) (prefix : FieldPath) (marks : B.Bits)
      → (marked_above desc prefix marks ≡ true) ↔ StandsBelow desc marks prefix
  unfolding marked_above StandsBelow Between
  marked_above_iff desc prefix marks = (
    λ h. elim (or-split (B.get marks 0) (ancestors_marked B C desc marks [] prefix) h) [
      | inl e ↦ inl e
      | inr e ↦ inr (ancestors_marked-Between desc marks [] prefix e)
    ],
    λ x. elim x [
      | inl e ↦ or-left _ _ e
      | inr (s, p, t, q, same, m) ↦ or-right _ _ (
          subst (λ y. ancestors_marked B C desc marks [] y ≡ true) (sym same)
            (MarkedAt-ancestors_marked desc marks [] s p t q m))
    ],
  )

  -- The bit of the view.
  pub view_bit : FieldDesc → FieldPath → ℕ
  unfolding start_of
  view_bit desc prefix = start_of B C (C.bit_for_path desc prefix)

  view_paths-of :
      (desc : FieldDesc) (prefix : FieldPath) (marks : B.Bits) (x : Bool) (sub : FieldDesc)
      (ps : List FieldPath)
      → desc_at desc prefix ≡ ok sub
      → collect_marked B C sub (view_bit desc prefix) [] marks (marked_above desc prefix marks) x
        ≡ ps
      → changed_set B C desc prefix marks x false ≡ ok (to_set ps)
  unfolding changed_set view_paths view_bit marked_above
  view_paths-of desc prefix marks x sub ps h e = rw h (ap (λ qs. ok (to_set qs)) e)

  -- `changedSet` of a view, without `parents`, lists, with `expand`, the fields without members that are
  -- marked or stand in a marked structure, of the view or above it; without, the marked fields that
  -- stand in no marked structure, but nothing where the view itself is marked or stands in a marked
  -- structure. Above the view, that is: the value is marked as a whole, or the view's path leads
  -- through a field that is marked.
  pub changed_set-lists :
      (desc : FieldDesc) (prefix : FieldPath) (marks : B.Bits) (sub : FieldDesc)
      → desc_at desc prefix ≡ ok sub
      → (above : Bool) × ((above ≡ true) ↔ StandsBelow desc marks prefix)
        × (let bit = view_bit desc prefix in
            let fields = nodes C sub bit [] [] in
            (changed_set B C desc prefix marks true false
              ≡ ok (to_set (marked_leaf_paths B marks above fields)))
            × ((above || B.get marks bit) ≡ true
                → changed_set B C desc prefix marks false false ≡ ok [])
            × (above ≡ false
                → changed_set B C desc prefix marks false false
                  ≡ ok (to_set (topmost_paths B marks fields))))
  unfolding to_set
  changed_set-lists desc prefix marks sub h =
      let above = marked_above desc prefix marks in
      let bit = view_bit desc prefix in
      (
        above,
        marked_above_iff desc prefix marks,
        (
          view_paths-of desc prefix marks true sub _ h
              (collect_marked-expand B C marks sub bit above),
          λ e.
              view_paths-of desc prefix marks false sub [] h
                (collect_marked-whole B C marks sub bit above e),
          λ e.
              view_paths-of desc prefix marks false sub
                (topmost_paths B marks (nodes C sub bit [] [])) h
                (rw e (collect_marked-topmost B C marks sub bit)),
        ),
      )
