-- ===== src/PvaFields/Listing.antt =====
-- src/pva/value.rs, `collect_marked`: which fields are listed, described without the recursion.
use Prim.Native.String.{String}
use repics.Prelude.{
  if-true, if-false, ℕ, suc, ◌+◌, ◌≡◌, refl, ◌∙◌, ap, sym, inl, inr, Bool, true, false, ◌&&◌, ◌||◌,
  not, List, [], ◌∷◌, ◌++◌, arith, if◌then◌else◌, Bool-cases, append_assoc, append-nil,
}
use repics.Epics.BitSet.{BitSetLib}
use repics.PvaType.{FieldDesc, structure, Members, no_members, member}
use repics.PvaFields.{
  FieldPath, BitCount, is_struct, join, own_path, is_marked, listed, collect_marked,
  collect_members,
}

-- A field of a value: its path, whether it has no members of its own, its bit, and the bits of the
-- structures it stands in.
pub record Node : Type 0 where
  pub path : FieldPath
  pub leaf : Bool
  pub bit : ℕ
  pub above : List ℕ

module _ (C : BitCount) where
  -- Every field, a structure before its members.
  mutual
    pub nodes : FieldDesc → ℕ → FieldPath → List ℕ → List Node
    nodes (structure id ms) bit path above =
        record { path = path; leaf = false; bit = bit; above = above }
        ∷ member_nodes ms (suc bit) path (bit ∷ above)
    nodes d bit path above = record { path = path; leaf = true; bit = bit; above = above } ∷ []

    member_nodes : Members → ℕ → FieldPath → List ℕ → List Node
    member_nodes no_members b path above = []
    member_nodes (member n d ms) b path above =
        nodes d b (join path n) above ++ member_nodes ms (b + C.total_bits d) path above

module _ (B : BitSetLib) (marks : B.Bits) where
  any_marked : List ℕ → Bool
  any_marked [] = false
  any_marked (b ∷ bs) = B.get marks b || any_marked bs

  -- The fields without members that are marked, or stand in a marked structure.
  pub marked_leaf_paths : Bool → List Node → List FieldPath
  unfolding any_marked
  marked_leaf_paths inherited [] = []
  marked_leaf_paths inherited (n ∷ ns) =
      let rest = marked_leaf_paths inherited ns in
      if n.leaf && (inherited || any_marked (n.bit ∷ n.above))
      then own_path n.path ++ rest
      else rest

  -- The marked fields that stand in no marked structure.
  pub topmost_paths : List Node → List FieldPath
  unfolding any_marked
  topmost_paths [] = []
  topmost_paths (n ∷ ns) =
      let rest = topmost_paths ns in
      if B.get marks n.bit && not (any_marked n.above) then own_path n.path ++ rest else rest

  marked_leaf_paths-append :
      (i : Bool) (ms ns : List Node)
      → marked_leaf_paths i (ms ++ ns) ≡ marked_leaf_paths i ms ++ marked_leaf_paths i ns
  unfolding marked_leaf_paths
  marked_leaf_paths-append i [] ns = refl
  marked_leaf_paths-append i (m ∷ ms) ns =
      elim (Bool-cases (m.leaf && (i || any_marked (m.bit ∷ m.above)))) [
        | inl h ↦
            rw (h, marked_leaf_paths-append i ms ns) (sym (append_assoc (own_path m.path) _ _))
        | inr h ↦ rw (h, marked_leaf_paths-append i ms ns) refl
      ]

  topmost_paths-append :
      (ms ns : List Node) → topmost_paths (ms ++ ns) ≡ topmost_paths ms ++ topmost_paths ns
  unfolding topmost_paths
  topmost_paths-append [] ns = refl
  topmost_paths-append (m ∷ ms) ns =
      elim (Bool-cases (B.get marks m.bit && not (any_marked m.above))) [
        | inl h ↦ rw (h, topmost_paths-append ms ns) (sym (append_assoc (own_path m.path) _ _))
        | inr h ↦ rw (h, topmost_paths-append ms ns) refl
      ]

and_false : (a : Bool) → (a && false) ≡ false
and_false a = ground arith

or_false : (i : Bool) → i ≡ (i || false)
or_false i = ground arith

or_shift : (i a b : Bool) → (((i || a) || b) && true) ≡ (i || (b || a))
or_shift i a b = ground arith

module _ (B : BitSetLib) (C : BitCount) (marks : B.Bits) where
  collect_marked-structure :
      (id : String) (ms : Members) (bit : ℕ) (path : FieldPath) (i x : Bool)
      → collect_marked B C (structure id ms) bit path marks i x
        ≡ listed B C
            (structure id ms)
            path
            (is_marked B C marks i bit)
            x
            (collect_members B C ms (suc bit) path marks (is_marked B C marks i bit && x) x)
  unfolding collect_marked
  collect_marked-structure id ms bit path i x = refl

  listed-structure :
      (id : String) (ms : Members) (path : FieldPath) (m : Bool) (below : List FieldPath)
      → listed B C (structure id ms) path m true below ≡ below
  unfolding listed is_struct
  listed-structure id ms path m below = ground arith

  nodes-structure :
      (i : Bool) (id : String) (ms : Members) (bit : ℕ) (path : FieldPath) (above : List ℕ)
      → marked_leaf_paths B marks i (nodes C (structure id ms) bit path above)
        ≡ marked_leaf_paths B marks i (member_nodes C ms (suc bit) path (bit ∷ above))
  unfolding marked_leaf_paths nodes
  nodes-structure i id ms bit path above = refl

  mutual
    unfolding collect_marked nodes marked_leaf_paths is_marked listed is_struct any_marked

    expanded :
        (i : Bool) (d : FieldDesc) (bit : ℕ) (path : FieldPath) (above : List ℕ)
        → collect_marked B C d bit path marks (i || any_marked B marks above) true
          ≡ marked_leaf_paths B marks i (nodes C d bit path above)
    expanded i (structure id ms) bit path above =
        listed-structure id ms path _ _
        ∙ ap (λ m. collect_members B C ms (suc bit) path marks m true)
            (or_shift i (any_marked B marks above) (B.get marks bit))
        ∙ expanded_members i ms (suc bit) path (bit ∷ above)
        ∙ sym (nodes-structure i id ms bit path above)
    expanded i d bit path above = ground arith

    expanded_members :
        (i : Bool) (ms : Members) (b : ℕ) (path : FieldPath) (above : List ℕ)
        → collect_members B C ms b path marks (i || any_marked B marks above) true
          ≡ marked_leaf_paths B marks i (member_nodes C ms b path above)
    expanded_members i no_members b path above = refl
    expanded_members i (member n d ms) b path above =
        ap
          (λ ps.
            ps
            ++ collect_members B C ms (b + C.total_bits d) path marks
                (i || any_marked B marks above) true)
          (expanded i d b (join path n) above)
        ∙ ap (λ ps. marked_leaf_paths B marks i (nodes C d b (join path n) above) ++ ps)
            (expanded_members i ms (b + C.total_bits d) path above)
        ∙ sym (marked_leaf_paths-append B marks i (nodes C d b (join path n) above) _)

  listed-top :
      (d : FieldDesc) (path : FieldPath) (m : Bool) (below : List FieldPath)
      → listed B C d path m false below ≡ (if m then own_path path else below)
  unfolding listed
  listed-top d path m below = ground arith

  nodes-top :
      (id : String) (ms : Members) (bit : ℕ) (path : FieldPath) (above : List ℕ)
      → topmost_paths B marks (nodes C (structure id ms) bit path above) ≡ (
          if B.get marks bit && not (any_marked B marks above)
          then own_path path
            ++ topmost_paths B marks (member_nodes C ms (suc bit) path (bit ∷ above))
          else topmost_paths B marks (member_nodes C ms (suc bit) path (bit ∷ above)))
  unfolding topmost_paths nodes
  nodes-top id ms bit path above = refl

  mutual
    unfolding nodes topmost_paths any_marked

    covered :
        (d : FieldDesc) (bit : ℕ) (path : FieldPath) (above : List ℕ)
        → any_marked B marks above ≡ true
        → topmost_paths B marks (nodes C d bit path above) ≡ []
    covered (structure id ms) bit path above h =
        nodes-top id ms bit path above
        ∙ if-false (B.get marks bit && not (any_marked B marks above)) _ _ (ground arith)
        ∙ covered_members ms (suc bit) path (bit ∷ above) (ground arith)
    covered d bit path above h = ground arith

    covered_members :
        (ms : Members) (b : ℕ) (path : FieldPath) (above : List ℕ)
        → any_marked B marks above ≡ true
        → topmost_paths B marks (member_nodes C ms b path above) ≡ []
    covered_members no_members b path above h = refl
    covered_members (member n d ms) b path above h =
        topmost_paths-append B marks (nodes C d b (join path n) above) _
        ∙ rw
            (
              covered d b (join path n) above h,
              covered_members ms (b + C.total_bits d) path above h,
            )
            refl

  collect_marked-on :
      (id : String) (ms : Members) (bit : ℕ) (path : FieldPath) (i : Bool)
      → (i || B.get marks bit) ≡ true
      → collect_marked B C (structure id ms) bit path marks i false ≡ own_path path
  unfolding collect_marked is_marked
  collect_marked-on id ms bit path i h =
      listed-top (structure id ms) path (i || B.get marks bit) _ ∙ if-true _ (own_path path) _ h

  collect_marked-off :
      (id : String) (ms : Members) (bit : ℕ) (path : FieldPath)
      → B.get marks bit ≡ false
      → collect_marked B C (structure id ms) bit path marks false false
        ≡ collect_members B C ms (suc bit) path marks false false
  unfolding collect_marked is_marked
  collect_marked-off id ms bit path h =
      listed-top (structure id ms) path (B.get marks bit) _
      ∙ if-false (B.get marks bit) (own_path path) _ h
      ∙ ap (λ x. collect_members B C ms (suc bit) path marks x false) (and_false (B.get marks bit))

  mutual
    unfolding collect_marked nodes topmost_paths is_marked any_marked

    topmost :
        (d : FieldDesc) (bit : ℕ) (path : FieldPath) (above : List ℕ)
        → any_marked B marks above ≡ false
        → collect_marked B C d bit path marks false false
          ≡ topmost_paths B marks (nodes C d bit path above)
    topmost (structure id ms) bit path above h = elim (Bool-cases (B.get marks bit)) [
      | inl m ↦
          collect_marked-on id ms bit path false m
          ∙ sym (
              nodes-top id ms bit path above
              ∙ if-true (B.get marks bit && not (any_marked B marks above)) _ _ (ground arith)
              ∙ ap (λ ps. own_path path ++ ps)
                  (covered_members ms (suc bit) path (bit ∷ above) (ground arith))
              ∙ append-nil (own_path path))
      | inr m ↦
          collect_marked-off id ms bit path m
          ∙ topmost_members ms (suc bit) path (bit ∷ above) (ground arith)
          ∙ sym (
              nodes-top id ms bit path above
              ∙ if-false (B.get marks bit && not (any_marked B marks above)) _ _ (ground arith))
    ]
    topmost d bit path above h = ground (arith, append-nil (own_path path))

    topmost_members :
        (ms : Members) (b : ℕ) (path : FieldPath) (above : List ℕ)
        → any_marked B marks above ≡ false
        → collect_members B C ms b path marks false false
          ≡ topmost_paths B marks (member_nodes C ms b path above)
    topmost_members no_members b path above h = refl
    topmost_members (member n d ms) b path above h =
        ap (λ ps. ps ++ collect_members B C ms (b + C.total_bits d) path marks false false)
          (topmost d b (join path n) above h)
        ∙ ap (λ ps. topmost_paths B marks (nodes C d b (join path n) above) ++ ps)
            (topmost_members ms (b + C.total_bits d) path above h)
        ∙ sym (topmost_paths-append B marks (nodes C d b (join path n) above) _)

  -- With `expand`, the marked fields of a view are the ones without members that are marked or stand
  -- in a marked structure, in the order of the type, whatever stands above the view.
  pub collect_marked-expand :
      (d : FieldDesc) (bit : ℕ) (i : Bool)
      → collect_marked B C d bit [] marks i true ≡ marked_leaf_paths B marks i (nodes C d bit [] [])
  unfolding any_marked
  collect_marked-expand d bit i =
      ap (λ j. collect_marked B C d bit [] marks j true) (or_false i) ∙ expanded i d bit [] []

  -- Without `expand`, they are the marked fields that stand in no marked structure of the view, in the
  -- order of the type, where nothing above the view is marked.
  pub collect_marked-topmost :
      (d : FieldDesc) (bit : ℕ)
      → collect_marked B C d bit [] marks false false ≡ topmost_paths B marks (nodes C d bit [] [])
  unfolding any_marked
  collect_marked-topmost d bit = topmost d bit [] [] refl

  -- A view that is marked as a whole, or stands in a marked structure, lists nothing without
  -- `expand`, whatever is marked in it.
  pub collect_marked-whole :
      (d : FieldDesc) (bit : ℕ) (i : Bool)
      → (i || B.get marks bit) ≡ true
      → collect_marked B C d bit [] marks i false ≡ []
  unfolding collect_marked listed is_marked own_path
  collect_marked-whole (structure id ms) bit i h = collect_marked-on id ms bit [] i h
  collect_marked-whole d bit i h = ground arith
