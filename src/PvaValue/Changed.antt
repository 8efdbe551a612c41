-- ===== src/PvaValue/Changed.antt =====
-- src/pva/value.rs, `changed` after `mark_span`.
use repics.Prelude.{
  ℕ, zero, suc, ◌+◌, ◌<◌, ◌≡◌, refl, ap, ◌∙◌, inl, inr, Bool, true, false, some, [], ◌∷◌, ◌++◌, ok,
  arith, Option-cases,
}
use repics.Epics.BitSet.{BitSetLib}
use repics.Epics.Pvdata.{Pvdata}
use repics.PvaServer.Operation.{Root}
use repics.PvaValue.{
  FieldPath, DescLib, any_in, desc_at, mark_span, ancestor_marked, start_of, field_changed,
  any_changed, changed,
}
use repics.PvaValue.Marks.{get-mark_span}

module _ (B : BitSetLib) where
  any_in-true : (s : B.Bits) (start n : ℕ) → B.get s start ≡ true → any_in B s start (suc n) ≡ true
  unfolding any_in
  any_in-true s start zero h = ground (arith, h)
  any_in-true s start (suc n) h = ground (arith, any_in-true s start n h)

  any_in-false :
      (s : B.Bits) (start n : ℕ) → ((b : ℕ) → B.get s b ≡ false) → any_in B s start n ≡ false
  unfolding any_in
  any_in-false s start zero h = refl
  any_in-false s start (suc n) h = ground (arith, h (start + n), any_in-false s start n h)

module _ {P : Pvdata} (D : DescLib P) where
  changed-single :
      (r : Root P) (path : FieldPath) → changed D r [] (path ∷ []) ≡ any_changed D r (path ∷ [])
  unfolding changed
  changed-single r path = refl

  any_changed-single :
      (r : Root P) (path : FieldPath) (v : Bool)
      → field_changed D r path (desc_at D r.desc path) ≡ ok v
      → any_changed D r (path ∷ []) ≡ ok v
  unfolding any_changed
  any_changed-single r path true h = ground (arith, h)
  any_changed-single r path false h = ground (arith, h)

  field_changed-true :
      (r : Root P) (path : FieldPath) (sub : P.Desc) (start : ℕ)
      → D.bit_for_path r.desc path ≡ some start
      → P.bits.get r.marks start ≡ true
      → field_changed D r path (some sub) ≡ ok true
  unfolding field_changed start_of
  field_changed-true r path sub start e h =
      let (n, t) = D.total_bits-pos sub in
      ground (arith, e, t, any_in-true P.bits r.marks start n h)

  -- A field that has just been marked is changed.
  changed-marked :
      (r : Root P) (path : FieldPath)
      → (mark_span D r path true).0 ≡ true
      → changed D (mark_span D r path true).1 [] (path ∷ []) ≡ ok true
  changed-marked r path h = elim (get-mark_span D r path true) [
    | inl (f, _, _) ↦ ground (arith, f, h)
    | inr (_, (sub, start, d, e, same, _, bits)) ↦
        let r' = (mark_span D r path true).1 in
        let (n, t) = D.total_bits-pos sub in
        let at = bits start in
        changed-single r' path
        ∙ any_changed-single r' path true (
            ap (λ x. field_changed D r' path (desc_at D x path)) same
            ∙ ap (field_changed D r' path) d
            ∙ field_changed-true r' path sub start (ap (λ x. D.bit_for_path x path) same ∙ e)
                (ground (arith, at, t)))
  ]

  ancestor_marked-false :
      (r : Root P) (before path : FieldPath)
      → ((b : ℕ) → P.bits.get r.marks b ≡ false)
      → ancestor_marked D r before path ≡ false
  unfolding ancestor_marked
  ancestor_marked-false r before [] h = refl
  ancestor_marked-false r before (seg ∷ []) h = refl
  ancestor_marked-false r before (seg ∷ t ∷ p) h =
      elim (Option-cases (D.bit_for_path r.desc (before ++ (seg ∷ [])))) [
        | inl e ↦ ground (arith, e, ancestor_marked-false r (before ++ (seg ∷ [])) (t ∷ p) h)
        | inr (b, e) ↦
            ground (arith, e, h b, ancestor_marked-false r (before ++ (seg ∷ [])) (t ∷ p) h)
      ]

  field_changed-false :
      (r : Root P) (path : FieldPath) (sub : P.Desc)
      → ((b : ℕ) → P.bits.get r.marks b ≡ false)
      → field_changed D r path (some sub) ≡ ok false
  unfolding field_changed
  field_changed-false r path sub h = ground (
    arith,
    any_in-false P.bits r.marks (start_of D (D.bit_for_path r.desc path)) (D.total_bits sub) h,
    ancestor_marked-false r [] path h,
    h 0,
  )

  unmarked :
      (r : Root P)
      → ((b : ℕ) → P.bits.get r.marks b ≡ true → b < D.total_bits r.desc)
      → let r' = (mark_span D r [] false).1 in
        (r'.desc ≡ r.desc) × ((b : ℕ) → P.bits.get r'.marks b ≡ false)
  unfolding desc_at
  unmarked r wf = elim (get-mark_span D r [] false) [
    | inl (_, _, inl n) ↦ cc
    | inl (_, _, inr n) ↦ let z = D.bit_for_path-root r.desc in ground (arith, n, z)
    | inr (_, (sub, start, d, e, same, _, bits)) ↦ (
      same,
      λ b.
          let z = D.bit_for_path-root r.desc in
          let w = wf b in let x = bits b in ground (arith, d, e, z, w, x),
    )
  ]

  -- A field that has just been marked is reported as changed. After the whole value is unmarked, whose
  -- marks are bits of its descriptor, nothing is: neither the value as a whole, which is the empty path, nor any field of it.
  pub changed-mark_span :
      (r : Root P)
      → ((b : ℕ) → P.bits.get r.marks b ≡ true → b < D.total_bits r.desc)
      → ((path : FieldPath)
          → (mark_span D r path true).0 ≡ true
          → changed D (mark_span D r path true).1 [] (path ∷ []) ≡ ok true)
        × ((path : FieldPath) (sub : P.Desc)
            → desc_at D r.desc path ≡ some sub
            → changed D (mark_span D r [] false).1 [] (path ∷ []) ≡ ok false)
  changed-mark_span r wf = (λ path h. changed-marked r path h, λ path sub d. clear path sub d)
    where
      r' : Root P
      r' = (mark_span D r [] false).1

      clear :
          (path : FieldPath) (sub : P.Desc)
          → desc_at D r.desc path ≡ some sub
          → changed D r' [] (path ∷ []) ≡ ok false
      clear path sub d =
          let (same, none_set) = unmarked r wf in
          changed-single r' path
          ∙ any_changed-single r' path false (
              ap (λ x. field_changed D r' path (desc_at D x path)) same
              ∙ ap (field_changed D r' path) d
              ∙ field_changed-false r' path sub none_set)
