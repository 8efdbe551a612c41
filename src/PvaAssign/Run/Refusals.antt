-- ===== src/PvaAssign/Run/Refusals.antt =====
-- src/pva/value.rs, `assign`: the assignments that fail, and what they leave.
use Prim.Native.String.{String}
use repics.Prelude.{
  ℕ, zero, suc, ◌≡◌, refl, ap, ◌∙◌, ◌⊎◌, inl, inr, arith, Bool, true, false, eqb, if◌then◌else◌,
  if-true, if-false, bind-err, Result-cases, Option, some, Result, ok, err, ◌>>=◌,
}
use repics.Epics.BitSet.{BitSetLib}
use repics.PvaType.{
  string, FieldDesc, scalar, scalar_array, variant, variant_array, structure, structure_array,
  union, union_array, Members,
}
use repics.PvaFields.{BitCount, is_struct}
use repics.PvaScalar.{is_string}
use repics.PvaAssign.{
  PyObj, py_dict, py_value, Entries, PvField, variant_value, cannot_infer, Failure, raised, blocked,
  too_deep, AssignLib,
}
use repics.PvaAssign.Union.{infer_desc, pick_union_variant}
use repics.PvaAssign.Run.{
  Outcome, Assign, iterate, dict_of, own_view, build, build_union, variant_of, build_variant,
  py_to_array, text_array, scalar_for, value_for, store, value_keys, texts_of, assign_structure,
  assign_step, assign,
}

-- Every type but the scalars that are no strings, and their arrays.
abbrev pub looks_into : FieldDesc → Bool
looks_into (scalar st) = is_string st
looks_into (scalar_array st) = is_string st
looks_into _ = true

eqb_refl : (n : ℕ) → eqb n n ≡ true
eqb_refl n = ground arith

module _ (B : BitSetLib) (L : AssignLib) (held : ℕ) (C : BitCount) where
  abbrev pub unchanged : PvField → B.Bits → Failure → Outcome B
  unchanged t marks e = record { target = t; marks = marks; result = err e }

  store-err :
      (r : Result Failure PvField) (t : PvField) (marks : B.Bits) (bit : ℕ) (e : Failure)
      → r ≡ err e
      → store B r t marks bit ≡ unchanged t marks e
  unfolding store
  store-err (ok f) t marks bit e h = cc
  store-err (err x) t marks bit e h = cc

  store-ok :
      (r : Result Failure PvField) (t : PvField) (marks : B.Bits) (bit : ℕ) (g : PvField)
      → r ≡ ok g
      → store B r t marks bit
        ≡ record { target = g; marks = B.set marks bit; result = ok (record {}) }
  unfolding store
  store-ok (ok f) t marks bit g h = cc
  store-ok (err x) t marks bit g h = cc

  module _ (dv : FieldDesc) (es : Entries) where
    own :
        {A : Type 0} (x : Result Failure A)
        → (if eqb held held then err blocked else x) ≡ err blocked
    own x = if-true (eqb held held) (err blocked) x (eqb_refl held)

    iterate-own : iterate held (py_value held dv es) ≡ err blocked
    unfolding iterate
    iterate-own = own (value_keys dv)

    infer_desc-own : infer_desc held (py_value held dv es) ≡ err blocked
    unfolding infer_desc
    infer_desc-own = own (ok (some dv))

    dict_of-own : dict_of held (py_value held dv es) ≡ err blocked
    unfolding dict_of
    dict_of-own = own _

    pick-own : (ms : Members) → pick_union_variant held ms (py_value held dv es) ≡ err blocked
    unfolding pick_union_variant
    pick-own ms = bind-err (infer_desc held (py_value held dv es)) _ blocked infer_desc-own

    -- A conversion that looks into the object waits for the lock.
    value_for-own :
        (rec : Assign B) (d : FieldDesc)
        → is_struct d ≡ false
        → looks_into d ≡ true
        → value_for B L held rec d (py_value held dv es) ≡ err blocked
    unfolding value_for is_struct is_string py_to_array text_array scalar_for own_view build_union
        build_variant
    value_for-own rec (scalar string) n h = own _
    value_for-own rec (scalar_array string) n h =
        bind-err (iterate held (py_value held dv es) >>= texts_of B L held) _ blocked
          (bind-err (iterate held (py_value held dv es)) _ blocked iterate-own)
    value_for-own rec (structure_array id ms) n h =
        bind-err (iterate held (py_value held dv es)) _ blocked iterate-own
    value_for-own rec (union id ms) n h =
        bind-err (pick_union_variant held ms (py_value held dv es)) _ blocked (pick-own ms)
    value_for-own rec (union_array id ms) n h =
        bind-err (iterate held (py_value held dv es)) _ blocked iterate-own
    value_for-own rec variant n h =
        bind-err (infer_desc held (py_value held dv es)) _ blocked infer_desc-own
    value_for-own rec variant_array n h =
        bind-err (iterate held (py_value held dv es)) _ blocked iterate-own
    value_for-own rec d n h = cc

    -- Assigning a `Value` of the root that is assigned to never returns: it waits for the lock that
    -- its own thread holds, before anything is changed. So it is for every type but the scalars
    -- that are no strings, and their arrays.
    pub assign-own_view :
        (f : ℕ) (d : FieldDesc) (t : PvField) (marks : B.Bits) (bit : ℕ)
        → looks_into d ≡ true
        → assign B L held C (suc f) d t (py_value held dv es) marks bit ≡ unchanged t marks blocked
    unfolding assign assign_step assign_structure is_struct
    assign-own_view f (structure id ms) t marks bit h = rw dict_of-own refl
    assign-own_view f d t marks bit h =
        store-err _ t marks bit blocked (value_for-own (assign B L held C f) d refl h)

  infer-dict :
      (ms : Members) (es : Entries)
      → pick_union_variant held ms (py_dict es) ≡ err (raised cannot_infer)
  unfolding pick_union_variant infer_desc
  infer-dict ms es = refl

  -- Assigning a dict to a union is refused, whatever the members of the union: the type that a dict
  -- implies is asked for before the members that are structures are looked for.
  pub assign-dict_in_union :
      (f : ℕ) (id : String) (ms : Members) (t : PvField) (es : Entries) (marks : B.Bits) (bit : ℕ)
      → assign B L held C (suc f) (union id ms) t (py_dict es) marks bit
        ≡ unchanged t marks (raised cannot_infer)
  unfolding assign assign_step value_for build_union pick_union_variant infer_desc store
  assign-dict_in_union f id ms t es marks bit = refl

  -- A `Value` of the variant type, assigned to a variant field, is taken for a variant again and
  -- again: no fuel is enough.
  pub assign-variant_in_variant :
      (f root : ℕ) (es : Entries) (t : PvField) (marks : B.Bits) (bit : ℕ)
      → eqb root held ≡ false
      → assign B L held C f variant t (py_value root variant es) marks bit
        ≡ unchanged t marks too_deep
  unfolding assign assign_step value_for build_variant variant_of infer_desc build store
  assign-variant_in_variant zero root es t marks bit h = refl
  assign-variant_in_variant (suc f) root es t marks bit h =
      let o = py_value root variant es in
      let rec = assign B L held C f in
      let r = rec variant (L.default_value_for variant) o B.empty 0 in
      let deep =
        bind-err r.result (λ u. ok r.target) too_deep
          (ap (λ x. x.result)
            (assign-variant_in_variant f root es (L.default_value_for variant) B.empty 0 h)) in
      let built =
        bind-err (build B L held rec variant o) (λ g. ok (variant_value (some variant) g)) too_deep
          deep in
      store-err (build_variant B L held rec o) t marks bit too_deep (
        ap (λ (x : Result Failure (Option FieldDesc)). x >>= variant_of B L held rec o)
          (if-false (eqb root held) (err blocked) (ok (some variant)) h)
        ∙ built)

  -- What an assignment does to a field, whatever stood there and whatever was marked: it sets the field
  -- to this value and marks its bit, or it fails with this error and changes nothing.
  pub Sets : ℕ → FieldDesc → PyObj → PvField → Type 0
  Sets f d o g =
      (t : PvField) (marks : B.Bits) (bit : ℕ)
      → assign B L held C f d t o marks bit
        ≡ record { target = g; marks = B.set marks bit; result = ok (record {}) }

  pub Fails : ℕ → FieldDesc → PyObj → Failure → Type 0
  Fails f d o e =
      (t : PvField) (marks : B.Bits) (bit : ℕ)
      → assign B L held C f d t o marks bit ≡ unchanged t marks e

  -- Assigning to a field that is no structure is all or nothing, and what comes of it depends on the
  -- type and the object alone: either there is a value to which the field is set, and its bit is
  -- marked, or an error with which it fails, and the field and the marks stay as they were.
  pub assign-all_or_nothing :
      (f : ℕ) (d : FieldDesc) (o : PyObj)
      → is_struct d ≡ false
      → ((g : PvField) × Sets f d o g) ⊎ ((e : Failure) × Fails f d o e)
  unfolding assign assign_step is_struct Sets Fails
  assign-all_or_nothing zero d o h = inr (too_deep, λ t marks bit. refl)
  assign-all_or_nothing (suc f) (structure id ms) o h = cc
  assign-all_or_nothing (suc f) d o h =
      elim (Result-cases (value_for B L held (assign B L held C f) d o)) [
        | inl (g, e) ↦ inl (g, λ t marks bit. store-ok _ t marks bit g e)
        | inr (x, e) ↦ inr (x, λ t marks bit. store-err _ t marks bit x e)
      ]
