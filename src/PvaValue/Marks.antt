-- ===== src/PvaValue/Marks.antt =====
-- src/pva/value.rs, `Root::mark_span` and `changed`: marking and asking.
use repics.Prelude.{
  ℕ, zero, suc, ◌+◌, ◌≡◌, refl, ◌⊎◌, inl, inr, Bool, true, false, not, ◌&&◌, ◌||◌, Option, none,
  some, List, [], ◌∷◌, arith, ltb, leb, if◌then◌else◌,
}
use repics.Epics.BitSet.{BitSetLib, holds}
use repics.Epics.Pvdata.{Pvdata}
use repics.PvaServer.Operation.{Root}
use repics.PvaValue.{
  FieldPath, DescLib, set_span, keep_outside, desc_at, marked_span, span_at, mark_span,
}

abbrev pub inside : ℕ → ℕ → ℕ → Bool
inside b start n = leb start b && ltb b (start + n)

module _ (B : BitSetLib) where
  get-set_span :
      (s : B.Bits) (start n b : ℕ)
      → B.get (set_span B s start n) b ≡ (inside b start n || B.get s b)
  unfolding set_span
  get-set_span s start zero b = ground arith
  get-set_span s start (suc n) b =
      ground (arith, B.get-set (set_span B s start n) (start + n) b, get-set_span s start n b)

  get-keep_outside :
      (bs : List ℕ) (start n : ℕ) (s : B.Bits) (b : ℕ)
      → B.get (keep_outside B bs start (start + n) s) b
        ≡ (B.get s b || (holds bs b && not (inside b start n)))
  unfolding keep_outside
  get-keep_outside [] start n s b = ground arith
  get-keep_outside (c ∷ bs) start n s b = ground (
    arith,
    B.get-set s c b,
    get-keep_outside bs start n (if ltb c start || leb (start + n) c then B.set s c else s) b,
  )

module _ {P : Pvdata} (D : DescLib P) where
  -- Marking a path of the type sets exactly the bits of the field there, or clears exactly those, and
  -- leaves the other marks and the value as they are; a path that the type does not have changes
  -- nothing and is reported.
  pub get-mark_span :
      (r : Root P) (path : FieldPath) (val : Bool)
      → let (found, r') = mark_span D r path val in
        ((found ≡ false)
          × (r' ≡ r)
          × ((desc_at D r.desc path ≡ none) ⊎ (D.bit_for_path r.desc path ≡ none)))
        ⊎ ((found ≡ true)
            × ((sub : P.Desc) × (start : ℕ) × (desc_at D r.desc path ≡ some sub)
                × (D.bit_for_path r.desc path ≡ some start)
                × (r'.desc ≡ r.desc)
                × (r'.field ≡ r.field)
                × ((b : ℕ)
                    → P.bits.get r'.marks b
                      ≡ (if inside b start (D.total_bits sub) then val else P.bits.get r.marks b))))
  unfolding mark_span
  get-mark_span r path val = go (desc_at D r.desc path) (D.bit_for_path r.desc path) refl refl
    where
      bits :
          (val : Bool) (sub : P.Desc) (start b : ℕ)
          → P.bits.get (marked_span D r val start sub).marks b
            ≡ (if inside b start (D.total_bits sub) then val else P.bits.get r.marks b)
      bits true sub start b =
          unfold marked_span in
          ground (arith, get-set_span P.bits r.marks start (D.total_bits sub) b)
      bits false sub start b =
          unfold marked_span in
          ground (
            arith,
            get-keep_outside P.bits (P.bits.iter r.marks) start (D.total_bits sub) P.bits.empty b,
            P.bits.get-empty b,
            P.bits.holds-iter r.marks b,
          )

      same :
          (val : Bool) (sub : P.Desc) (start : ℕ)
          → ((marked_span D r val start sub).desc ≡ r.desc)
            × ((marked_span D r val start sub).field ≡ r.field)
      same true sub start = unfold marked_span in (refl, refl)
      same false sub start = unfold marked_span in (refl, refl)

      go :
          (o : Option P.Desc) (st : Option ℕ)
          → desc_at D r.desc path ≡ o
          → D.bit_for_path r.desc path ≡ st
          → let (found, r') = span_at D r path val o st in
            ((found ≡ false)
              × (r' ≡ r)
              × ((desc_at D r.desc path ≡ none) ⊎ (D.bit_for_path r.desc path ≡ none)))
            ⊎ ((found ≡ true)
                × ((sub : P.Desc) × (start : ℕ) × (desc_at D r.desc path ≡ some sub)
                    × (D.bit_for_path r.desc path ≡ some start)
                    × (r'.desc ≡ r.desc)
                    × (r'.field ≡ r.field)
                    × ((b : ℕ)
                        → P.bits.get r'.marks b ≡ (
                            if inside b start (D.total_bits sub)
                            then val
                            else P.bits.get r.marks b))))
      go none st d e = unfold span_at in inl (refl, refl, inl d)
      go (some sub) none d e = unfold span_at in inl (refl, refl, inr e)
      go (some sub) (some start) d e =
          unfold span_at in
          inr (
            refl,
            (
              sub,
              start,
              d,
              e,
              (same val sub start).0,
              (same val sub start).1,
              λ b. bits val sub start b,
            ),
          )
