-- ===== src/Epics/BitSet.antt =====
-- `epics_pva_rs::proto::BitSet`, the set of changed bits of a structure: its type and operations
-- are a parameter, with the laws that repics relies on.
use repics.Prelude.{
  ℕ, ◌≡◌, refl, ◌↔◌, Bool, true, false, ◌||◌, List, [], ◌∷◌, ◌++◌, arith, eqb, if◌then◌else◌,
}

abbrev pub holds : List ℕ → ℕ → Bool
holds [] b = false
holds (x ∷ xs) b = if eqb x b then true else holds xs b

pub record BitSetLib : Type 1 where
  pub Bits : Type 0
  -- `BitSet::new()`
  pub empty : Bits
  pub get : Bits → ℕ → Bool
  pub set : Bits → ℕ → Bits
  pub iter : Bits → List ℕ
  pub union_with : Bits → Bits → Bits
  pub is_empty : Bits → Bool
  pub get-empty : (b : ℕ) → get empty b ≡ false
  pub get-set : (s : Bits) (b c : ℕ) → get (set s b) c ≡ (if eqb b c then true else get s c)
  pub holds-iter : (s : Bits) (b : ℕ) → holds (iter s) b ≡ get s b
  pub get-union_with : (s t : Bits) (b : ℕ) → get (union_with s t) b ≡ (get s b || get t b)
  pub is_empty_iff : (s : Bits) → (is_empty s ≡ true) ↔ ((b : ℕ) → get s b ≡ false)

module _ (B : BitSetLib) where
  open B use {Bits, get, set, iter, get-set, holds-iter}

  -- `for b in bits { s.set(b) }`
  pub set_all : Bits → List ℕ → Bits
  set_all s [] = s
  set_all s (b ∷ bs) = set_all (set s b) bs

  pub get-set_all :
      (s : Bits) (bs : List ℕ) (c : ℕ) → get (set_all s bs) c ≡ (get s c || holds bs c)
  unfolding set_all
  get-set_all s [] c = ground arith
  get-set_all s (b ∷ bs) c = ground (arith, get-set_all (set s b) bs c, get-set s b c)

  pub get-set_iter : (s t : Bits) (c : ℕ) → get (set_all s (iter t)) c ≡ (get s c || get t c)
  get-set_iter s t c = ground (arith, get-set_all s (iter t) c, holds-iter t c)

-- The parameter can be met: a set of bits as a list.
abbrev pub is_nil : List ℕ → Bool
is_nil [] = true
is_nil (x ∷ xs) = false

pub holds-append : (xs ys : List ℕ) (b : ℕ) → holds (xs ++ ys) b ≡ (holds xs b || holds ys b)
holds-append [] ys b = refl
holds-append (x ∷ xs) ys b = ground (arith, holds-append xs ys b)

pub is_nil_iff : (xs : List ℕ) → (is_nil xs ≡ true) ↔ ((b : ℕ) → holds xs b ≡ false)
is_nil_iff [] = (λ _ b. refl, λ _. refl)
is_nil_iff (x ∷ xs) = (λ e. ground arith, λ h. ground (arith, h x))

abbrev pub list_bits : BitSetLib
list_bits = record {
  Bits = List ℕ;
  empty = [];
  get = holds;
  set = λ s b. b ∷ s;
  iter = λ s. s;
  union_with = λ s t. s ++ t;
  is_empty = is_nil;
  get-empty = λ b. refl;
  get-set = λ s b c. refl;
  holds-iter = λ s b. refl;
  get-union_with = holds-append;
  is_empty_iff = is_nil_iff;
}
