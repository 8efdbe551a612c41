-- ===== src/Prelude/Equality.antt =====
-- Keys that can be compared: `Eq` of Rust, as an instance.
use Prim.Native.Nat.{ℕ}
use Prim.Native.String.{String}
use mathlib.Core.Path.{◌≡◌, refl}
use mathlib.Core.Logic.{◌↔◌}
use mathlib.Core.Bool.{Bool, true, false, ◌&&◌}
use mathlib.Core.List.{List, [], ◌∷◌}
use native.Mathlib.Omega.{arith}
use text.Mathlib.Text.{◌==◌ as same_text}
use text.Mathlib.TextEquality.{eq_iff as same_text_iff}
use repics.Prelude.Tests.{eqb}

pub eqb_iff : (a b : ℕ) → (eqb a b ≡ true) ↔ (a ≡ b)
eqb_iff a b = ground arith

-- A Boolean test that decides equality.
pub record Eq {ℓ} (K : Type ℓ) : Type ℓ where
  pub equal : K → K → Bool
  pub equal_iff : (j k : K) → (equal j k ≡ true) ↔ (j ≡ k)

instance abbrev pub string_eq : Eq String
string_eq = record { equal = same_text; equal_iff = same_text_iff }

instance abbrev pub nat_eq : Eq ℕ
nat_eq = record { equal = eqb; equal_iff = eqb_iff }

module _ {ℓ} {K : Type ℓ} ⦃e : Eq K⦄ where
  infix 50 ◌==◌
  abbrev pub ◌==◌ : K → K → Bool
  j == k = e.equal j k

  pub beq_self : (k : K) → (k == k) ≡ true
  beq_self k = (e.equal_iff k k).1 refl

  abbrev pub same_list : List K → List K → Bool
  same_list [] [] = true
  same_list (j ∷ js) (k ∷ ks) = (j == k) && same_list js ks
  same_list _ _ = false

  pub same_list_iff : (js ks : List K) → (same_list js ks ≡ true) ↔ (js ≡ ks)
  same_list_iff [] [] = (λ _. refl, λ _. refl)
  same_list_iff [] (k ∷ ks) = (λ h. cc, λ h. cc)
  same_list_iff (j ∷ js) [] = (λ h. cc, λ h. cc)
  same_list_iff (j ∷ js) (k ∷ ks) = (
    λ h. ground (arith, e.equal_iff j k, same_list_iff js ks),
    λ h. ground (arith, e.equal_iff j k, same_list_iff js ks),
  )

  instance abbrev pub list_eq : Eq (List K)
  list_eq = record { equal = same_list; equal_iff = same_list_iff }
