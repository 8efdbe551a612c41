-- ===== src/PvaScalar/Wrap.antt =====
-- Narrowing an integer: `i as uN` and `i as iN`.
use native.Mathlib.Nat.{mod-lt}
use repics.Prelude.{
  ℕ, suc, ◌+◌, ◌-◌, ◌%◌, ◌≡◌, ◌<◌, ◌∙◌, true, arith, ltb, Bool-cases, if-false, if-true, inl, inr,
  ap,
}
use repics.Prelude.Int.{ℤ, pos, negsuc}
use repics.PvaScalar.{as_unsigned, to_signed, as_signed, in_signed}

pub as_unsigned-lt : (m : ℕ) (i : ℤ) → 0 < m → as_unsigned m i < m
unfolding as_unsigned
as_unsigned-lt m (pos n) h = mod-lt n h
as_unsigned-lt m (negsuc n) h = grind arith

to_signed-in_signed : (half p : ℕ) → p < half + half → in_signed half (to_signed half p) ≡ true
unfolding in_signed to_signed
to_signed-in_signed half p h = elim (Bool-cases (ltb p half)) [
  | inl e ↦ rw e (ground arith)
  | inr e ↦ rw e (ground arith)
]

mod-small : (m n : ℕ) → n < m → n % m ≡ n
mod-small m n h = grind arith

as_unsigned-to_signed :
    (half p : ℕ) → p < half + half → as_unsigned (half + half) (to_signed half p) ≡ p
unfolding as_unsigned to_signed
as_unsigned-to_signed half p h = elim (Bool-cases (ltb p half)) [
  | inl e ↦ rw e (mod-small (half + half) p h)
  | inr e ↦ rw e (ground (arith, mod-small (half + half) (half + half - suc p)))
]

to_signed-as_unsigned :
    (half : ℕ) (i : ℤ) → in_signed half i ≡ true → to_signed half (as_unsigned (half + half) i) ≡ i
unfolding as_unsigned to_signed in_signed
to_signed-as_unsigned half (pos n) h =
    ap (to_signed half) (mod-small (half + half) n (ground arith))
    ∙ if-true (ltb n half) _ _ (ground arith)
to_signed-as_unsigned half (negsuc n) h =
    ap (λ r. to_signed half (half + half - suc r)) (mod-small (half + half) n (ground arith))
    ∙ if-false (ltb (half + half - suc n) half) _ _ (ground arith)
    ∙ ap negsuc (ground arith)

-- `i as iN` lies in the range of N bits, is `i` itself when `i` does, and is congruent to `i` modulo
-- 2^N, for every size `2^(N-1)` that is not zero.
pub as_signed-wraps :
    (half : ℕ) (i : ℤ)
    → 0 < half
    → (in_signed half (as_signed half i) ≡ true)
      × (as_unsigned (half + half) (as_signed half i) ≡ as_unsigned (half + half) i)
      × (in_signed half i ≡ true → as_signed half i ≡ i)
unfolding as_signed
as_signed-wraps half i h = (
  to_signed-in_signed half _ (as_unsigned-lt (half + half) i (omega arith)),
  as_unsigned-to_signed half _ (as_unsigned-lt (half + half) i (omega arith)),
  to_signed-as_unsigned half i,
)
