-- ===== src/Text/Number.antt =====
-- `str::parse::<u16>` and the decimal rendering of a number.
use repics.Prelude.{
  ℕ, zero, suc, ◌+◌, ◌-◌, ◌*◌, ◌/◌, ◌%◌, ◌≤◌, ◌<◌, ◌≡◌, refl, inl, inr, ◌∙◌, ap, sym, Bool, false,
  ◌&&◌, Option, none, some, [], ◌∷◌, ◌++◌, arith, eqb, leb, ltb, if◌then◌else◌, Bool-cases,
}
use repics.Text.{Text}

unfoldable pub is_digit : ℕ → Bool
is_digit c = leb b'0' c && leb c b'9'

-- One more digit; overflow is an error.
push_digit : ℕ → Option ℕ → ℕ → Option ℕ
unfolding is_digit
push_digit max none c = none
push_digit max (some acc) c =
    if is_digit c
    then (if leb (acc * 10 + (c - 48)) max then some (acc * 10 + (c - 48)) else none)
    else none

digits : ℕ → Option ℕ → Text → Option ℕ
unfolding push_digit
digits max acc [] = acc
digits max acc (c ∷ cs) = digits max (push_digit max acc c) cs

unsigned : ℕ → Text → Option ℕ
unfolding digits
unsigned max [] = none
unsigned max (c ∷ cs) = digits max (some 0) (c ∷ cs)

-- `parse` into an unsigned type of the given maximum: a `+` may stand in front, digits follow.
unfoldable pub parse_unsigned : ℕ → Text → Option ℕ
unfolding unsigned
parse_unsigned max [] = none
parse_unsigned max (c ∷ cs) = if eqb c b'+' then unsigned max cs else unsigned max (c ∷ cs)

unfoldable pub parse_u16 : Text → Option ℕ
unfolding parse_unsigned
parse_u16 s = parse_unsigned 65535 s

-- The decimal digits, on fuel: each division by ten takes one.
decimal_from : ℕ → ℕ → Text
decimal_from zero n = []
decimal_from (suc f) n =
    let rest = decimal_from f (n / 10) in
    if ltb n 10 then (48 + n) ∷ [] else rest ++ ((48 + n % 10) ∷ [])

-- `to_string`.
unfoldable pub decimal : ℕ → Text
unfolding decimal_from
decimal n = decimal_from (suc n) n

digits-append :
    (max : ℕ) (acc : Option ℕ) (s : Text) (c : ℕ)
    → digits max acc (s ++ (c ∷ [])) ≡ push_digit max (digits max acc s) c
unfolding digits
digits-append max acc [] c = refl
digits-append max acc (x ∷ s) c = digits-append max (push_digit max acc x) s c

push_digit-last : (max n : ℕ) → n ≤ max → push_digit max (some (n / 10)) (48 + n % 10) ≡ some n
unfolding push_digit is_digit
push_digit-last max n le = ground arith

digits-decimal : (max f n : ℕ) → n < f → n ≤ max → digits max (some 0) (decimal_from f n) ≡ some n
unfolding decimal_from
digits-decimal max zero n h le = elim h [ ]
digits-decimal max (suc f) n h le = elim (Bool-cases (ltb n 10)) [
  | inl small ↦ rw small (unfold digits push_digit in ground arith)
  | inr big ↦ rw big (
      digits-append max (some 0) (decimal_from f (n / 10)) (48 + n % 10)
      ∙ ap (λ acc. push_digit max acc (48 + n % 10))
          (digits-decimal max f (n / 10) (ground arith) (ground arith))
      ∙ push_digit-last max n le)
]

decimal_from-digit :
    (f n : ℕ) → n < f → (c : ℕ) × (cs : Text) × (decimal_from f n ≡ c ∷ cs) × (eqb c b'+' ≡ false)
unfolding decimal_from
decimal_from-digit zero n h = elim h [ ]
decimal_from-digit (suc f) n h = elim (Bool-cases (ltb n 10)) [
  | inl small ↦ (48 + n, [], ground (arith, small), ground arith)
  | inr big ↦
      let (c, cs, e, p) = decimal_from-digit f (n / 10) (ground arith) in
      (c, cs ++ ((48 + n % 10) ∷ []), rw (big, e) refl, p)
]

-- The decimal rendering of a port number parses to that number.
pub parse_u16-decimal : (n : ℕ) → n < 65536 → parse_u16 (decimal n) ≡ some n
unfolding parse_u16 parse_unsigned unsigned decimal
parse_u16-decimal n h =
    let (c, cs, e, p) = decimal_from-digit (suc n) n (omega arith) in
    let d = digits-decimal 65535 (suc n) n (omega arith) (omega arith) in
    rw (e, p) (ap (digits 65535 (some 0)) (sym e) ∙ d)

digits-le :
    (max : ℕ) (acc : Option ℕ) (s : Text) (p : ℕ)
    → ((a : ℕ) → acc ≡ some a → a ≤ max)
    → digits max acc s ≡ some p
    → p ≤ max
unfolding digits
digits-le max acc [] p h e = h p e
digits-le max acc (c ∷ cs) p h e =
    digits-le max (push_digit max acc c) cs p (push_digit-le max acc c) e
  where
    push_digit-le : (max : ℕ) (acc : Option ℕ) (c a : ℕ) → push_digit max acc c ≡ some a → a ≤ max
    push_digit-le max none c a e = cc
    push_digit-le max (some b) c a e = unfold push_digit in ground arith

unsigned-le : (max : ℕ) (s : Text) (p : ℕ) → unsigned max s ≡ some p → p ≤ max
unfolding unsigned
unsigned-le max [] p e = cc
unsigned-le max (c ∷ cs) p e = digits-le max (some 0) (c ∷ cs) p (λ a q. ground arith) e

-- A text that parses as a port number gives one that fits 16 bits.
pub parse_u16-le : (s : Text) (p : ℕ) → parse_u16 s ≡ some p → p ≤ 65535
unfolding parse_u16 parse_unsigned
parse_u16-le [] p e = cc
parse_u16-le (c ∷ cs) p e = elim (Bool-cases (eqb c b'+')) [
  | inl h ↦ unsigned-le 65535 cs p (sym (rw h refl) ∙ e)
  | inr h ↦ unsigned-le 65535 (c ∷ cs) p (sym (rw h refl) ∙ e)
]
