-- ===== src/Ca/Drain.antt =====
-- src/ca.rs, `Drain`: a handle that Python pulls from, and the way to close it. A pull that is parked
-- holds the slot, so a pull is one function; whether `close` interrupts it is an input.
use repics.Prelude.{
  ◌≡◌, Bool, true, false, ◌||◌, Option, none, some, Result, ok, err, arith, if◌then◌else◌, ◌⊎◌, inl,
  inr, Bool-cases,
}

pub record Drain {ℓ} (T : Type ℓ) : Type ℓ where
  pub slot : Option T
  pub closed : Bool

pub data ClosedError : Type 0 where
  drain_closed : ClosedError

module _ {T R : Type 0} where
  selected : Drain T → T → Bool → Option R × T → Option R × Drain T
  selected d t true out = (none, d)
  selected d t false out = (out.0, record d { slot = some out.1 })

  pull_slot : Drain T → (T → Option R × T) → Bool → Option T → Option R × Drain T
  unfolding selected
  pull_slot d f interrupted none = (none, d)
  pull_slot d f interrupted (some t) = selected d t interrupted (f t)

  -- `pull`: a cancelled token is seen before the slot.
  unfoldable pub pull : Drain T → (T → Option R × T) → Bool → Option R × Drain T
  unfolding pull_slot
  pull d f interrupted = if d.closed then (none, d) else pull_slot d f interrupted d.slot

  -- What a pull comes to on a handle that is there.
  pub pull-cases :
      (d : Drain T) (f : T → Option R × T) (interrupted : Bool) (t : T)
      → d.slot ≡ some t
      → let (out, d') = pull d f interrupted in
        (((d.closed || interrupted) ≡ true) × (out ≡ none) × (d' ≡ d))
        ⊎ (((d.closed || interrupted) ≡ false) × (out ≡ (f t).0) × (d'.slot ≡ some (f t).1))
  unfolding pull pull_slot selected
  pull-cases d f true t e = elim (Bool-cases d.closed) [
    | inl c ↦ inl (ground (arith, c), ground (arith, c), ground (arith, c))
    | inr c ↦ inl (ground (arith, c), ground (arith, c, e), ground (arith, c, e))
  ]
  pull-cases d f false t e = elim (Bool-cases d.closed) [
    | inl c ↦ inl (ground (arith, c), ground (arith, c), ground (arith, c))
    | inr c ↦ inr (ground (arith, c), ground (arith, c, e), ground (arith, c, e))
  ]

  -- `with`.
  with_handle : Option T → (T → R) → Result ClosedError R
  with_handle none f = err drain_closed
  with_handle (some t) f = ok (f t)

  pub with_slot : Drain T → (T → R) → Result ClosedError R
  unfolding with_handle
  with_slot d f = with_handle d.slot f

module _ {ℓ} {T : Type ℓ} where
  pub new : T → Drain T
  new t = record { slot = some t; closed = false }

  pub close : Drain T → Drain T
  close d = record { slot = none; closed = true }
