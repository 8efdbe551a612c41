-- ===== src/PvaHub/Monitor/Bounds/Churn.antt =====
-- src/pva/hub.rs, `push_value`: a tail that is no value is not squashed into.
use repics.Prelude.{
  ℕ, zero, suc, ◌+◌, ◌≡◌, inl, inr, false, List, [], ◌∷◌, ◌++◌, arith, count_if-cons, count_if-nil,
}
use mathlib.Core.Path.{subst}
use repics.Epics.Pvdata.{Pvdata}
use repics.PvaHub.Monitor.{
  value, disconnected, Queue, push, push_value, push_value_cases, items-push, MonitorConnEvent,
  conn_update, opening_queue, Call, frame, conn, call, run, is_value,
}
use repics.PvaHub.Monitor.Bounds.{
  values, ends_in_value, IsShaped, squash-IsShaped, values-append, ends_in_value-append,
}

module _ (P : Pvdata) (d : P.Desc) (v : P.Field) (c : P.bits.Bits) where
  -- `n` updates, the circuit lost after each.
  pub rounds : ℕ → List (Call P)
  rounds zero = []
  rounds (suc n) = frame d v c ∷ conn MonitorConnEvent.disconnected ∷ rounds n

  push_value-items :
      (q : Queue P)
      → ends_in_value q.items ≡ false
      → (push_value q d v c).0.items ≡ q.items ++ (value d v c ∷ [])
  push_value-items q h = elim (push_value_cases q d v c) [
    | inl (full, e) ↦
        let s = subst (λ o. IsShaped o q.items) e (squash-IsShaped q.items d v c) in
        ground (arith, s.1, h)
    | inr (e, _) ↦ e
  ]

  values-run-rounds_from :
      (n : ℕ) (q : Queue P)
      → ends_in_value q.items ≡ false
      → values (run q (rounds n)).items ≡ values q.items + n
  unfolding rounds run call conn_update
  values-run-rounds_from zero q h = omega arith
  values-run-rounds_from (suc n) q h =
      let q₁ = (push_value q d v c).0 in
      let q₂ = (push q₁ disconnected).0 in
      ground (
        arith,
        values-run-rounds_from n q₂,
        push_value-items q h,
        items-push q₁ disconnected,
        values-append q.items (value d v c),
        values-append q₁.items disconnected,
        ends_in_value-append q₁.items disconnected,
      )

  -- A new monitor that gets `n` values, with a disconnection after each, and is not drained in
  -- between holds all `n` values, whatever its limit.
  pub values-run-rounds : (limit n : ℕ) → values (run (opening_queue limit) (rounds n)).items ≡ n
  unfolding opening_queue ends_in_value
  values-run-rounds limit n =
      ground (arith, values-run-rounds_from n (opening_queue limit), values_start)
    where
      values_start : values {P = P} (disconnected ∷ []) ≡ 0
      values_start =
          ground (
            arith,
            count_if-cons (is_value {P = P}) disconnected [],
            count_if-nil (is_value {P = P}),
          )
