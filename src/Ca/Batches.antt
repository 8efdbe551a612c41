-- ===== src/Ca/Batches.antt =====
-- src/ca.rs, `Monitor` and `CaSubscription::do_recv_batch`: updates handed out in batches. What the
-- client library has queued is the handle; a call that would park finds nothing ready.
pub mod Order
use repics.Prelude.{
  ℕ, zero, suc, ◌+◌, ◌-◌, ◌^◌, ◌≤◌, ◌<◌, ◌≡◌, refl, ap, ◌∙◌, sym, ◌⊎◌, inl, inr, Bool, true, false,
  Option, none, some, List, [], ◌∷◌, ◌++◌, map, append-nil, append_assoc, Result, ok, err, arith,
  eqb, length, length-append, if◌then◌else◌,
}

-- `MonitorHandle`: its queue, oldest first, and whether the stream has ended behind it.
pub record Handle (E S : Type 0) : Type 0 where
  pub queue : List (Result E S)
  pub ended : Bool

pub record Monitor (E S : Type 0) : Type 0 where
  pub handle : Handle E S
  pub stashed : Option (Option (Result E S))

pub data Poll (A : Type 0) : Type 0 where
  ready : A → Poll A
  pending : Poll A

-- No cap is `usize::MAX`.
pub cap_of : ℕ → ℕ
cap_of max_items = if eqb max_items 0 then 2 ^ 64 - 1 else max_items

module _ {E S : Type 0} where
  recv_queue : Handle E S → List (Result E S) → Poll (Option (Result E S)) × Handle E S
  recv_queue h [] = (if h.ended then ready none else pending, h)
  recv_queue h (r ∷ rs) = (ready (some r), record h { queue = rs })

  -- `poll_once(self.handle.recv())`
  recv : Handle E S → Poll (Option (Result E S)) × Handle E S
  unfolding recv_queue
  recv h = recv_queue h h.queue

  next_of : Monitor E S → Option (Option (Result E S)) → Poll (Option (Result E S)) × Monitor E S
  unfolding recv
  next_of m (some item) = (ready item, record m { stashed = none })
  next_of m none = let (r, h) = recv m.handle in (r, record m { handle = h })

  -- `try_next`, and `next` as far as it gets without waiting.
  pub try_next : Monitor E S → Poll (Option (Result E S)) × Monitor E S
  unfolding next_of
  try_next m = next_of m m.stashed

  -- `while items.len() < cap`, with the room that is left.
  more : ℕ → List S → Monitor E S → List S × Monitor E S
  unfolding try_next
  more zero items m = (items, m)
  more (suc room) items m =
      let t = try_next m in
      elim t.0 [
        | pending ↦ (items, t.1)
        | ready (some (ok v)) ↦ more room (items ++ (v ∷ [])) t.1
        | ready other ↦ (items, record t.1 { stashed = some other })
      ]

  first_of :
      ℕ → Poll (Option (Result E S)) → Monitor E S → Poll (Result E (Option (List S))) × Monitor E S
  unfolding more
  first_of cap pending m = (pending, m)
  first_of cap (ready none) m = (ready (ok none), m)
  first_of cap (ready (some (err e))) m = (ready (err e), m)
  first_of cap (ready (some (ok v))) m =
      let (items, m') = more (cap - 1) (v ∷ []) m in (ready (ok (some items)), m')

  -- `do_recv_batch` on an open subscription.
  pub recv_batch : ℕ → Monitor E S → Poll (Result E (Option (List S))) × Monitor E S
  unfolding first_of cap_of
  recv_batch max_items m = let t = try_next m in first_of (cap_of max_items) t.0 t.1
