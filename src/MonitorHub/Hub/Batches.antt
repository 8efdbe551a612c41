-- ===== src/MonitorHub/Hub/Batches.antt =====
-- src/hub.rs, `MonitorHub::recv_batch`: batches keep the order of the items.
use repics.Prelude.{
  ℕ, zero, suc, ◌+◌, ◌-◌, ◌≤◌, ◌≡◌, ◌≢◌, refl, ◌∙◌, ◌⊎◌, inl, inr, Bool, true, false, ◌||◌, Option,
  none, some, List, [], ◌∷◌, ◌++◌, append_assoc, arith, length, length-append,
}
use repics.Ca.Drain.{pull-cases}
use repics.Epics.Client.{CaTypes}
use repics.MonitorHub.Subscription.{Item}
use repics.MonitorHub.Hub.{Hub, taken, cap_of, first_batch, recv_batch}

module _ {C : CaTypes} where
  record Kept (room : ℕ) (items queue : List (Item C)) (out : List (Item C) × List (Item C))
      : Type 0 where
    order : out.0 ++ out.1 ≡ items ++ queue
    most : length out.0 ≤ length items + room
    least : length items ≤ length out.0
    all : out.1 ≢ [] → length out.0 ≡ length items + room

  taken-Kept :
      (room : ℕ) (items queue : List (Item C)) → Kept room items queue (taken room items queue)
  unfolding taken
  taken-Kept zero items queue = record {
    order = refl;
    most = omega arith;
    least = omega arith;
    all = λ h. omega arith;
  }
  taken-Kept (suc room) items [] = record {
    order = refl;
    most = omega arith;
    least = omega arith;
    all = λ h. absurd (h refl);
  }
  taken-Kept (suc room) items (i ∷ queue) =
      let k = taken-Kept room (items ++ (i ∷ [])) queue in
      let n = length-append items (i ∷ []) in
      record {
        order = k.order ∙ append_assoc items (i ∷ []) queue;
        most = omega (arith, k.most, n);
        least = omega (arith, k.least, n);
        all = λ h. let e = k.all h in omega (arith, e, n);
      }

  -- What a call finds queued is what it hands out and what it leaves, in order; a batch has at least
  -- one item, keeps to the cap, and if the cap does not stop it, it is everything.
  abbrev pub IsSplit : ℕ → List (Item C) → Option (List (Item C)) → List (Item C) → Type 0
  IsSplit max_items queue none rest = (queue ≡ []) × (rest ≡ [])
  IsSplit max_items queue (some items) rest =
      (items ++ rest ≡ queue)
      × (1 ≤ length items)
      × (max_items ≢ 0 → length items ≤ max_items)
      × (max_items ≢ 0 → rest ≢ [] → length items ≡ max_items)

  first_batch-IsSplit :
      (max_items : ℕ) (queue : List (Item C))
      → let out = first_batch (cap_of max_items) queue in IsSplit max_items queue out.0 out.1
  unfolding first_batch
  first_batch-IsSplit max_items [] = (refl, refl)
  first_batch-IsSplit max_items (i ∷ queue) =
      let k = taken-Kept (cap_of max_items - 1) (i ∷ []) queue in
      (
        k.order,
        omega (arith, k.least),
        λ some_cap. unfold cap_of in ground (arith, k.most),
        λ some_cap left. let e = k.all left in unfold cap_of in ground (arith, e),
      )

  -- On an open hub, and unless a close wakes it, `recv_batch` takes the items from the front of the
  -- queue in their order, up to the cap, and leaves the rest; interrupted or closed, it returns
  -- `None` and takes nothing.
  pub recv_batch-IsSplit :
      (h : Hub C) (max_items : ℕ) (interrupted : Bool) (queue : List (Item C))
      → h.drain.slot ≡ some queue
      → let (out, h') = recv_batch h max_items interrupted in
        (((h.drain.closed || interrupted) ≡ true) × (out ≡ none) × (h'.drain ≡ h.drain))
        ⊎ (((h.drain.closed || interrupted) ≡ false)
            × ((rest : List (Item C)) × (h'.drain.slot ≡ some rest)
                × IsSplit max_items queue out rest))
  unfolding recv_batch
  recv_batch-IsSplit h max_items interrupted queue e =
      elim (pull-cases h.drain (first_batch (cap_of max_items)) interrupted queue e) [
        | inl (c, o, d) ↦ inl (c, o, d)
        | inr (c, o, d) ↦ inr (
          c,
          ((first_batch (cap_of max_items) queue).1, d, rw o (first_batch-IsSplit max_items queue)),
        )
      ]
