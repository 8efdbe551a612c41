-- ===== src/Ca/Batches/Order.antt =====
-- src/ca.rs, `CaSubscription::do_recv_batch`: batches keep the order of the updates.
use repics.Prelude.{
  ℕ, zero, suc, ◌+◌, ◌-◌, ◌≤◌, ◌≡◌, ◌≢◌, refl, ap, ◌∙◌, Bool, true, false, Option, none, some, List,
  [], ◌∷◌, ◌++◌, map, append_assoc, Result, ok, err, arith, length, length-append,
}
use repics.Ca.Batches.{
  Monitor, Poll, ready, pending, recv_queue, recv, next_of, try_next, more, cap_of, first_of,
  recv_batch,
}

module _ {E S : Type 0} where
  abbrev pub stash_of : Option (Option (Result E S)) → List (Result E S)
  stash_of (some (some r)) = r ∷ []
  stash_of _ = []

  -- What Python has still to see, oldest first.
  abbrev pub coming : Monitor E S → List (Result E S)
  coming m = stash_of m.stashed ++ m.handle.queue

  abbrev pub values : List S → List (Result E S)
  values vs = map ok vs

  abbrev taken : Poll (Option (Result E S)) → List (Result E S)
  taken (ready (some r)) = r ∷ []
  taken _ = []

  coming-try_next :
      (m : Monitor E S)
      → (taken (try_next m).0 ++ coming (try_next m).1 ≡ coming m) × ((try_next m).1.stashed ≡ none)
  unfolding try_next next_of recv recv_queue
  coming-try_next m = go m.stashed m.handle.queue m.handle.ended
    where
      go :
          (st : Option (Option (Result E S))) (q : List (Result E S)) (b : Bool)
          → let m' : Monitor E S = record {
            handle = record { queue = q; ended = b };
            stashed = st;
          } in
            (taken (try_next m').0 ++ coming (try_next m').1 ≡ coming m')
            × ((try_next m').1.stashed ≡ none)
      go (some none) q b = (refl, refl)
      go (some (some r)) q b = (refl, refl)
      go none [] true = (refl, refl)
      go none [] false = (refl, refl)
      go none (r ∷ q) b = (refl, refl)

  map-snoc : (vs : List S) (v : S) → values (vs ++ (v ∷ [])) ≡ values vs ++ (ok v ∷ [])
  map-snoc [] v = refl
  map-snoc (x ∷ vs) v = ap (λ l. ok x ∷ l) (map-snoc vs v)

  record Kept (room : ℕ) (items : List S) (m : Monitor E S) (out : List S × Monitor E S)
      : Type 0 where
    order : values out.0 ++ coming out.1 ≡ values items ++ coming m
    most : length out.0 ≤ length items + room
    least : length items ≤ length out.0

  more-Kept : (room : ℕ) (items : List S) (m : Monitor E S) → Kept room items m (more room items m)
  unfolding more
  more-Kept zero items m = record { order = refl; most = omega arith; least = omega arith }
  more-Kept (suc room) items m =
      go (λ v m'. more-Kept room (items ++ (v ∷ [])) m') (try_next m).0 (try_next m).1
        (coming-try_next m).0 (coming-try_next m).1
    where
      go :
          ((v : S) (m' : Monitor E S)
            → Kept room (items ++ (v ∷ [])) m' (more room (items ++ (v ∷ [])) m'))
          → (t : Poll (Option (Result E S))) (m' : Monitor E S) → taken t ++ coming m' ≡ coming m
          → m'.stashed ≡ none
          → Kept (suc room) items m (elim t [
            | pending ↦ (items, m')
            | ready (some (ok v)) ↦ more room (items ++ (v ∷ [])) m'
            | ready other ↦ (items, record m' { stashed = some other })
          ])
      go rest pending m' e n = record {
        order = ap (λ l. values items ++ l) e;
        most = omega arith;
        least = omega arith;
      }
      go rest (ready none) m' e n = record {
        order = ground (arith, e, n);
        most = omega arith;
        least = omega arith;
      }
      go rest (ready (some (err x))) m' e n = record {
        order = ground (arith, e, n);
        most = omega arith;
        least = omega arith;
      }
      go rest (ready (some (ok v))) m' e n =
          let k = rest v m' in
          record {
            order =
                k.order
                ∙ ap (λ l. l ++ coming m') (map-snoc items v)
                ∙ append_assoc (values items) (ok v ∷ []) (coming m')
                ∙ ap (λ l. values items ++ l) e;
            most = omega (arith, k.most, length-append items (v ∷ []));
            least = omega (arith, k.least, length-append items (v ∷ []));
          }

  -- What a call hands out of what was coming, by its result.
  abbrev pub handed : Poll (Result E (Option (List S))) → List (Result E S)
  handed (ready (ok (some vs))) = values vs
  handed (ready (err e)) = err e ∷ []
  handed _ = []

  abbrev pub IsBatch : ℕ → Poll (Result E (Option (List S))) → Type 0
  IsBatch max_items (ready (ok (some vs))) =
      (1 ≤ length vs) × (max_items ≢ 0 → length vs ≤ max_items)
  IsBatch max_items _ = Unit

  -- A call hands out a part of what was coming from its front, and the rest is still coming: nothing
  -- is lost, repeated or moved past an error. A batch has at least one update and keeps to the cap.
  pub recv_batch-coming :
      (max_items : ℕ) (m : Monitor E S)
      → let (out, m') = recv_batch max_items m in
        (handed out ++ coming m' ≡ coming m) × IsBatch max_items out
  unfolding recv_batch first_of cap_of
  recv_batch-coming max_items m = go (try_next m).0 (try_next m).1 (coming-try_next m).0
    where
      go :
          (t : Poll (Option (Result E S))) (m' : Monitor E S)
          → taken t ++ coming m' ≡ coming m
          → let (out, m'') = first_of (cap_of max_items) t m' in
            (handed out ++ coming m'' ≡ coming m) × IsBatch max_items out
      go pending m' e = (e, tt)
      go (ready none) m' e = (e, tt)
      go (ready (some (err x))) m' e = (e, tt)
      go (ready (some (ok v))) m' e =
          let k = more-Kept (cap_of max_items - 1) (v ∷ []) m' in
          (
            k.order ∙ e,
            (omega (arith, k.least), λ some_cap. unfold cap_of in ground (arith, k.most)),
          )
