-- ===== src/PvaServer/Entry/Current.antt =====
-- src/pva/server.rs, `PvEntry` and `PvaSharedPV::current`: the current value, and a `close` that is
-- interrupted.
use repics.Prelude.{
  ℕ, ◌≡◌, refl, inl, inr, Bool, false, ◌||◌, none, some, Result, ok, err, [], ◌∷◌, arith,
  Option-cases,
}
use repics.Epics.Pvdata.{Pvdata}
use repics.Epics.Shared.{SharedLib}
use repics.PvaServer.Operation.{Root}
use repics.PvaServer.Entry.{
  Subscriber, Entry, open_pv, opened_pv, post, close_begin, close_end, wrap, subscribe, current,
}
use repics.PvaServer.Entry.Updates.{Posted, post-outcome}

module _ {P : Pvdata} (S : SharedLib P) where
  -- `current` after a successful open is the value that was given, marks included.
  current-opened :
      (e : Entry S) (root : Root P) {e' : Entry S}
      → open_pv e root ≡ (ok tt, e')
      → current e' ≡ some root
  unfolding open_pv current
  current-opened e root {e'} h = go (S.open_shared e.pv root.desc root.field) refl h
    where
      go :
          (r : Result S.Error S.Shared)
          → S.open_shared e.pv root.desc root.field ≡ r
          → opened_pv e root r ≡ (ok tt, e')
          → current e' ≡ some root
      go (err x) q k = unfold opened_pv in cc
      go (ok pv) q k =
          unfold opened_pv current in ground (arith, S.current-open e.pv root.desc root.field q, k)

  marks-current :
      (e : Entry S) (c : Root P)
      → current e ≡ some c
      → (e.opened ≡ some c.desc) × (e.marks ≡ c.marks)
  unfolding current
  marks-current e c h = ground (arith, h)

  current-Posted :
      (e e' : Entry S) (root c : Root P) (w w' : S.Rings)
      → current e ≡ some c
      → Posted S e e' root w w'
      → (c' : Root P) × (current e' ≡ some c')
        × (c'.desc ≡ c.desc)
        × ((b : ℕ) → P.bits.get c'.marks b ≡ (P.bits.get c.marks b || P.bits.get root.marks b))
  current-Posted e e' root c w w' h p = elim (Option-cases (S.current e'.pv)) [
    | inl f ↦ ground (arith, f, S.current-post e.pv root.marks root.field p.taken)
    | inr (v, f) ↦
        let m = marks-current e c h in
        (
          record { desc = c.desc; field = v; marks = e'.marks },
          unfold current in ground (arith, f, p.same, m.0),
          refl,
          λ b. ground (arith, p.united b, m.1),
        )
  ]

  -- After a successful open `current` is the value that was given, marks included; after a post on
  -- top of it that has a mark and succeeds, `current` has the same type, and its marks are those of
  -- both values.
  pub current-opened_posted :
      (e : Entry S) (root next : Root P) (w : S.Rings) {e' : Entry S}
      → open_pv e root ≡ (ok tt, e')
      → P.bits.is_empty next.marks ≡ false
      → (post e' next w).0 ≡ ok tt
      → (current e' ≡ some root)
        × ((c : Root P) × (current (post e' next w).1 ≡ some c)
            × (c.desc ≡ root.desc)
            × ((b : ℕ)
                → P.bits.get c.marks b ≡ (P.bits.get root.marks b || P.bits.get next.marks b)))
  current-opened_posted e root next w {e'} h m p =
      let c = current-opened e root h in
      (
        c,
        elim (post-outcome S e' next w) [
          | inl (_, r) ↦ cc
          | inr (inl (d, _, _, r)) ↦ cc
          | inr (inr (inl (_, clear, r))) ↦ cc
          | inr (inr (inr (inl (x, _, r)))) ↦ cc
          | inr (inr (inr (inr (o, _, _, q)))) ↦
              current-Posted e' (post e' next w).1 next root w (post e' next w).2 c q
        ],
      )

  -- A subscribe between the two halves of `close` on an open PV gets the current value and is
  -- registered, and the end of `close` leaves it registered on the closed PV.
  pub subs-close_race :
      (e : Entry S) (limit : ℕ) (m : Bool) (w : S.Rings) (v : P.Field)
      → S.current e.pv ≡ some v
      → let (seed, between, w') = subscribe (close_begin e) limit m w in
        let after = close_end between in
        (seed ≡ some v)
        × (S.current after.pv ≡ none)
        × (after.opened ≡ none)
        × ((sub : Subscriber S) × (after.subs ≡ sub ∷ []))
  unfolding close_begin close_end subscribe
  subs-close_race e limit m w v h =
      rw (h, subscribe)
        (
          refl,
          S.current-close e.pv,
          refl,
          ((wrap m (S.bounded limit w).0 v (S.bounded limit w).1).0, refl),
        )
