-- ===== src/PvaServer/Entry/Lifecycle.antt =====
-- src/pva/server.rs, `PvEntry`: the state under the lock and the library's PV, over a PV's life.
use repics.Prelude.{
  ◌⊎◌, ℕ, ◌≡◌, refl, ◌∙◌, sym, inl, inr, Bool, false, none, some, Result, ok, err, List, [], ◌∷◌,
  arith, Option-cases, ◌++◌,
}
use mathlib.Core.Path.{subst}
use repics.Prelude.Map.{is_some}
use repics.Epics.Pvdata.{Pvdata}
use repics.Epics.Shared.{SharedLib}
use repics.PvaServer.Operation.{Root}
use repics.PvaServer.Entry.{
  Subscriber, Entry, PostError, new, open_pv, opened_pv, post, close_begin, close_end, close, wrap,
  subscribe,
}
use repics.PvaServer.Entry.Updates.{Posted, post-outcome}

pub data Call (P : Pvdata) : Type 0 where
  opens posts : Root P → Call P
  closes : Call P
  subscribes : ℕ → Bool → Call P

module _ {P : Pvdata} (S : SharedLib P) where
  call : Entry S × S.Rings → Call P → Entry S × S.Rings
  call (e, w) (opens root) = ((open_pv e root).1, w)
  call (e, w) (posts root) = let r = post e root w in (r.1, r.2)
  call (e, w) closes = (close e, w)
  call (e, w) (subscribes limit m) = let r = subscribe e limit m w in (r.1, r.2)

  pub run : Entry S × S.Rings → List (Call P) → Entry S × S.Rings
  unfolding call
  run ew [] = ew
  run ew (c ∷ cs) = run (call ew c) cs

  -- The state under the lock goes with the library's PV.
  pub record IsConsistent (e : Entry S) : Type 0 where
    pub open_together : is_some (S.current e.pv) ≡ is_some e.opened
    pub closed_subs : e.opened ≡ none → e.subs ≡ []
    pub closed_marks : e.opened ≡ none → (b : ℕ) → P.bits.get e.marks b ≡ false

  pub new-IsConsistent : IsConsistent new
  unfolding new
  new-IsConsistent = record {
    open_together = ground (arith, S.current-fresh);
    closed_subs = λ h. refl;
    closed_marks = λ h b. P.bits.get-empty b;
  }

  close-IsConsistent : (e : Entry S) → IsConsistent (close e)
  unfolding close close_begin close_end
  close-IsConsistent e = record {
    open_together = ground (arith, S.current-close e.pv);
    closed_subs = λ h. refl;
    closed_marks = λ h b. P.bits.get-empty b;
  }

  open_pv-IsConsistent :
      (e : Entry S) (root : Root P) → IsConsistent e → IsConsistent (open_pv e root).1
  unfolding open_pv
  open_pv-IsConsistent e root i = go (S.open_shared e.pv root.desc root.field) refl
    where
      go :
          (r : Result S.Error S.Shared)
          → S.open_shared e.pv root.desc root.field ≡ r
          → IsConsistent (opened_pv e root r).1
      go (err x) q = unfold opened_pv in i
      go (ok pv) q =
          unfold opened_pv in
          record {
            open_together = ground (arith, S.current-open e.pv root.desc root.field q);
            closed_subs = λ h. cc;
            closed_marks = λ h b. cc;
          }

  subscribe-keeps :
      (e : Entry S) (limit : ℕ) (m : Bool) (w : S.Rings)
      → let e' = (subscribe e limit m w).1 in
        (e'.pv ≡ e.pv)
        × (e'.marks ≡ e.marks)
        × (e'.opened ≡ e.opened)
        × (S.current e.pv ≡ none → e'.subs ≡ e.subs)
  unfolding subscribe
  subscribe-keeps e limit m w = elim (Option-cases (S.current e.pv)) [
    | inl h ↦ ground (arith, h)
    | inr (v, h) ↦ ground (arith, h)
  ]

  Posted-IsConsistent :
      (e e' : Entry S) (root : Root P) (w w' : S.Rings)
      → e.opened ≡ some root.desc
      → Posted S e e' root w w'
      → IsConsistent e'
  Posted-IsConsistent e e' root w w' h p = record {
    open_together = ground (arith, S.current-post e.pv root.marks root.field p.taken, p.same, h);
    closed_subs = λ q. ground (arith, p.same, h, q);
    closed_marks = λ q b. ground (arith, p.same, h, q);
  }

  post-IsConsistent :
      (e : Entry S) (root : Root P) (w : S.Rings) → IsConsistent e → IsConsistent (post e root w).1
  post-IsConsistent e root w i = elim (post-outcome S e root w) [
    | inl (_, r) ↦ kept r
    | inr (inl (d, _, _, r)) ↦ kept r
    | inr (inr (inl (_, _, r))) ↦ kept r
    | inr (inr (inr (inl (x, _, r)))) ↦ kept r
    | inr (inr (inr (inr (h, _, _, p)))) ↦
        Posted-IsConsistent e (post e root w).1 root w (post e root w).2 h p
  ]
    where
      kept :
          {x : Result (PostError S) (Unit {0})}
          → post e root w ≡ (x, e, w)
          → IsConsistent (post e root w).1
      kept r =
          subst (λ (t : Result (PostError S) (Unit {0}) × Entry S × S.Rings). IsConsistent t.1)
            (sym r) i

  pub subscribe-cases :
      (e : Entry S) (limit : ℕ) (m : Bool) (w : S.Rings)
      → let r = subscribe e limit m w in
        ((S.current e.pv ≡ none) × (r.0 ≡ none))
        ⊎ ((v : P.Field) × (sub : Subscriber S) × (S.current e.pv ≡ some v)
            × (r.0 ≡ some v)
            × (r.1 ≡ record e { subs = e.subs ++ (sub ∷ []) }))
  unfolding subscribe
  subscribe-cases e limit m w = elim (Option-cases (S.current e.pv)) [
    | inl h ↦ inl (h, ground (arith, h))
    | inr (v, h) ↦ inr (
      v,
      (wrap m (S.bounded limit w).0 v (S.bounded limit w).1).0,
      h,
      rw (h, subscribe) refl,
      rw (h, subscribe) refl,
    )
  ]

  subscribe-IsConsistent :
      (e : Entry S) (limit : ℕ) (m : Bool) (w : S.Rings)
      → IsConsistent e
      → IsConsistent (subscribe e limit m w).1
  subscribe-IsConsistent e limit m w i =
      let (a, b, c, d) = subscribe-keeps e limit m w in
      record {
        open_together = ground (arith, a, c, i.open_together);
        closed_subs = λ h. ground (arith, c, d, i.closed_subs, i.open_together, h);
        closed_marks = λ h k. ground (arith, b, i.closed_marks (sym c ∙ h) k);
      }

  call-IsConsistent :
      (ew : Entry S × S.Rings) (c : Call P) → IsConsistent ew.0 → IsConsistent (call ew c).0
  unfolding call
  call-IsConsistent (e, w) (opens root) i = open_pv-IsConsistent e root i
  call-IsConsistent (e, w) (posts root) i = post-IsConsistent e root w i
  call-IsConsistent (e, w) closes i = close-IsConsistent e
  call-IsConsistent (e, w) (subscribes limit m) i = subscribe-IsConsistent e limit m w i

  run-IsConsistent_from :
      (ew : Entry S × S.Rings) (cs : List (Call P)) → IsConsistent ew.0 → IsConsistent (run ew cs).0
  unfolding run
  run-IsConsistent_from ew [] i = i
  run-IsConsistent_from ew (c ∷ cs) i =
      run-IsConsistent_from (call ew c) cs (call-IsConsistent ew c i)

  -- Whatever is called on a new PV, one call after the other: the library has a current value
  -- exactly while the entry has a type, and a closed PV has no subscriber and no mark left.
  pub run-IsConsistent : (w : S.Rings) (cs : List (Call P)) → IsConsistent (run (new, w) cs).0
  run-IsConsistent w cs = run-IsConsistent_from (new, w) cs new-IsConsistent
