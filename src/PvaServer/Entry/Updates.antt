-- ===== src/PvaServer/Entry/Updates.antt =====
-- src/pva/server.rs, `PvEntry`: what posts, opens and closes come to.
use repics.Prelude.{
  ℕ, ◌≡◌, ◌≢◌, refl, List, [], ◌∷◌, String, Bool, if◌then◌else◌, ap, ◌∙◌, sym, ◌⊎◌, inl, inr, true,
  false, ◌||◌, Option, none, some, Result, ok, err, arith, Option-cases,
}
use mathlib.Core.Path.{subst}
use repics.Epics.Pvdata.{Pvdata}
use repics.Epics.Shared.{SharedLib}
use repics.PvaServer.Operation.{Root}
use repics.PvaServer.Entry.{
  Entry, Subscriber, marked, plain, post_to, PostError, not_open, type_differs, refused, retain,
  deliver, stored, post_open, post_in, post,
}

module _ {P : Pvdata} (S : SharedLib P) where
  -- Each subscriber in turn is offered a value, by a ring that takes the marked paths or not, and from
  -- the rings as the one before left them; it stays exactly if its ring took the value.
  pub data Offered (v : P.Field) (paths : List String)
      : List (Subscriber S) → S.Rings → List (Subscriber S) → S.Rings → Type 0 where
    nobody : {w : S.Rings} → Offered v paths [] w [] w
    marked_stays :
        {box : S.Outbox} {subs rest : List (Subscriber S)} {w w₁ w₂ : S.Rings}
        → S.post_marked box v paths w ≡ (true, w₁)
        → Offered v paths subs w₁ rest w₂
        → Offered v paths (marked box ∷ subs) w (marked box ∷ rest) w₂
    marked_leaves :
        {box : S.Outbox} {subs rest : List (Subscriber S)} {w w₁ w₂ : S.Rings}
        → S.post_marked box v paths w ≡ (false, w₁)
        → Offered v paths subs w₁ rest w₂
        → Offered v paths (marked box ∷ subs) w rest w₂
    plain_stays :
        {box : S.Outbox} {subs rest : List (Subscriber S)} {w w₁ w₂ : S.Rings}
        → S.post_plain box v w ≡ (true, w₁)
        → Offered v paths subs w₁ rest w₂
        → Offered v paths (plain box ∷ subs) w (plain box ∷ rest) w₂
    plain_leaves :
        {box : S.Outbox} {subs rest : List (Subscriber S)} {w w₁ w₂ : S.Rings}
        → S.post_plain box v w ≡ (false, w₁)
        → Offered v paths subs w₁ rest w₂
        → Offered v paths (plain box ∷ subs) w rest w₂

  marked-Offered :
      (box : S.Outbox) (v : P.Field) (paths : List String) (w w₂ : S.Rings) (r : Bool × S.Rings)
      (subs rest : List (Subscriber S))
      → S.post_marked box v paths w ≡ r
      → Offered v paths subs r.1 rest w₂
      → Offered v paths (marked box ∷ subs) w (if r.0 then marked box ∷ rest else rest) w₂
  marked-Offered box v paths w w₂ (true, w₁) subs rest h x = marked_stays h x
  marked-Offered box v paths w w₂ (false, w₁) subs rest h x = marked_leaves h x

  plain-Offered :
      (box : S.Outbox) (v : P.Field) (paths : List String) (w w₂ : S.Rings) (r : Bool × S.Rings)
      (subs rest : List (Subscriber S))
      → S.post_plain box v w ≡ r
      → Offered v paths subs r.1 rest w₂
      → Offered v paths (plain box ∷ subs) w (if r.0 then plain box ∷ rest else rest) w₂
  plain-Offered box v paths w w₂ (true, w₁) subs rest h x = plain_stays h x
  plain-Offered box v paths w w₂ (false, w₁) subs rest h x = plain_leaves h x

  retain-Offered :
      (subs : List (Subscriber S)) (v : P.Field) (paths : List String) (w : S.Rings)
      → Offered v paths subs w (retain subs v paths w).0 (retain subs v paths w).1
  unfolding retain post_to
  retain-Offered [] v paths w = nobody
  retain-Offered (marked box ∷ subs) v paths w =
      marked-Offered box v paths w _ (S.post_marked box v paths w) subs _ refl
        (retain-Offered subs v paths (S.post_marked box v paths w).1)
  retain-Offered (plain box ∷ subs) v paths w =
      plain-Offered box v paths w _ (S.post_plain box v w) subs _ refl
        (retain-Offered subs v paths (S.post_plain box v w).1)

  -- What a successful post leaves: the library has stored the marked fields, the marks are united,
  -- and of the subscribers those are left that took the stored value.
  pub record Posted (e e' : Entry S) (root : Root P) (w w' : S.Rings) : Type 0 where
    pub taken : S.post_delta e.pv root.marks root.field ≡ ok e'.pv
    pub united : (b : ℕ) → P.bits.get e'.marks b ≡ (P.bits.get e.marks b || P.bits.get root.marks b)
    pub same : e'.opened ≡ e.opened
    pub told :
        (v : P.Field)
        → S.current e'.pv ≡ some v
        → Offered v (S.changed_bitset_paths root.desc root.marks) e.subs w e'.subs w'

  abbrev pub PostOutcome :
      Entry S → Root P → S.Rings → Result (PostError S) (Unit {0}) × Entry S × S.Rings → Type 0
  PostOutcome e root w r =
      ((e.opened ≡ none) × (r ≡ (err not_open, e, w)))
      ⊎ (((d : P.Desc) × (e.opened ≡ some d) × (root.desc ≢ d) × (r ≡ (err type_differs, e, w)))
          ⊎ (((e.opened ≡ some root.desc)
                × (P.bits.is_empty root.marks ≡ true)
                × (r ≡ (ok tt, e, w)))
              ⊎ (((x : S.Error) × (S.post_delta e.pv root.marks root.field ≡ err x)
                    × (r ≡ (err (refused x), e, w)))
                  ⊎ ((e.opened ≡ some root.desc)
                      × (P.bits.is_empty root.marks ≡ false)
                      × (r.0 ≡ ok tt)
                      × Posted e r.1 root w r.2))))

  stored-outcome :
      (e : Entry S) (root : Root P) (w : S.Rings) (r : Result S.Error S.Shared)
      → S.post_delta e.pv root.marks root.field ≡ r
      → ((x : S.Error) × (S.post_delta e.pv root.marks root.field ≡ err x)
          × (stored e root r w ≡ (err (refused x), e, w)))
        ⊎ (((stored e root r w).0 ≡ ok tt)
            × Posted e (stored e root r w).1 root w (stored e root r w).2)
  unfolding stored
  stored-outcome e root w (err x) q = inl (x, q, refl)
  stored-outcome e root w (ok pv) q =
      let e' = record e { pv = pv; marks = P.bits.union_with e.marks root.marks } in
      inr (refl, go e' refl refl refl refl (S.current pv) refl)
    where
      go :
          (e' : Entry S)
          → e'.pv ≡ pv
          → e'.marks ≡ P.bits.union_with e.marks root.marks
          → e'.opened ≡ e.opened
          → e'.subs ≡ e.subs
          → (cur : Option P.Field) → S.current pv ≡ cur
          → Posted e (deliver e' root cur w).0 root w (deliver e' root cur w).1
      go e' a b c s none h =
          unfold deliver in
          record {
            taken = ground (arith, q, a);
            united = λ k. ground (arith, b, P.bits.get-union_with e.marks root.marks k);
            same = c;
            told = λ v f. absurd (ground (arith, f, h, a));
          }
      go e' a b c s (some cur) h =
          unfold deliver in
          record {
            taken = ground (arith, q, a);
            united = λ k. ground (arith, b, P.bits.get-union_with e.marks root.marks k);
            same = c;
            told = λ v f.
                let paths = S.changed_bitset_paths root.desc root.marks in
                let (rest, w') = retain e'.subs cur paths w in
                let same_value : cur ≡ v = ground (arith, f, h, a) in
                subst (λ u. Offered u paths e.subs w rest w') same_value
                  (subst (λ subs. Offered cur paths subs w rest w') s
                    (retain-Offered e'.subs cur paths w));
          }

  post-none :
      (e : Entry S) (root : Root P) (w : S.Rings)
      → e.opened ≡ none
      → post e root w ≡ (err not_open, e, w)
  unfolding post post_in
  post-none e root w h = ground (arith, h)

  post-some :
      (e : Entry S) (root : Root P) (w : S.Rings) (d : P.Desc)
      → e.opened ≡ some d
      → post e root w ≡ post_open e d root w
  unfolding post post_in
  post-some e root w d h = ground (arith, h)

  post_open-cases :
      (e : Entry S) (root : Root P) (w : S.Rings) (d : P.Desc)
      → ((S.same_desc.equal root.desc d ≡ false)
          × (post_open e d root w ≡ (err type_differs, e, w)))
        ⊎ (((S.same_desc.equal root.desc d ≡ true)
              × (P.bits.is_empty root.marks ≡ true)
              × (post_open e d root w ≡ (ok tt, e, w)))
            ⊎ ((S.same_desc.equal root.desc d ≡ true)
                × (P.bits.is_empty root.marks ≡ false)
                × (post_open e d root w
                    ≡ stored e root (S.post_delta e.pv root.marks root.field) w)))
  unfolding post_open
  post_open-cases e root w d = ground arith

  -- A post is refused while the PV is closed, for a value of another type, and when the library
  -- refuses it, and it is ignored if no field is marked; each time the PV and the rings stay as
  -- they were. Otherwise the library has stored the marked fields, the marks are those that were
  -- and those of the value, the type stays, and the subscribers are offered the value that is then
  -- stored, each in turn, and those are kept whose ring took it.
  pub post-outcome :
      (e : Entry S) (root : Root P) (w : S.Rings) → PostOutcome e root w (post e root w)
  post-outcome e root w = elim (Option-cases e.opened) [
    | inl h ↦ inl (h, post-none e root w h)
    | inr (d, h) ↦
        let p = post-some e root w d h in
        elim (post_open-cases e root w d) [
          | inl (differs, r) ↦ inr (
              inl (
                d,
                h,
                λ q. ground (arith, (S.same_desc.equal_iff root.desc d).1 q, differs),
                p ∙ r,
              ))
          | inr (inl (same, clear, r)) ↦ inr (
              inr (
                inl (h ∙ ap some (sym ((S.same_desc.equal_iff root.desc d).0 same)), clear, p ∙ r)))
          | inr (inr (same, touched, r)) ↦
              from_stored (h ∙ ap some (sym ((S.same_desc.equal_iff root.desc d).0 same))) touched
                (p ∙ r) (stored-outcome e root w (S.post_delta e.pv root.marks root.field) refl)
        ]
  ]
    where
      from_stored :
          e.opened ≡ some root.desc
          → P.bits.is_empty root.marks ≡ false
          → let s = stored e root (S.post_delta e.pv root.marks root.field) w in
            post e root w ≡ s
            → ((x : S.Error) × (S.post_delta e.pv root.marks root.field ≡ err x)
                × (s ≡ (err (refused x), e, w)))
              ⊎ ((s.0 ≡ ok tt) × Posted e s.1 root w s.2)
            → PostOutcome e root w (post e root w)
      from_stored h touched r (inl (x, q, t)) = inr (inr (inr (inl (x, q, r ∙ t))))
      from_stored h touched r (inr (t, p)) =
          subst (PostOutcome e root w) (sym r) (inr (inr (inr (inr (h, touched, t, p)))))
