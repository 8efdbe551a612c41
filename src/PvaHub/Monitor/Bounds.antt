-- ===== src/PvaHub/Monitor/Bounds.antt =====
-- src/pva/hub.rs, `Monitor`: how long the queue may grow.
pub mod Churn
use repics.Prelude.{
  ℕ, suc, ◌+◌, ◌*◌, ◌≤◌, ◌<◌, ◌≡◌, refl, sym, ap, ◌∙◌, inl, inr, Bool, true, not, false, Option,
  none, some, List, [], ◌∷◌, ◌++◌, arith, length, length-append, count_if, count_if-append,
  count_if-cons, count_if-nil, if◌then◌else◌,
}
use mathlib.Core.Path.{subst}
use repics.Epics.Pvdata.{Pvdata}
use repics.PvaHub.Monitor.{
  Update, value, connected, disconnected, finished, Queue, is_value, signal, push, squash, take,
  push_value, prepend, push_value_cases, items-push, MonitorConnEvent, conn_update, opening_queue,
  Call, frame, conn, drain, call, run,
}

module _ {P : Pvdata} where
  abbrev pub values : List (Update P) → ℕ
  values us = count_if is_value us

  ends_in_value : List (Update P) → Bool
  ends_in_value [] = false
  ends_in_value (u ∷ []) = is_value u
  ends_in_value (u ∷ w ∷ us) = ends_in_value (w ∷ us)

  slack : List (Update P) → ℕ
  unfolding ends_in_value
  slack us = if ends_in_value us then 0 else 1

  -- Twice the values, and one more unless the tail is a value, is at most the limit and the length.
  abbrev IsBounded : ℕ → List (Update P) → Type 0
  IsBounded limit us = 2 * values us + slack us ≤ limit + length us

  record SameShape (us ws : List (Update P)) : Type 0 where
    same_values : values ws ≡ values us
    same_length : length ws ≡ length us
    tail : ends_in_value ws ≡ true

  abbrev IsShaped : Option (List (Update P)) → List (Update P) → Type 0
  IsShaped none us = ends_in_value us ≡ false
  IsShaped (some ws) us = (SameShape us ws) × (ends_in_value us ≡ true)

  prepend-IsShaped :
      (u w : Update P) (us : List (Update P)) (o : Option (List (Update P)))
      → IsShaped o (w ∷ us)
      → IsShaped (prepend u o) (u ∷ w ∷ us)
  unfolding prepend ends_in_value
  prepend-IsShaped u w us none h = h
  prepend-IsShaped u w us (some []) (s, h) = absurd (omega (arith, s.same_length))
  prepend-IsShaped u w us (some (x ∷ ws)) (s, h) = (
    record {
      same_values = ground (
        arith,
        s.same_values,
        count_if-cons is_value u (x ∷ ws),
        count_if-cons is_value u (w ∷ us),
      );
      same_length = ap suc s.same_length;
      tail = s.tail;
    },
    h,
  )

  squash-IsShaped :
      (us : List (Update P)) (d : P.Desc) (v : P.Field) (c : P.bits.Bits)
      → IsShaped (squash us d v c) us
  unfolding squash ends_in_value
  squash-IsShaped [] d v c = refl
  squash-IsShaped (value d₀ v₀ c₀ ∷ []) d v c = (
    record {
      same_values = count_if-cons is_value _ [] ∙ sym (count_if-cons is_value (value d₀ v₀ c₀) []);
      same_length = refl;
      tail = refl;
    },
    refl,
  )
  squash-IsShaped (connected p ∷ []) d v c = refl
  squash-IsShaped (disconnected ∷ []) d v c = refl
  squash-IsShaped (finished ∷ []) d v c = refl
  squash-IsShaped (u ∷ w ∷ us) d v c =
      prepend-IsShaped u w us (squash (w ∷ us) d v c) (squash-IsShaped (w ∷ us) d v c)

  ends_in_value-append :
      (us : List (Update P)) (u : Update P) → ends_in_value (us ++ (u ∷ [])) ≡ is_value u
  unfolding ends_in_value
  ends_in_value-append [] u = refl
  ends_in_value-append (w ∷ []) u = refl
  ends_in_value-append (w ∷ x ∷ us) u = ends_in_value-append (x ∷ us) u

  values-le : (us : List (Update P)) → values us ≤ length us
  values-le [] = ground (arith, count_if-nil (is_value {P = P}))
  values-le (u ∷ us) = ground (arith, values-le us, count_if-cons is_value u us)

  values-append :
      (us : List (Update P)) (u : Update P)
      → values (us ++ (u ∷ [])) ≡ values us + (if is_value u then 1 else 0)
  values-append us u = ground (
    arith,
    count_if-append is_value us (u ∷ []),
    count_if-cons is_value u [],
    count_if-nil (is_value {P = P}),
  )

  push_value-IsBounded :
      (q : Queue P) (d : P.Desc) (v : P.Field) (c : P.bits.Bits)
      → 0 < q.limit
      → IsBounded q.limit q.items
      → IsBounded q.limit (push_value q d v c).0.items
  unfolding slack
  push_value-IsBounded q d v c pos h = elim (push_value_cases q d v c) [
    | inl (full, e) ↦
        let s = subst (λ o. IsShaped o q.items) e (squash-IsShaped q.items d v c) in
        ground (arith, s.0.same_values, s.0.same_length, s.0.tail, s.1)
    | inr (e, inl room) ↦ rw e (appended q.items room)
    | inr (e, inr tail) ↦
        let t = subst (λ o. IsShaped o q.items) tail (squash-IsShaped q.items d v c) in
        rw e (after_event t)
  ]
    where
      after_event :
          ends_in_value q.items ≡ false → IsBounded q.limit (q.items ++ (value d v c ∷ []))
      after_event t = ground (
        arith,
        values-append q.items (value d v c),
        ends_in_value-append q.items (value d v c),
        length-append q.items (value d v c ∷ []),
        t,
      )

      appended :
          (us : List (Update P))
          → values us < q.limit
          → IsBounded q.limit (us ++ (value d v c ∷ []))
      appended us room = ground (
        arith,
        values-append us (value d v c),
        ends_in_value-append us (value d v c),
        length-append us (value d v c ∷ []),
        values-le us,
      )

  is_value-conn_update : (ev : MonitorConnEvent P) → is_value (conn_update ev) ≡ false
  unfolding conn_update
  is_value-conn_update (MonitorConnEvent.connected p) = refl
  is_value-conn_update MonitorConnEvent.disconnected = refl
  is_value-conn_update MonitorConnEvent.finished = refl

  conn-IsBounded :
      (q : Queue P) (ev : MonitorConnEvent P)
      → IsBounded q.limit q.items
      → IsBounded q.limit (push q (conn_update ev)).0.items
  unfolding slack
  conn-IsBounded q ev h = rw (items-push q (conn_update ev)) (
      ground (
        arith,
        values-append q.items (conn_update ev),
        ends_in_value-append q.items (conn_update ev),
        length-append q.items (conn_update ev ∷ []),
        is_value-conn_update ev,
      ))

  limit-call : (q : Queue P) (c : Call P) → (call q c).limit ≡ q.limit
  unfolding call push_value push signal take
  limit-call q (frame d v c) = ground arith
  limit-call q (conn ev) = ground arith
  limit-call q drain = refl

  call-IsBounded :
      (q : Queue P) (c : Call P)
      → 0 < q.limit
      → IsBounded q.limit q.items
      → IsBounded q.limit (call q c).items
  unfolding call take slack ends_in_value
  call-IsBounded q (frame d v c) pos h = push_value-IsBounded q d v c pos h
  call-IsBounded q (conn ev) pos h = conn-IsBounded q ev h
  call-IsBounded q drain pos h = ground (arith, count_if-nil (is_value {P = P}))

  run-IsBounded :
      (limit : ℕ) (q : Queue P) (cs : List (Call P))
      → 0 < limit
      → q.limit ≡ limit
      → IsBounded limit q.items
      → IsBounded limit (run q cs).items
  unfolding run
  run-IsBounded limit q [] pos e h = h
  run-IsBounded limit q (c ∷ cs) pos e h =
      run-IsBounded limit (call q c) cs pos (limit-call q c ∙ e)
        (rw (← e) (call-IsBounded q c (rw e pos) (rw e h)))

  abbrev pub is_event : Update P → Bool
  is_event u = not (is_value u)

  length-split : (us : List (Update P)) → length us ≡ values us + count_if is_event us
  length-split [] = ground (arith, count_if-nil (is_value {P = P}), count_if-nil event)
    where
      event : Update P → Bool
      event = is_event
  length-split (u ∷ us) =
      ground (arith, length-split us, count_if-cons is_value u us, count_if-cons is_event u us)

  -- Whatever arrives at a new monitor and however often it is drained, with a limit of at least one
  -- the values in its queue exceed the limit by at most the connection items in it.
  pub values-run-le :
      (limit : ℕ) (cs : List (Call P))
      → 0 < limit
      → let items = (run (opening_queue limit) cs).items in
        values items ≤ limit + count_if is_event items
  unfolding opening_queue slack ends_in_value
  values-run-le limit cs pos = ground (
    arith,
    run-IsBounded limit (opening_queue limit) cs pos refl start,
    length-split (run (opening_queue limit) cs).items,
  )
    where
      start : IsBounded limit (disconnected ∷ [])
      start =
          ground (
            arith,
            count_if-cons (is_value {P = P}) disconnected [],
            count_if-nil (is_value {P = P}),
          )
