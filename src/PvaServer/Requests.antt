-- ===== src/PvaServer/Requests.antt =====
-- src/pva/server.rs, `put_value`, `rpc`, `subscribe` and `subscribe_seeded` of `PySource`: requests
-- that do not go through the access gate, and new monitors.
use repics.Prelude.{
  ℕ, ◌≡◌, refl, ◌⊎◌, inl, inr, Bool, true, false, String, string_eq, Option, none, some, [], ◌∷◌,
  ◌++◌, ok, err, arith, ltb, max, if◌then◌else◌, Option-cases,
}
use repics.Prelude.Map.{get}
use repics.Epics.Pvdata.{Pvdata}
use repics.Epics.Shared.{SharedLib, SourceLib}
use repics.PvaServer.Operation.{OpKind, put, rpc, ServerOperation, all_marks, get-all_marks}
use repics.PvaServer.Entry.{Subscriber, Entry}
use repics.PvaServer.Entry as Entries
use repics.PvaServer.Entry.Lifecycle.{subscribe-cases}
use repics.PvaServer.Source.{
  WireName, Checked, no_such_pv, not_open, Source, Routed, entry, text_of,
}

module _ {P : Pvdata} (S : SharedLib P) {I : SourceLib} (heap : ℕ → Entry S) (s : Source I) where
  -- The operation of a call without a context: `0.0.0.0:0` and no credentials.
  unnamed_operation : OpKind → String → P.Desc → P.Field → ServerOperation P
  unnamed_operation kind name desc field = record {
    kind = kind;
    name = name;
    value = record { desc = desc; field = field; marks = all_marks S desc };
    from = none;
    pv_request = none;
    reply = none;
  }

  put_opened : String → P.Field → ℕ → Option P.Desc → Routed P
  unfolding unnamed_operation
  put_opened name value r none = err not_open
  put_opened name value r (some desc) = ok (r, unnamed_operation put name desc value)

  put_found : String → P.Field → Option ℕ → Routed P
  unfolding put_opened
  put_found name value none = err (no_such_pv name)
  put_found name value (some r) = put_opened name value r (S.introspection (heap r).pv)

  pub put_value : WireName → P.Field → Routed P
  unfolding put_found
  put_value name value = put_found (text_of name) value (entry s name)

  rpc_found : String → P.Desc → P.Field → Option ℕ → Routed P
  unfolding unnamed_operation
  rpc_found name desc field none = err (no_such_pv name)
  rpc_found name desc field (some r) = ok (r, unnamed_operation rpc name desc field)

  pub rpc_value : WireName → P.Desc → P.Field → Routed P
  unfolding rpc_found
  rpc_value name desc field = rpc_found (text_of name) desc field (entry s name)

  -- What a new monitor starts with, and the entry that it is registered at.
  abbrev pub Subscribed : Type 0
  Subscribed = Option (P.Field × ℕ × Entry S) × S.Rings

  seeded : ℕ → Option P.Field × Entry S × S.Rings → Subscribed
  seeded r (none, e, w) = (none, w)
  seeded r (some initial, e, w) = (some (initial, r, e), w)

  subscribe_at : ℕ → Bool → Option ℕ → S.Rings → Subscribed
  unfolding seeded
  subscribe_at limit with_marks none w = (none, w)
  subscribe_at limit with_marks (some r) w =
      seeded r (Entries.subscribe (heap r) limit with_marks w)

  -- `subscribe`, with its ring of four.
  pub subscribe : WireName → S.Rings → Subscribed
  unfolding subscribe_at
  subscribe name w = subscribe_at 4 false (entry s name) w

  pub subscribe_seeded : Checked → ℕ → S.Rings → Subscribed
  unfolding subscribe_at
  subscribe_seeded c queue_size w =
      subscribe_at (max queue_size 1) true (if c.allows_read then get c.pv_name s.entries else none)
        w

  abbrev pub IsUnnamed : OpKind → Option ℕ → P.Desc → P.Field → Routed P → Type 0
  IsUnnamed kind found desc field out =
      (r : ℕ) × (op : ServerOperation P) × (found ≡ some r)
      × (out ≡ ok (r, op))
      × (op.kind ≡ kind)
      × (op.from ≡ none)
      × (op.value.desc ≡ desc)
      × (op.value.field ≡ field)
      × ((b : ℕ) → P.bits.get op.value.marks b ≡ ltb b (S.total_bits desc))

  -- A PUT without a context fails at once for a name that is not served or a closed PV; otherwise it
  -- becomes an operation on the entry served under the name, from nobody, with the given value, the
  -- PV's descriptor, and exactly the bits of that descriptor as marks.
  pub put_value-routed :
      (name : WireName) (value : P.Field)
      → ((entry s name ≡ none) × (put_value name value ≡ err (no_such_pv (text_of name))))
        ⊎ (((r : ℕ) × (entry s name ≡ some r)
              × (S.introspection (heap r).pv ≡ none)
              × (put_value name value ≡ err not_open))
            ⊎ ((desc : P.Desc) × IsUnnamed put (entry s name) desc value (put_value name value)))
  unfolding put_value put_found put_opened unnamed_operation
  put_value-routed name value = elim (Option-cases (entry s name)) [
    | inl e ↦ inl (e, ground (arith, e))
    | inr (r, e) ↦ elim (Option-cases (S.introspection (heap r).pv)) [
      | inl i ↦ inr (inl (r, e, i, ground (arith, e, i)))
      | inr (d, i) ↦ inr (
          inr (
            d,
            (
              r,
              unnamed_operation put (text_of name) d value,
              e,
              ground (arith, e, i),
              refl,
              refl,
              refl,
              refl,
              get-all_marks P S d,
            ),
          ))
    ]
  ]

  abbrev pub SubscribeOutcome : Option ℕ → Subscribed → Type 0
  SubscribeOutcome found out =
      ((found ≡ none) × (out.0 ≡ none))
      ⊎ (((r : ℕ) × (found ≡ some r) × (S.current (heap r).pv ≡ none) × (out.0 ≡ none))
          ⊎ ((r : ℕ) × (v : P.Field) × (e : Entry S) × (sub : Subscriber S) × (found ≡ some r)
              × (S.current (heap r).pv ≡ some v)
              × (out.0 ≡ some (v, r, e))
              × (e.subs ≡ (heap r).subs ++ (sub ∷ []))
              × (e.pv ≡ (heap r).pv)
              × (e.opened ≡ (heap r).opened)
              × (e.marks ≡ (heap r).marks)))

  seeded-outcome :
      (limit : ℕ) (m : Bool) (found : Option ℕ) (w : S.Rings)
      → SubscribeOutcome found (subscribe_at limit m found w)
  unfolding subscribe_at
  seeded-outcome limit m none w = inl (refl, refl)
  seeded-outcome limit m (some r) w = elim (subscribe-cases S (heap r) limit m w) [
    | inl (c, o) ↦ go_none c (Entries.subscribe (heap r) limit m w) o
    | inr (v, sub, c, o, e) ↦ go_some v sub c (Entries.subscribe (heap r) limit m w) o e
  ]
    where
      go_none :
          S.current (heap r).pv ≡ none
          → (out : Option P.Field × Entry S × S.Rings) → out.0 ≡ none
          → SubscribeOutcome (some r) (seeded r out)
      go_none c (none, e, w') o = unfold seeded in inr (inl (r, refl, c, refl))
      go_none c (some v, e, w') o = cc

      go_some :
          (v : P.Field) (sub : Subscriber S)
          → S.current (heap r).pv ≡ some v
          → (out : Option P.Field × Entry S × S.Rings) → out.0 ≡ some v
          → out.1 ≡ record (heap r) { subs = (heap r).subs ++ (sub ∷ []) }
          → SubscribeOutcome (some r) (seeded r out)
      go_some v sub c (none, e, w') o q = cc
      go_some v sub c (some x, e, w') o q =
          unfold seeded in
          inr (
            inr (
              r,
              v,
              e,
              sub,
              refl,
              c,
              ground (arith, o),
              ground (arith, q),
              ground (arith, q),
              ground (arith, q),
              ground (arith, q),
            ))

  -- A monitor, plain or with marks, is refused if its name is not served to this client or the PV is
  -- closed. Otherwise it starts with the current value, and one subscriber is added at the end of
  -- those of the PV, which stays as it was otherwise.
  pub subscribe-outcome :
      (c : Checked) (queue_size : ℕ) (name : WireName) (w : S.Rings)
      → SubscribeOutcome (entry s name) (subscribe name w)
        × SubscribeOutcome
            (if c.allows_read then get c.pv_name s.entries else none)
            (subscribe_seeded c queue_size w)
  unfolding subscribe subscribe_seeded
  subscribe-outcome c queue_size name w = (
    seeded-outcome 4 false (entry s name) w,
    seeded-outcome (max queue_size 1) true (if c.allows_read then get c.pv_name s.entries else none)
        w,
  )
