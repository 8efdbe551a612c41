-- ===== src/PvaServer/Source/Puts.antt =====
-- src/pva/server.rs, `put_delta_checked`, `run_op` and `done`: a client's PUT from the wire to the
-- handler and back.
use repics.Prelude.{
  ap, ◌∙◌, Result, ℕ, ◌≡◌, refl, ◌⊎◌, inl, inr, true, false, string_eq, Option, none, some, [], ◌∷◌,
  ◌++◌, ok, err, arith, Bool-cases, Option-cases,
}
use repics.Prelude.Map.{get}
use repics.Epics.Pvdata.{Pvdata}
use repics.Epics.Shared.{SharedLib, SourceLib}
use repics.CaServer.WorkQueue.{WorkQueue, send}
use repics.PvaServer.Operation.{OpKind, put, rpc, Root, ServerOperation, Event, put_event}
use repics.PvaServer.Entry.{Entry}
use repics.PvaServer.Source.{
  ChannelContext, Checked, denied, no_such_pv, not_open, empty, Source, Routed, route, RpcReply,
  value, handler_queue_stopped, OpError, put_delta_begin, operation_of, merged, put_to,
  put_delta_checked, event_of, sent, run_op_begin,
}

module _ {P : Pvdata} (S : SharedLib P) {I : SourceLib} (heap : ℕ → Entry S) (s : Source I) where
  -- What the handler gets of a PUT that is let through.
  pub record IsPut (c : Checked) (desc : P.Desc) (changed : P.bits.Bits) (ctx : ChannelContext P)
      (op : ServerOperation P) (prior : P.Field) (delta : P.Field) : Type 0 where
    pub a_put : op.kind ≡ put
    pub addressed : op.name ≡ c.pv_name
    pub marked : op.value.marks ≡ changed
    pub filled : op.value.field ≡ S.fill_unmarked_from_prior desc changed delta prior
    pub credited : op.from ≡ some ctx.from

  abbrev pub PutRouted :
      Checked → P.Desc → P.bits.Bits → P.Field → ChannelContext P → Routed P → Type 0
  PutRouted c desc changed delta ctx out =
      ((c.allows_write ≡ false) × (out ≡ err (denied c.pv_name)))
      ⊎ (((c.allows_write ≡ true)
            × (get c.pv_name s.entries ≡ none)
            × (out ≡ err (no_such_pv c.pv_name)))
          ⊎ (((r : ℕ) × (c.allows_write ≡ true)
                × (get c.pv_name s.entries ≡ some r)
                × (S.current (heap r).pv ≡ none)
                × (out ≡ err not_open))
              ⊎ ((r : ℕ) × (prior : P.Field) × (op : ServerOperation P) × (c.allows_write ≡ true)
                  × (get c.pv_name s.entries ≡ some r)
                  × (S.current (heap r).pv ≡ some prior)
                  × (out ≡ ok (r, op))
                  × IsPut c desc changed ctx op prior delta)))

  put_delta_checked-routed :
      (c : Checked) (desc : P.Desc) (changed : P.bits.Bits) (delta : P.Field)
      (ctx : ChannelContext P)
      → PutRouted c desc changed delta ctx (put_delta_checked S heap s c desc changed delta ctx)
  unfolding put_delta_checked put_to merged operation_of
  put_delta_checked-routed c desc changed delta ctx = elim (Bool-cases c.allows_write) [
    | inl may ↦ elim (Option-cases (get c.pv_name s.entries)) [
      | inl absent ↦ inr (inl (may, absent, ground (arith, may, absent)))
      | inr (r, there) ↦ elim (Option-cases (S.current (heap r).pv)) [
        | inl shut ↦ inr (inr (inl (r, may, there, shut, ground (arith, may, there, shut))))
        | inr (prior, open_value) ↦ inr (
            inr (
              inr (
                r,
                prior,
                operation_of S heap s put c.pv_name
                    (record {
                      desc = desc;
                      field = S.fill_unmarked_from_prior desc changed delta prior;
                      marks = changed;
                    })
                    ctx,
                may,
                there,
                open_value,
                ground (arith, may, there, open_value),
                record {
                  a_put = refl;
                  addressed = refl;
                  marked = refl;
                  filled = refl;
                  credited = refl;
                },
              )))
      ]
    ]
    | inr may_not ↦ inl (may_not, ground (arith, may_not))
  ]

  -- How a PUT goes on its way: nothing is queued, for the first of the conditions that fails; or its
  -- operation is, at the end of the queue.
  pub PutQueued :
      Checked
      → P.Desc
      → P.bits.Bits
      → P.Field
      → ChannelContext P
      → (ℕ → ℕ)
      → ℕ
      → WorkQueue (Event P)
      → Result OpError (WorkQueue (Event P))
      → Type 0
  PutQueued c desc changed delta ctx token tx q out =
      ((c.allows_write ≡ false) × (out ≡ err (denied c.pv_name)))
      ⊎ (((c.allows_write ≡ true)
            × (get c.pv_name s.entries ≡ none)
            × (out ≡ err (no_such_pv c.pv_name)))
          ⊎ ((r : ℕ) × (c.allows_write ≡ true)
              × (get c.pv_name s.entries ≡ some r)
              × (((S.current (heap r).pv ≡ none) × (out ≡ err not_open))
                  ⊎ ((prior : P.Field) × (op : ServerOperation P) × (S.current (heap r).pv
                        ≡ some prior)
                      × IsPut c desc changed ctx op prior delta
                      × (((q.dropped ≡ true) × (out ≡ err handler_queue_stopped))
                          ⊎ ((q.dropped ≡ false)
                              × (out
                                  ≡ ok (record q {
                                    pending =
                                        q.pending
                                        ++ (record {
                                          token = token r;
                                          kind = put_event (record op { reply = some tx });
                                        }
                                            ∷ []);
                                  }))))))))

  queued :
      (op : ServerOperation P) (token tx : ℕ) (q : WorkQueue (Event P))
      → ((q.dropped ≡ true) × (run_op_begin token put op tx q ≡ err handler_queue_stopped))
        ⊎ ((q.dropped ≡ false)
            × (run_op_begin token put op tx q
                ≡ ok (record q {
                  pending =
                      q.pending
                      ++ (record { token = token; kind = put_event (record op { reply = some tx }) }
                          ∷ []);
                })))
  unfolding run_op_begin sent event_of send
  queued op token tx q = elim (Bool-cases q.dropped) [
    | inl gone ↦ inl (gone, ground (arith, gone))
    | inr alive ↦ inr (alive, ground (arith, alive))
  ]

  -- A PUT is queued for the handler of the PV that was served under the name at the call exactly if the
  -- client may write, there is such a PV, it is open when the future runs, and the queue lives; the
  -- operation then carries the marks of the client, the current value under them and the client's
  -- credentials. Otherwise the first of these conditions that fails is the error.
  pub put_delta_begin-queued :
      (c : Checked) (desc : P.Desc) (changed : P.bits.Bits) (delta : P.Field)
      (ctx : ChannelContext P) (token : ℕ → ℕ) (tx : ℕ) (q : WorkQueue (Event P))
      → PutQueued c desc changed delta ctx token tx q
          (put_delta_begin S heap s c desc changed delta ctx token tx q)
  unfolding put_delta_begin route PutQueued
  put_delta_begin-queued c desc changed delta ctx token tx q =
      elim (put_delta_checked-routed c desc changed delta ctx) [
        | inl (may_not, e) ↦ inl (may_not, ap (route token tx q) e)
        | inr (inl (may, absent, e)) ↦ inr (inl (may, absent, ap (route token tx q) e))
        | inr (inr (inl (r, may, there, shut, e))) ↦
            inr (inr (r, may, there, inl (shut, ap (route token tx q) e)))
        | inr (inr (inr (r, prior, op, may, there, open_value, e, is_put))) ↦
            let step = ap (route token tx q) e in
            inr (
              inr (
                r,
                may,
                there,
                inr (
                  prior,
                  op,
                  open_value,
                  is_put,
                  elim (queued op (token r) tx q) [
                    | inl (gone, x) ↦ inl (gone, step ∙ x)
                    | inr (alive, x) ↦ inr (alive, step ∙ x)
                  ],
                ),
              ))
      ]

module _ {P : Pvdata} where
  -- What the client of an operation is told when the handler is done without an error.
  pub success : OpKind → Option (Root P) → RpcReply P
  success put v = empty
  success rpc none = empty
  success rpc (some v) = value v.desc v.field
