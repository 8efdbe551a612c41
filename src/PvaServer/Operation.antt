-- ===== src/PvaServer/Operation.antt =====
-- src/pva/server.rs, `ServerOperation`, `EventKind` and `event_to_py`: a client's PUT or RPC on its way
-- to the Python handler, and the handler's answer.
use repics.Prelude.{
  ℕ, zero, suc, ◌≡◌, refl, String, Option, none, some, Result, ok, err, arith, ltb,
}
use repics.Epics.Pvdata.{Pvdata}
use repics.Epics.Shared.{SharedLib}

pub data OpKind : Type 0 where
  put rpc : OpKind

-- `Ok(None)`, `Ok(Some(..))` and `Err(text)` of `OpReply`.
pub data OpReply (P : Pvdata) : Type 0 where
  completed : OpReply P
  replied : P.Desc → P.Field → OpReply P
  failure : String → OpReply P

-- A `Root` of a value: its descriptor, its fields and its marks.
pub record Root (P : Pvdata) : Type 0 where
  pub desc : P.Desc
  pub field : P.Field
  pub marks : P.bits.Bits

-- The peer's address and the credentials together are `from`; `none` is `no_creds()` at `0.0.0.0:0`.
pub record ServerOperation (P : Pvdata) : Type 0 where
  pub kind : OpKind
  pub name : String
  pub value : Root P
  pub from : Option P.Peer
  pub pv_request : Option P.Field
  -- The sender of the oneshot channel that the server's task waits on, by its number.
  pub reply : Option ℕ

pub data EventKind (P : Pvdata) : Type 0 where
  put_event rpc_event : ServerOperation P → EventKind P
  first_connect last_disconnect : EventKind P

pub record Event (P : Pvdata) : Type 0 where
  pub token : ℕ
  pub kind : EventKind P

pub data FinishError : Type 0 where
  already_done : FinishError

-- `for b in 0..n { all.set(b) }`
pub below : (P : Pvdata) → ℕ → P.bits.Bits
below P zero = P.bits.empty
below P (suc n) = P.bits.set (below P n) n

module _ {P : Pvdata} where
  -- The kind's name for Python, with the operation it carries.
  pub event_to_py : Event P → ℕ × String × Option (ServerOperation P)
  event_to_py ev = elim ev.kind [
    | put_event op ↦ (ev.token, "put", some op)
    | rpc_event op ↦ (ev.token, "rpc", some op)
    | first_connect ↦ (ev.token, "first", none)
    | last_disconnect ↦ (ev.token, "last", none)
  ]

  unfoldable pub reply_of : OpKind → Option (Root P) → Option String → OpReply P
  reply_of kind value (some msg) = failure msg
  reply_of rpc (some v) none = replied v.desc v.field
  reply_of _ _ none = completed

  finished : Option ℕ → OpReply P → Result FinishError (ℕ × OpReply P)
  finished none reply = err already_done
  finished (some tx) reply = ok (tx, reply)

  -- `finish`: the sender is taken, and the reply goes through it.
  pub finish :
      ServerOperation P → OpReply P → Result FinishError (ℕ × OpReply P) × ServerOperation P
  unfolding finished
  finish op reply = (finished op.reply reply, record op { reply = none })

  pub done :
      ServerOperation P
      → Option (Root P)
      → Option String
      → Result FinishError (ℕ × OpReply P) × ServerOperation P
  unfolding finish reply_of
  done op value error = finish op (reply_of op.kind value error)

  -- `done` answers the waiting client once: the first call sends a failure exactly if there is an
  -- error, a value only for an RPC, and a plain completion otherwise; any later call is refused and
  -- sends nothing.
  pub done-once :
      (op : ServerOperation P) (v v' : Option (Root P)) (e e' : Option String) (tx : ℕ)
      → op.reply ≡ some tx
      → ((done op v e).0 ≡ ok (tx, reply_of op.kind v e))
        × ((done (done op v e).1 v' e').0 ≡ err already_done)
        × ((msg : String) → (reply_of op.kind v e ≡ failure msg) → e ≡ some msg)
        × ((d : P.Desc) (f : P.Field)
            → (reply_of op.kind v e ≡ replied d f)
            → (op.kind ≡ rpc) × (e ≡ none))
  unfolding done finish finished reply_of
  done-once op v v' e e' tx h = (
    ground (arith, h),
    refl,
    λ msg q. failed op.kind v e msg q,
    λ d f q. valued op.kind v e d f q,
  )
    where
      failed :
          (k : OpKind) (v : Option (Root P)) (e : Option String) (msg : String)
          → reply_of k v e ≡ failure msg
          → e ≡ some msg
      failed k v (some m) msg q = ground arith
      failed put v none msg q = cc
      failed rpc none none msg q = cc
      failed rpc (some x) none msg q = cc

      valued :
          (k : OpKind) (v : Option (Root P)) (e : Option String) (d : P.Desc) (f : P.Field)
          → reply_of k v e ≡ replied d f
          → (k ≡ rpc) × (e ≡ none)
      valued k v (some m) d f q = cc
      valued put v none d f q = cc
      valued rpc none none d f q = cc
      valued rpc (some x) none d f q = (refl, refl)

module _ {P : Pvdata} (S : SharedLib P) where
  pub all_marks : P.Desc → P.bits.Bits
  unfolding below
  all_marks desc = below P (S.total_bits desc)

  -- The `pvRequest` of an operation, with every bit marked.
  pub pv_request : ServerOperation P → Option (Root P)
  unfolding all_marks
  pv_request op = elim op.pv_request [
    | none ↦ none
    | some req ↦
        let desc = S.descriptor req in
        some (record { desc = desc; field = req; marks = all_marks desc })
  ]

get-below : (P : Pvdata) (n b : ℕ) → P.bits.get (below P n) b ≡ ltb b n
unfolding below
get-below P zero b = ground (arith, P.bits.get-empty b)
get-below P (suc n) b = ground (arith, P.bits.get-set (below P n) n b, get-below P n b)

-- `all_marks` marks the bits of the descriptor, and no others.
pub get-all_marks :
    (P : Pvdata) (S : SharedLib P) (desc : P.Desc) (b : ℕ)
    → P.bits.get (all_marks S desc) b ≡ ltb b (S.total_bits desc)
unfolding all_marks
get-all_marks P S desc b = get-below P (S.total_bits desc) b
