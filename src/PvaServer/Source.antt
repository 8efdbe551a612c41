-- ===== src/PvaServer/Source.antt =====
-- src/pva/server.rs, `PySource`, `PvEntry::run_op` and `PvaProvider`: what clients ask of a provider.
-- Entries are shared, so the tables hold references to them. A call that waits for the handler is cut
-- in two: what it sends, and what it makes of the answer.
pub mod Channels
pub mod Puts
use repics.Prelude.{
  ℕ, Bool, true, false, String, string_eq, Option, none, some, Result, ok, err, List, [], ◌∷◌, ◌++◌,
  if◌then◌else◌,
}
use repics.Prelude.Map.{Map, get, insert, remove, no_entries, is_some}
use repics.Epics.Pvdata.{Pvdata}
use repics.Epics.Shared.{SharedLib, SourceLib}
use repics.CaServer.WorkQueue.{WorkQueue, send, SendError, queue_stopped}
use repics.PvaServer.Operation.{
  OpKind, put, rpc, OpReply, completed, replied, failure, Root, ServerOperation, EventKind,
  put_event, rpc_event, Event, all_marks,
}
use repics.PvaServer.Entry.{Entry}

-- A channel name as it comes: UTF-8, or with what is not UTF-8 replaced.
pub data WireName : Type 0 where
  utf8 lossy : String → WireName

-- `ClientCredentials` and peer are one thing here, as in the operation.
pub record ChannelContext (P : Pvdata) : Type 0 where
  pub from : P.Peer
  pub pv_request : Option P.Field

-- `AccessChecked`, for a channel whose name is UTF-8; any other has no entry.
pub record Checked : Type 0 where
  pub pv_name : String
  pub allows_write : Bool
  pub allows_read : Bool

pub data OpError : Type 0 where
  denied : String → OpError
  no_such_pv : String → OpError
  not_open rpc_not_implemented handler_queue_stopped dropped_without_done : OpError
  handler_failed : String → OpError

pub data RpcReply (P : Pvdata) : Type 0 where
  value : P.Desc → P.Field → RpcReply P
  empty : RpcReply P

-- What comes out of the oneshot channel, in the end.
pub data Answer (P : Pvdata) : Type 0 where
  answered : OpReply P → Answer P
  sender_dropped : Answer P

pub record Source (I : SourceLib) : Type 0 where
  pub inner : I.Table
  pub entries : Map String ℕ
  -- The PV that each attached channel was made against, oldest first.
  pub attached : Map String (List ℕ)

pub data AddError : Type 0 where
  already_added : String → AddError

abbrev pub is_nil : List ℕ → Bool
is_nil [] = true
is_nil (r ∷ rs) = false

abbrev pub queue_or_empty : Option (List ℕ) → List ℕ
queue_or_empty none = []
queue_or_empty (some q) = q

pub text_of : WireName → String
text_of (utf8 name) = name
text_of (lossy name) = name

-- `if attached.get(name).is_some_and(|q| q.is_empty()) { attached.remove(name) }`
left : String → List ℕ → Map String (List ℕ) → Map String (List ℕ)
left name q m = if is_nil q then remove name m else insert name q m

module _ {I : SourceLib} where
  pub new : Source I
  new = record { inner = I.empty_table; entries = no_entries; attached = no_entries }

  inserted : Source I → String → ℕ → Option I.Table → Result AddError (Source I)
  inserted s name r none = err (already_added name)
  inserted s name r (some t) = ok (record s { inner = t; entries = insert name r s.entries })

  pub add : Source I → String → ℕ → Result AddError (Source I)
  unfolding inserted
  add s name r =
      if is_some (get name s.entries)
      then err (already_added name)
      else inserted s name r (I.try_add s.inner name r)

  pub remove_pv : Source I → String → Bool × Source I
  remove_pv s name = (
    is_some (get name s.entries),
    record s { inner = I.remove_name s.inner name; entries = remove name s.entries },
  )

  pub entry : Source I → WireName → Option ℕ
  entry s (utf8 name) = get name s.entries
  entry s (lossy name) = none

  attach : Source I → String → Option ℕ → Option ℕ × Source I
  attach s name none = (none, s)
  attach s name (some r) = (
    some r,
    record s {
      attached = insert name (queue_or_empty (get name s.attached) ++ (r ∷ [])) s.attached;
    },
  )

  -- The first part is the entry whose `attach_channel` is called.
  pub notify_channel_open : Source I → WireName → Option ℕ × Source I
  unfolding entry attach text_of
  notify_channel_open s name = attach s (text_of name) (entry s name)

  detach : Source I → String → Option (List ℕ) → Option ℕ × Source I
  unfolding left
  detach s name none = (none, s)
  detach s name (some []) = (none, record s { attached = left name [] s.attached })
  detach s name (some (r ∷ q)) = (some r, record s { attached = left name q s.attached })

  -- The first part is the entry whose `detach_channel` is called.
  pub notify_channel_close : Source I → WireName → Option ℕ × Source I
  unfolding detach
  notify_channel_close s (lossy name) = (none, s)
  notify_channel_close s (utf8 name) = detach s name (get name s.attached)

-- The entry that an operation goes to, with the operation, or an error at once.
abbrev pub Routed : Pvdata → Type 0
Routed P = Result OpError (ℕ × ServerOperation P)

module _ {P : Pvdata} (S : SharedLib P) {I : SourceLib} (heap : ℕ → Entry S) (s : Source I) where
  -- The operations of the calls with a context; `reply` is set by `run_op`.
  operation_of : OpKind → String → Root P → ChannelContext P → ServerOperation P
  operation_of kind name root ctx = record {
    kind = kind;
    name = name;
    value = root;
    from = some ctx.from;
    pv_request = ctx.pv_request;
    reply = none;
  }

  merged :
      String → P.Desc → P.bits.Bits → P.Field → ChannelContext P → ℕ → Option P.Field → Routed P
  unfolding operation_of
  merged name desc changed delta ctx r none = err not_open
  merged name desc changed delta ctx r (some prior) =
      let field = S.fill_unmarked_from_prior desc changed delta prior in
      ok (r, operation_of put name (record { desc = desc; field = field; marks = changed }) ctx)

  put_to : String → P.Desc → P.bits.Bits → P.Field → ChannelContext P → Option ℕ → Routed P
  unfolding merged
  put_to name desc changed delta ctx none = err (no_such_pv name)
  put_to name desc changed delta ctx (some r) =
      merged name desc changed delta ctx r (S.current (heap r).pv)

  -- What is to be put, and where: the table is the one of the call, which looks the entry up, and the
  -- entries are as the future finds them when it runs.
  pub put_delta_checked : Checked → P.Desc → P.bits.Bits → P.Field → ChannelContext P → Routed P
  unfolding put_to
  put_delta_checked c desc changed delta ctx =
      if c.allows_write
      then put_to c.pv_name desc changed delta ctx (get c.pv_name s.entries)
      else err (denied c.pv_name)

  rpc_to : String → P.Desc → P.Field → ChannelContext P → Option ℕ → Routed P
  unfolding operation_of
  rpc_to name desc field ctx none = err rpc_not_implemented
  rpc_to name desc field ctx (some r) = ok (
    r,
    operation_of rpc name (record { desc = desc; field = field; marks = all_marks S desc }) ctx,
  )

  pub rpc_checked : Checked → P.Desc → P.Field → ChannelContext P → Routed P
  unfolding rpc_to
  rpc_checked c desc field ctx =
      if c.allows_read
      then rpc_to c.pv_name desc field ctx (get c.pv_name s.entries)
      else err (denied c.pv_name)

module _ {P : Pvdata} where
  event_of : OpKind → ServerOperation P → EventKind P
  event_of put op = put_event op
  event_of rpc op = rpc_event op

  sent : Result SendError (WorkQueue (Event P)) → Result OpError (WorkQueue (Event P))
  sent (err _) = err handler_queue_stopped
  sent (ok q) = ok q

  -- `run_op` up to its await: the sender `tx` goes into the operation, and that to the handler.
  pub run_op_begin :
      ℕ
      → OpKind
      → ServerOperation P
      → ℕ
      → WorkQueue (Event P)
      → Result OpError (WorkQueue (Event P))
  unfolding event_of sent
  run_op_begin token kind op tx q =
      sent (send q (record { token = token; kind = event_of kind (record op { reply = some tx }) }))

  -- What is routed goes to the handler's queue, with the token of its entry.
  route : (ℕ → ℕ) → ℕ → WorkQueue (Event P) → Routed P → Result OpError (WorkQueue (Event P))
  unfolding run_op_begin
  route token tx q (err e) = err e
  route token tx q (ok (r, op)) = run_op_begin (token r) put op tx q

  pub run_op_end : Answer P → Result OpError (RpcReply P)
  run_op_end (answered (replied desc field)) = ok (value desc field)
  run_op_end (answered completed) = ok empty
  run_op_end (answered (failure msg)) = err (handler_failed msg)
  run_op_end sender_dropped = err dropped_without_done

module _ {P : Pvdata} (S : SharedLib P) {I : SourceLib} (heap : ℕ → Entry S) (s : Source I) where
  -- `put_delta_checked` up to the wait for the handler.
  pub put_delta_begin :
      Checked
      → P.Desc
      → P.bits.Bits
      → P.Field
      → ChannelContext P
      → (ℕ → ℕ)
      → ℕ
      → WorkQueue (Event P)
      → Result OpError (WorkQueue (Event P))
  unfolding put_delta_checked route
  put_delta_begin c desc changed delta ctx token tx q =
      route token tx q (put_delta_checked S heap s c desc changed delta ctx)
