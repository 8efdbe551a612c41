-- ===== src/CaServer/WorkQueue.antt =====
-- src/ca_server.rs, `CaWorkQueue` and `make_hook`: a client's write on its way to the Python handler.
use repics.Prelude.{
  ℕ, ◌≡◌, refl, ap, ◌∙◌, Bool, true, false, Option, none, some, List, [], ◌∷◌, ◌++◌, append-nil,
  append_assoc, Result, ok, err, String, arith, if◌then◌else◌,
}
use repics.CaServer.Operation.{Operation, Reply, notify, plain}

-- The unbounded channel, oldest first, and the cancellation token. `dropped` says whether the object
-- that holds the receiving end is gone.
pub record WorkQueue (A : Type 0) : Type 0 where
  pub pending : List A
  pub stopped : Bool
  pub dropped : Bool

pub data SendError : Type 0 where
  queue_stopped : SendError

-- What a call of `recv` comes to. A parked one is asked again after the next send or stop.
pub data Recv (A : Type 0) : Type 0 where
  stop_seen parked : Recv A
  got : A → Recv A

-- A client's write, rest the database hands it to the hook.
pub data PvWrite (Value : Type 0) : Type 0 where
  value : Value → PvWrite Value
  alarm_ack : PvWrite Value

pub data HookError : Type 0 where
  no_support : HookError

pub new : (A : Type 0) → WorkQueue A
new A = record { pending = []; stopped = false; dropped = false }

module _ {A : Type 0} where
  -- `events.send(..)`: an unbounded send fails only if the receiver is gone.
  unfoldable pub send : WorkQueue A → A → Result SendError (WorkQueue A)
  send q a =
      if q.dropped then err queue_stopped else ok (record q { pending = q.pending ++ (a ∷ []) })

  pop : WorkQueue A → List A → Recv A × WorkQueue A
  pop q [] = (parked, q)
  pop q (a ∷ rest) = (got a, record q { pending = rest })

  -- `do_recv`: the token is looked at first, and the `select!` is biased to it.
  pub recv : WorkQueue A → Recv A × WorkQueue A
  unfolding pop
  recv q = if q.stopped then (stop_seen, q) else pop q q.pending

  pub stop : WorkQueue A → WorkQueue A
  stop q = record q { stopped = true }

reply_to : Option ℕ → Reply
reply_to none = plain
reply_to (some n) = notify n

name_or_empty : Option String → String
name_or_empty none = ""
name_or_empty (some name) = name

module _ {Value Context : Type 0} where
  -- The hook of `make_hook`: `none` is no put callback. It refuses an alarm acknowledgement, and
  -- otherwise forwards the write; the two kinds of error are the hook's and the forward's.
  pub hook :
      Option String
      → PvWrite Value
      → Context
      → Option ℕ
      → WorkQueue (Operation Value Context)
      → Result HookError (Result SendError (WorkQueue (Operation Value Context)))
  unfolding send
  hook name alarm_ack ctx callback q = err no_support
  hook name (value v) ctx callback q = ok (
      send q
        (record { name = name_or_empty name; value = v; ctx = ctx; reply = reply_to callback }))

-- The calls of writers and of the drain loop.
pub data Call (A : Type 0) : Type 0 where
  sends : A → Call A
  recvs stops : Call A

-- The queue with what has been handed out of it, oldest first.
pub record Run (A : Type 0) : Type 0 where
  pub queue : WorkQueue A
  pub out : List A

module _ {A : Type 0} where
  abbrev hand_out : List A → Recv A → List A
  hand_out out (got a) = out ++ (a ∷ [])
  hand_out out _ = out

  abbrev kept : WorkQueue A → Result SendError (WorkQueue A) → WorkQueue A
  kept q (ok q') = q'
  kept q (err e) = q

  pub call : Run A → Call A → Run A
  unfolding send recv stop
  call r (sends a) = record r { queue = kept r.queue (send r.queue a) }
  call r recvs = let (answer, q) = recv r.queue in record { queue = q; out = hand_out r.out answer }
  call r stops = record r { queue = stop r.queue }

  pub run : Run A → List (Call A) → Run A
  run r [] = r
  run r (c ∷ cs) = run (call r c) cs

  -- What writers have sent, in order.
  pub sent : List (Call A) → List A
  sent [] = []
  sent (sends a ∷ cs) = a ∷ sent cs
  sent (c ∷ cs) = sent cs

  recv-kept :
      (r : Run A) → (call r recvs).out ++ (call r recvs).queue.pending ≡ r.out ++ r.queue.pending
  unfolding call
  recv-kept r = go r.queue.stopped r.queue.pending
    where
      go :
          (b : Bool) (rest : List A)
          → let q = record r.queue { stopped = b; pending = rest } in
            let r' : Run A = record { queue = q; out = r.out } in
            (call r' recvs).out ++ (call r' recvs).queue.pending ≡ r.out ++ rest
      go true rest = refl
      go false [] = refl
      go false (a ∷ rest) = append_assoc r.out (a ∷ []) rest

  dropped-call : (r : Run A) (c : Call A) → (call r c).queue.dropped ≡ r.queue.dropped
  unfolding call
  dropped-call r (sends a) = ground arith
  dropped-call r recvs = go r.queue.pending
    where
      go : (rest : List A) → (recv (record r.queue { pending = rest })).1.dropped ≡ r.queue.dropped
      go [] = ground arith
      go (a ∷ rest) = ground arith
  dropped-call r stops = refl

  sends-call :
      (r : Run A) (a : A)
      → r.queue.dropped ≡ false
      → call r (sends a)
        ≡ record r { queue = record r.queue { pending = r.queue.pending ++ (a ∷ []) } }
  unfolding call
  sends-call r a alive = ground arith

  stops-call : (r : Run A) → call r stops ≡ record r { queue = record r.queue { stopped = true } }
  unfolding call
  stops-call r = refl

  recvs-call : (r : Run A) → r.queue.stopped ≡ true → call r recvs ≡ r
  unfolding call
  recvs-call r h = ground arith

  -- While the receiving end is there, nothing is lost, duplicated or reordered, and a stop loses
  -- nothing either: what was handed out and what is pending are together what was there and what
  -- was sent, in order.
  pub run-kept :
      (r : Run A) (cs : List (Call A))
      → r.queue.dropped ≡ false
      → (run r cs).out ++ (run r cs).queue.pending ≡ (r.out ++ r.queue.pending) ++ sent cs
  unfolding run sent
  run-kept r [] alive = simp append-nil
  run-kept r (sends a ∷ cs) alive =
      rw (run, sends-call r a alive)
        (run-kept (record r { queue = record r.queue { pending = r.queue.pending ++ (a ∷ []) } }) cs
            alive
          ∙ simp append_assoc)
  run-kept r (recvs ∷ cs) alive =
      run-kept (call r recvs) cs (dropped-call r recvs ∙ alive)
      ∙ ap (λ l. l ++ sent cs) (recv-kept r)
  run-kept r (stops ∷ cs) alive =
      rw (run, stops-call r)
        (run-kept (record r { queue = record r.queue { stopped = true } }) cs alive)

  -- After a stop, while the receiving end is there, nothing is handed out any more and every write
  -- is still queued: the operation of a later write stays pending, it is not dropped.
  pub run-stopped :
      (r : Run A) (cs : List (Call A))
      → r.queue.stopped ≡ true
      → r.queue.dropped ≡ false
      → ((run r cs).out ≡ r.out) × ((run r cs).queue.pending ≡ r.queue.pending ++ sent cs)
  unfolding run sent
  run-stopped r [] h alive = (refl, simp append-nil)
  run-stopped r (sends a ∷ cs) h alive =
      let rest =
        run-stopped (record r { queue = record r.queue { pending = r.queue.pending ++ (a ∷ []) } })
          cs h alive in
      rw (run, sends-call r a alive) (rest.0, rest.1 ∙ simp append_assoc)
  run-stopped r (recvs ∷ cs) h alive = rw (run, recvs-call r h) (run-stopped r cs h alive)
  run-stopped r (stops ∷ cs) h alive =
      rw (run, stops-call r)
        (run-stopped (record r { queue = record r.queue { stopped = true } }) cs refl alive)
