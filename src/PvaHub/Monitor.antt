-- ===== src/PvaHub/Monitor.antt =====
-- src/pva/hub.rs, `Update`, `Queue` and `Monitor`: one monitor's queue and its line to the hub.
-- A method runs under the queue's lock, so it is a function from the queue to the queue; the
-- second part of its result says whether it sends the monitor's id to the hub.
pub mod Squash
pub mod Bounds
pub mod Signals
pub mod Examples
use repics.Prelude.{
  ℕ, ◌≤◌, ◌<◌, ◌≡◌, refl, ◌⊎◌, inl, inr, arith, Bool, true, false, Option, none, some, List, [],
  ◌∷◌, ◌++◌, leb, count_if, if◌then◌else◌,
}
use repics.Epics.BitSet.{set_all}
use repics.Epics.Pvdata.{Pvdata}

pub data Update (P : Pvdata) : Type 0 where
  value : P.Desc → P.Field → P.bits.Bits → Update P
  connected : P.Peer → Update P
  disconnected : Update P
  finished : Update P

-- `MonitorConnEvent` of the client library.
pub data MonitorConnEvent (P : Pvdata) : Type 0 where
  connected : P.Peer → MonitorConnEvent P
  disconnected : MonitorConnEvent P
  finished : MonitorConnEvent P

-- The front of the deque is the head of the list.
pub record Queue (P : Pvdata) : Type 0 where
  pub items : List (Update P)
  pub limit : ℕ
  pub signalled : Bool

module _ {P : Pvdata} where
  abbrev pub is_value : Update P → Bool
  is_value (value d v c) = true
  is_value _ = false

  -- `Monitor::signal`.
  pub signal : Queue P → Queue P × Bool
  signal q = if q.signalled then (q, false) else (record q { signalled = true }, true)

  -- `Monitor::push`.
  pub push : Queue P → Update P → Queue P × Bool
  unfolding signal
  push q u = signal (record q { items = q.items ++ (u ∷ []) })

  -- The tail with the newer value and the united changed sets, if the tail is a value.
  squash_tail : Update P → P.Desc → P.Field → P.bits.Bits → Option (Update P)
  squash_tail (value d₀ v₀ c₀) d v c = some (value d v (set_all P.bits c₀ (P.bits.iter c)))
  squash_tail _ d v c = none

  prepend : Update P → Option (List (Update P)) → Option (List (Update P))
  prepend u none = none
  prepend u (some us) = some (u ∷ us)

  single : Option (Update P) → Option (List (Update P))
  single none = none
  single (some u) = some (u ∷ [])

  -- `if let Some(Update::Value { .. }) = q.items.back_mut() { .. }`: `none` if the branch is not
  -- taken.
  pub squash : List (Update P) → P.Desc → P.Field → P.bits.Bits → Option (List (Update P))
  unfolding squash_tail prepend single
  squash [] d v c = none
  squash (u ∷ []) d v c = single (squash_tail u d v c)
  squash (u ∷ w ∷ us) d v c = prepend u (squash (w ∷ us) d v c)

  -- `Monitor::push_value`.
  pub push_value : Queue P → P.Desc → P.Field → P.bits.Bits → Queue P × Bool
  unfolding push
  push_value q d v c =
      if leb q.limit (count_if is_value q.items)
      then elim (squash q.items d v c) [
        | some squashed ↦ signal (record q { items = squashed })
        | none ↦ push q (value d v c)
      ]
      else push q (value d v c)

  pub items-signal : (q : Queue P) → (signal q).0.items ≡ q.items
  unfolding signal
  items-signal q = ground arith

  pub items-push : (q : Queue P) (u : Update P) → (push q u).0.items ≡ q.items ++ (u ∷ [])
  unfolding push
  items-push q u = ground arith

  -- Either the queue holds `limit` values and its tail is squashed, or the value is appended.
  abbrev pub Pushed : Queue P → P.Desc → P.Field → P.bits.Bits → List (Update P) → Type 0
  Pushed q d v c items =
      ((q.limit ≤ count_if is_value q.items) × (squash q.items d v c ≡ some items))
      ⊎ ((items ≡ q.items ++ (value d v c ∷ []))
          × ((count_if is_value q.items < q.limit) ⊎ (squash q.items d v c ≡ none)))

  pub push_value_cases :
      (q : Queue P) (d : P.Desc) (v : P.Field) (c : P.bits.Bits)
      → Pushed q d v c (push_value q d v c).0.items
  unfolding push_value
  push_value_cases q d v c = ground (
    arith,
    items-push q (value d v c),
    λ (us : List (Update P)). items-signal (record q { items = us }),
  )

  -- `Monitor::take`.
  unfoldable pub take : Queue P → List (Update P) × Queue P
  take q = (q.items, record q { items = []; signalled = false })

  -- The connection callback of `open`.
  pub conn_update : MonitorConnEvent P → Update P
  conn_update (MonitorConnEvent.connected peer) = connected peer
  conn_update MonitorConnEvent.disconnected = disconnected
  conn_update MonitorConnEvent.finished = finished

  -- The queue that `subscribe` makes: the state before the server answers.
  unfoldable pub opening_queue : ℕ → Queue P
  opening_queue limit = record { items = disconnected ∷ []; limit = limit; signalled = false }

-- What happens to one monitor's queue: a decoded frame, a connection event, a drain.
pub data Call (P : Pvdata) : Type 0 where
  frame : P.Desc → P.Field → P.bits.Bits → Call P
  conn : MonitorConnEvent P → Call P
  drain : Call P

module _ {P : Pvdata} where
  pub call : Queue P → Call P → Queue P
  unfolding conn_update take
  call q (frame d v c) = (push_value q d v c).0
  call q (conn ev) = (push q (conn_update ev)).0
  call q drain = (take q).1

  pub run : Queue P → List (Call P) → Queue P
  run q [] = q
  run q (c ∷ cs) = run (call q c) cs
