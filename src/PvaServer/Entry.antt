-- ===== src/PvaServer/Entry.antt =====
-- src/pva/server.rs, `Subscriber`, `PvState`, `PvEntry`: one served PV. A method that holds the state
-- lock throughout is one function; `close` lets the lock go before it closes the library's PV, so it
-- is two. The rings between the server and its clients are passed on.
pub mod Updates
pub mod Lifecycle
pub mod Current
pub mod Examples
use repics.Prelude.{
  ℕ, Bool, true, false, ◌==◌, String, Option, none, some, Result, ok, err, List, [], ◌∷◌, ◌++◌,
  if◌then◌else◌,
}
use repics.Epics.Pvdata.{Pvdata}
use repics.Epics.Shared.{SharedLib}
use repics.PvaServer.Operation.{Root}

-- The producer endpoint of one monitor.
pub data Subscriber {P : Pvdata} (S : SharedLib P) : Type 0 where
  marked plain : S.Outbox → Subscriber S

pub record Entry {P : Pvdata} (S : SharedLib P) : Type 0 where
  pub pv : S.Shared
  pub subs : List (Subscriber S)
  pub marks : P.bits.Bits
  pub opened : Option P.Desc

pub data PostError {P : Pvdata} (S : SharedLib P) : Type 0 where
  not_open type_differs : PostError S
  refused : S.Error → PostError S

module _ {P : Pvdata} {S : SharedLib P} where
  pub new : Entry S
  new = record { pv = S.fresh; subs = []; marks = P.bits.empty; opened = none }

  opened_pv : Entry S → Root P → Result S.Error S.Shared → Result S.Error (Unit {0}) × Entry S
  opened_pv e root (err x) = (err x, e)
  opened_pv e root (ok pv) =
      (ok tt, record e { pv = pv; marks = root.marks; opened = some root.desc })

  pub open_pv : Entry S → Root P → Result S.Error (Unit {0}) × Entry S
  unfolding opened_pv
  open_pv e root = opened_pv e root (S.open_shared e.pv root.desc root.field)

  -- `Subscriber::post`.
  pub post_to : Subscriber S → P.Field → List String → S.Rings → Bool × S.Rings
  post_to (marked outbox) v paths w = S.post_marked outbox v paths w
  post_to (plain outbox) v paths w = S.post_plain outbox v w

  -- `state.subs.retain(|sub| sub.post(cur, &marked))`.
  pub retain : List (Subscriber S) → P.Field → List String → S.Rings → List (Subscriber S) × S.Rings
  unfolding post_to
  retain [] v paths w = ([], w)
  retain (sub ∷ subs) v paths w =
      let (alive, w') = post_to sub v paths w in
      let (rest, w'') = retain subs v paths w' in (if alive then sub ∷ rest else rest, w'')

  -- The delivery, of the value that `with_current` reads.
  deliver : Entry S → Root P → Option P.Field → S.Rings → Entry S × S.Rings
  unfolding retain
  deliver e root none w = (e, w)
  deliver e root (some cur) w =
      let (subs, w') = retain e.subs cur (S.changed_bitset_paths root.desc root.marks) w in
      (record e { subs = subs }, w')

  stored :
      Entry S
      → Root P
      → Result S.Error S.Shared
      → S.Rings
      → Result (PostError S) (Unit {0}) × Entry S × S.Rings
  unfolding deliver
  stored e root (err x) w = (err (refused x), e, w)
  stored e root (ok pv) w =
      let e' = record e { pv = pv; marks = P.bits.union_with e.marks root.marks } in
      let (e'', w') = deliver e' root (S.current pv) w in (ok tt, e'', w')

  post_open :
      Entry S → P.Desc → Root P → S.Rings → Result (PostError S) (Unit {0}) × Entry S × S.Rings
  unfolding stored
  post_open e d root w =
      if S.same_desc.equal root.desc d
      then (if P.bits.is_empty root.marks
          then (ok tt, e, w)
          else stored e root (S.post_delta e.pv root.marks root.field) w)
      else (err type_differs, e, w)

  post_in :
      Option P.Desc
      → Entry S
      → Root P
      → S.Rings
      → Result (PostError S) (Unit {0}) × Entry S × S.Rings
  unfolding post_open
  post_in none e root w = (err not_open, e, w)
  post_in (some d) e root w = post_open e d root w

  pub post : Entry S → Root P → S.Rings → Result (PostError S) (Unit {0}) × Entry S × S.Rings
  unfolding post_in
  post e root w = post_in e.opened e root w

  -- `close` under the state lock: the subscribers are taken out, for the end of `close` to drop.
  pub close_begin : Entry S → Entry S
  close_begin e = record e { marks = P.bits.empty; opened = none; subs = [] }

  -- `self.pv.close()`.
  pub close_end : Entry S → Entry S
  close_end e = record e { pv = S.close_shared e.pv }

  pub close : Entry S → Entry S
  unfolding close_begin close_end
  close e = close_end (close_begin e)

  -- `wrap` of the two subscribe calls; a plain stream starts with the current value.
  wrap : Bool → S.Outbox → P.Field → S.Rings → Subscriber S × S.Rings
  wrap true outbox initial w = (marked outbox, w)
  wrap false outbox initial w =
      let (alive, w') = S.post_plain outbox initial w in (plain outbox, w')

  pub subscribe : Entry S → ℕ → Bool → S.Rings → Option P.Field × Entry S × S.Rings
  unfolding wrap
  subscribe e limit with_marks w = elim (S.current e.pv) [
    | none ↦ (none, e, w)
    | some initial ↦
        let (outbox, w') = S.bounded limit w in
        let (sub, w'') = wrap with_marks outbox initial w' in
        (some initial, record e { subs = e.subs ++ (sub ∷ []) }, w'')
  ]

  -- `current`, of `PvaSharedPV`.
  pub current : Entry S → Option (Root P)
  current e = elim e.opened [
    | none ↦ none
    | some d ↦ elim (S.current e.pv) [
      | none ↦ none
      | some v ↦ some (record { desc = d; field = v; marks = e.marks })
    ]
  ]
