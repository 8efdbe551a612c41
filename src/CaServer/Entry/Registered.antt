-- ===== src/CaServer/Entry/Registered.antt =====
-- src/ca_server.rs, `CaPvEntry`: how the value state and the registration go together.
use repics.Prelude.{◌≡◌, refl, ◌≢◌, Bool, true, false, String, some, List, [], ◌∷◌, ok, arith}
use repics.Prelude.Map.{is_some}
use repics.Epics.Database.{DatabaseLib}
use repics.CaServer.Entry.{
  Registration, ValueState, closed, detached, serving, Entry, new, serve, open_closed, open_in,
  open_pv, post_in, post, close, adopted, adopt_in, adopt,
}

pub data Call (L : DatabaseLib) : Type 0 where
  opens posts : L.Value → Call L
  closes : Call L
  adopts : L.Db → String → Call L

module _ {L : DatabaseLib} where
  abbrev is_serving : ValueState L → Bool
  is_serving (serving cell) = true
  is_serving _ = false

  abbrev is_detached : ValueState L → Bool
  is_detached (detached v) = true
  is_detached _ = false

  unfoldable pub call : Entry L × L.World → Call L → Entry L × L.World
  call (e, w) (opens v) = let r = open_pv e v w in (r.1, r.2)
  call (e, w) (posts v) = let r = post e v w in (r.1, r.2)
  call (e, w) closes = close e w
  call (e, w) (adopts db name) = let r = adopt e db name w in (r.1, r.2)

  unfoldable pub run : Entry L × L.World → List (Call L) → Entry L × L.World
  run ew [] = ew
  run ew (c ∷ cs) = run (call ew c) cs

  -- A PV is served only if it is registered; a registered one holds no value of its own, and the
  -- write hook knows its name.
  pub record IsRegistered (e : Entry L) : Type 0 where
    pub served : is_serving e.state ≡ true → is_some e.reg ≡ true
    pub delegated : is_some e.reg ≡ true → is_detached e.state ≡ false
    pub named : is_some e.reg ≡ true → is_some e.name ≡ true

  open_in-IsRegistered :
      (s : ValueState L) (e : Entry L) (v : L.Value) (w : L.World)
      → e.state ≡ s
      → IsRegistered e
      → IsRegistered (open_in s e v w).1
  unfolding open_in open_closed serve
  open_in-IsRegistered (serving cell) e v w q i = i
  open_in-IsRegistered (detached x) e v w q i = ground (arith, q)
  open_in-IsRegistered closed e v w q i = ground (arith, q)

  post_in-IsRegistered :
      (s : ValueState L) (e : Entry L) (v : L.Value) (w : L.World)
      → e.state ≡ s
      → IsRegistered e
      → IsRegistered (post_in s e v w).1
  unfolding post_in
  post_in-IsRegistered (serving cell) e v w q i = i
  post_in-IsRegistered (detached x) e v w q i = ground (arith, q)
  post_in-IsRegistered closed e v w q i = i

  adopt_in-IsRegistered :
      (s : ValueState L) (e : Entry L) (db : L.Db) (name : String) (w : L.World)
      → e.state ≡ s
      → IsRegistered e
      → IsRegistered (adopt_in s e db name w).1
  unfolding adopt_in adopted
  adopt_in-IsRegistered (serving cell) e db name w q i = i
  adopt_in-IsRegistered (detached v) e db name w q i = ground (arith, q)
  adopt_in-IsRegistered closed e db name w q i = i

  call-IsRegistered :
      (e : Entry L) (w : L.World) (c : Call L) → IsRegistered e → IsRegistered (call (e, w) c).0
  unfolding call open_pv post adopt close
  call-IsRegistered e w (opens v) i = open_in-IsRegistered e.state e v w refl i
  call-IsRegistered e w (posts v) i = post_in-IsRegistered e.state e v w refl i
  call-IsRegistered e w closes i = ground arith
  call-IsRegistered e w (adopts db name) i = adopt_in-IsRegistered e.state e db name w refl i

  run-IsRegistered :
      (ew : Entry L × L.World) (cs : List (Call L)) → IsRegistered ew.0 → IsRegistered (run ew cs).0
  unfolding run
  run-IsRegistered ew [] i = i
  run-IsRegistered ew (c ∷ cs) i = run-IsRegistered (call ew c) cs (call-IsRegistered ew.0 ew.1 c i)

  -- Whatever has been called on a new PV, it is served only if it is registered, and a registered one
  -- holds no value of its own and is known by name to its write hook.
  pub run-new-IsRegistered : (w : L.World) (cs : List (Call L)) → IsRegistered (run (new, w) cs).0
  unfolding new
  run-new-IsRegistered w cs = run-IsRegistered (new, w) cs (ground arith)

  reg-call :
      (e : Entry L) (w : L.World) (c : Call L)
      → IsRegistered e
      → is_some e.reg ≡ true
      → (call (e, w) c).0.reg ≡ e.reg
  unfolding call open_pv open_in open_closed serve post post_in adopt adopt_in adopted close
  reg-call e w (opens v) i r = ground arith
  reg-call e w (posts v) i r = ground arith
  reg-call e w closes i r = refl
  reg-call e w (adopts db name) i r = ground arith

  reg-run_from :
      (ew : Entry L × L.World) (cs : List (Call L)) (reg : Registration L)
      → IsRegistered ew.0
      → ew.0.reg ≡ some reg
      → (run ew cs).0.reg ≡ some reg
  unfolding run
  reg-run_from ew [] reg i r = r
  reg-run_from ew (c ∷ cs) reg i r =
      reg-run_from (call ew c) cs reg (call-IsRegistered ew.0 ew.1 c i)
        (ground (arith, reg-call ew.0 ew.1 c i, r))

  adopt-refused :
      (e : Entry L) (db : L.Db) (name : String) (w : L.World)
      → IsRegistered e
      → is_some e.reg ≡ true
      → (adopt e db name w).0 ≢ ok tt
  unfolding adopt adopt_in
  adopt-refused e db name w i r = ground arith

  -- A new PV that a server has adopted in the course of some calls stays registered with that
  -- server's database, under the same name, whatever is called on it afterwards, and no later
  -- adoption of it succeeds.
  pub reg-run :
      (w : L.World) (cs ds : List (Call L)) (reg : Registration L)
      → (run (new, w) cs).0.reg ≡ some reg
      → let e = (run (run (new, w) cs) ds).0 in
        (e.reg ≡ some reg)
        × ((db : L.Db) (name : String) (w' : L.World) → (adopt e db name w').0 ≢ ok tt)
  reg-run w cs ds reg r =
      let i = run-new-IsRegistered w cs in
      let j = run-IsRegistered (run (new, w) cs) ds i in
      let k = reg-run_from (run (new, w) cs) ds reg i r in
      (k, λ db name w'. adopt-refused (run (run (new, w) cs) ds).0 db name w' j (ground (arith, k)))
