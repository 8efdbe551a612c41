-- ===== src/CaServer/Entry/Adoption.antt =====
-- src/ca_server.rs, `CaServer::new` up to the port, and `CaProvider::remove`: servers and providers
-- share their entries, so they work on a heap of them.
use repics.Prelude.{
  ℕ, ◌≡◌, refl, Bool, true, false, String, Option, none, some, List, [], ◌∷◌, All, Result, ok, err,
  arith, eqb, if◌then◌else◌,
}
use mathlib.Core.Path.{subst, sym, ap, ◌∙◌}
use repics.Epics.Database.{DatabaseLib}
use repics.CaServer.Provider.{Provider, take_out}
use repics.CaServer.Entry.{
  ValueState, closed, detached, serving, Entry, EntryError, already_served, install, adopted,
  adopt_in, adopt, close,
}

abbrev pub update {ℓ} : {A : Type ℓ} → (ℕ → A) → ℕ → A → ℕ → A
update f k a j = if eqb k j then a else f j

pub record Heap (L : DatabaseLib) : Type 0 where
  pub entries : ℕ → Entry L
  pub world : L.World

module _ {L : DatabaseLib} where
  -- `entry.adopt(py, &db, &name)` of the entry behind a reference.
  unfoldable pub adopt_at : Heap L → L.Db → String → ℕ → Result (EntryError L) (Unit {0}) × Heap L
  adopt_at h db name r =
      let a = adopt (h.entries r) db name h.world in
      (a.0, record { entries = update h.entries r a.1; world = a.2 })

  -- The loop over the PVs of a provider; `?` leaves it at the first failure.
  unfoldable pub adopt_all :
      List (String × ℕ) → L.Db → Heap L → Result (EntryError L) (Unit {0}) × Heap L
  adopt_all [] db h = (ok tt, h)
  adopt_all ((name, r) ∷ pvs) db h =
      let a = adopt_at h db name r in
      elim a.0 [ ok _ ↦ adopt_all pvs db a.1 | err x ↦ (err x, a.1) ]

  -- The loop over the providers.
  pub adopt_providers : List Provider → L.Db → Heap L → Result (EntryError L) (Unit {0}) × Heap L
  adopt_providers [] db h = (ok tt, h)
  adopt_providers (p ∷ ps) db h =
      let a = adopt_all p.pvs db h in
      elim a.0 [ ok _ ↦ adopt_providers ps db a.1 | err x ↦ (err x, a.1) ]

  closing : Provider × Heap L → Option ℕ → Bool × Provider × Heap L
  closing (p, h) none = (false, p, h)
  closing (p, h) (some r) =
      let (e, w) = close (h.entries r) h.world in
      (true, p, record { entries = update h.entries r e; world = w })

  -- `CaProvider::remove`.
  pub remove : Provider → String → Heap L → Bool × Provider × Heap L
  unfolding closing
  remove p name h = let t = take_out name p.pvs in closing (record p { pvs = t.1 }, h) t.0

  abbrev pub IsServed : Entry L → Type 0
  IsServed e = (cell : L.Cell) × (e.state ≡ serving cell)

  adopt-ok :
      (e : Entry L) (db : L.Db) (name : String) (w : L.World)
      → (adopt e db name w).0 ≡ ok tt
      → IsServed (adopt e db name w).1
  unfolding adopt
  adopt-ok e db name w h = go e.state h
    where
      from_install :
          (a : Result (EntryError L) L.Cell × L.World)
          → (adopted e db name a).0 ≡ ok tt
          → IsServed (adopted e db name a).1
      from_install (ok cell, w') q = (cell, refl)
      from_install (err x, w') q = cc

      go :
          (s : ValueState L)
          → (adopt_in s e db name w).0 ≡ ok tt
          → IsServed (adopt_in s e db name w).1
      go closed q = cc
      go (detached v) q = from_install (install db name v w) q
      go (serving cell) q = cc

  adopt-served :
      (e : Entry L) (db : L.Db) (name : String) (w : L.World)
      → IsServed e
      → adopt e db name w ≡ (err (already_served name), e, w)
  unfolding adopt adopt_in
  adopt-served e db name w (cell, q) = ground (arith, q)

  adopt_at-keeps :
      (h : Heap L) (db : L.Db) (name : String) (r k : ℕ)
      → IsServed (h.entries k)
      → (adopt_at h db name r).1.entries k ≡ h.entries k
  unfolding adopt_at
  adopt_at-keeps h db name r k s = ground (arith, adopt-served (h.entries k) db name h.world s)

  adopt_all-keeps :
      (pvs : List (String × ℕ)) (db : L.Db) (h : Heap L) (k : ℕ)
      → IsServed (h.entries k)
      → (adopt_all pvs db h).1.entries k ≡ h.entries k
  unfolding adopt_all
  adopt_all-keeps [] db h k s = refl
  adopt_all-keeps ((name, r) ∷ pvs) db h k s =
      let h₁ = (adopt_at h db name r).1 in
      let e = adopt_at-keeps h db name r k s in
      ground (arith, e, adopt_all-keeps pvs db h₁ k (subst IsServed (sym e) s))

  adopt_all-ok :
      (name : String) (r : ℕ) (pvs : List (String × ℕ)) (db : L.Db) (h : Heap L)
      → (adopt_at h db name r).0 ≡ ok tt
      → adopt_all ((name, r) ∷ pvs) db h ≡ adopt_all pvs db (adopt_at h db name r).1
  unfolding adopt_all
  adopt_all-ok name r pvs db h e = rw (e, adopt_all)

  first-ok :
      (name : String) (r : ℕ) (pvs : List (String × ℕ)) (db : L.Db) (h : Heap L)
      → (adopt_all ((name, r) ∷ pvs) db h).0 ≡ ok tt
      → (adopt_at h db name r).0 ≡ ok tt
  unfolding adopt_all
  first-ok name r pvs db h e = ground arith

  adopt_at-IsServed :
      (h : Heap L) (db : L.Db) (name : String) (r : ℕ)
      → (adopt_at h db name r).0 ≡ ok tt
      → IsServed ((adopt_at h db name r).1.entries r)
  unfolding adopt_at
  adopt_at-IsServed h db name r e =
      let (cell, q) = adopt-ok (h.entries r) db name h.world e in (cell, ground (arith, q))

  abbrev ServedAfter : List (String × ℕ) → Result (EntryError L) (Unit {0}) × Heap L → Type 0
  ServedAfter pvs out = All (λ (nr : String × ℕ). IsServed (out.1.entries nr.1)) pvs

  -- If the PVs of a provider are all adopted without an error, every one of them is served
  -- afterwards.
  pub adopt_all-IsServed :
      (pvs : List (String × ℕ)) (db : L.Db) (h : Heap L)
      → (adopt_all pvs db h).0 ≡ ok tt
      → All (λ (nr : String × ℕ). IsServed ((adopt_all pvs db h).1.entries nr.1)) pvs
  unfolding adopt_all
  adopt_all-IsServed [] db h e = tt
  adopt_all-IsServed ((name, r) ∷ pvs) db h e =
      let one = first-ok name r pvs db h e in
      let h₁ = (adopt_at h db name r).1 in
      let s = adopt_at-IsServed h db name r one in
      let step = adopt_all-ok name r pvs db h one in
      subst (ServedAfter ((name, r) ∷ pvs)) (sym step) (
        subst IsServed (sym (adopt_all-keeps pvs db h₁ r s)) s,
        adopt_all-IsServed pvs db h₁
            (ap (λ (x : Result (EntryError L) (Unit {0}) × Heap L). x.0) (sym step) ∙ e),
      )

  -- Once a start has adopted its first PV, whether or not it then succeeds with the others, every
  -- later start with this PV in front fails as already served, whatever has happened to the other
  -- PVs and to the databases, as long as the PV's entry is as that start left it.
  pub adopt_all-retry :
      (name : String) (r : ℕ) (pvs : List (String × ℕ)) (db : L.Db) (h : Heap L)
      → (adopt_at h db name r).0 ≡ ok tt
      → (h' : Heap L) (db' : L.Db) (name' : String) (pvs' : List (String × ℕ))
      → h'.entries r ≡ (adopt_all ((name, r) ∷ pvs) db h).1.entries r
      → (adopt_all ((name', r) ∷ pvs') db' h').0 ≡ err (already_served name')
  unfolding adopt_all adopt_at
  adopt_all-retry name r pvs db h first h' db' name' pvs' same =
      let h₁ = (adopt_at h db name r).1 in
      let s = adopt_at-IsServed h db name r first in
      let kept = adopt_all-keeps pvs db h₁ r s in
      let s' =
        subst IsServed
          (sym (
            same
            ∙ ap (λ (x : Result (EntryError L) (Unit {0}) × Heap L). x.1.entries r)
                (adopt_all-ok name r pvs db h first)
            ∙ kept))
          s in
      ground (arith, adopt-served (h'.entries r) db' name' h'.world s')
