-- ===== src/CaServer/Entry/Values.antt =====
-- src/ca_server.rs, `CaPvEntry`: where the value is that a PV was given.
use repics.Prelude.{
  ◌≡◌, refl, ◌⊎◌, inl, inr, true, false, String, Option, none, some, Result, ok, err, arith,
}
use repics.Epics.Database.{DatabaseLib}
use repics.CaServer.Entry.{
  Registration, ValueState, closed, detached, serving, Entry, EntryError, not_open, install,
  installed, serve, open_closed, open_in, open_pv, post_in, post, unserve, close, current, is_open,
  adopted, adopt_in, adopt,
}

module _ (L : DatabaseLib) where
  -- What a successful `install` leaves: a cell under the name, holding the value.
  record Installed (db : L.Db) (name : String) (v : L.Value) (cell : L.Cell) (w : L.World)
      : Type 0 where
    there : L.find_pv db name w ≡ some cell
    holds : L.get cell w ≡ v

  install-Installed :
      (db : L.Db) (name : String) (v : L.Value) (w : L.World) {cell : L.Cell} {w' : L.World}
      → install {L = L} db name v w ≡ (ok cell, w')
      → Installed db name v cell w'
  unfolding install
  install-Installed db name v w {cell} {w'} e =
      go (L.add_pv_with_hook db name v w).0 (L.add_pv_with_hook db name v w).1 refl e
    where
      go :
          (r : Result L.Error (Unit {0})) (w₁ : L.World)
          → L.add_pv_with_hook db name v w ≡ (r, w₁)
          → ◌≡◌ {A = Result (EntryError L) L.Cell × L.World}
              (installed db name r w₁, w₁)
              (ok cell, w')
          → Installed db name v cell w'
      go (err x) w₁ a h = cc
      go (ok _) w₁ a h =
          let (c, f, g) = L.find_pv-add db name v w a in
          record { there = ground (arith, f, h); holds = ground (arith, f, g, h) }

  serve-current :
      (e : Entry L) (db : L.Db) (name : String) (v : L.Value) (w : L.World) {e' : Entry L}
      {w' : L.World}
      → serve e (install db name v w) ≡ (ok tt, e', w')
      → (current e' w' ≡ some v) × (is_open e' ≡ true)
  unfolding current is_open serve
  serve-current e db name v w {e'} {w'} h =
      go (install {L = L} db name v w).0 (install {L = L} db name v w).1 refl h
    where
      go :
          (r : Result (EntryError L) L.Cell) (w₁ : L.World)
          → install {L = L} db name v w ≡ (r, w₁)
          → serve e (r, w₁) ≡ (ok tt, e', w')
          → (current e' w' ≡ some v) × (is_open e' ≡ true)
      go (err x) w₁ a h = cc
      go (ok cell) w₁ a h = let i = install-Installed db name v w a in ground (arith, i.holds, h)

  -- After a successful `open` the PV is open and its current value is the one that was given,
  -- whether it was served, closed or waiting for a server.
  pub current-open_pv :
      (e : Entry L) (v : L.Value) (w : L.World) {e' : Entry L} {w' : L.World}
      → open_pv e v w ≡ (ok tt, e', w')
      → (current e' w' ≡ some v) × (is_open e' ≡ true)
  unfolding open_pv open_in open_closed current is_open
  current-open_pv e v w {e'} {w'} h = go e.state e.reg refl h
    where
      closed_case :
          (r : Option (Registration L))
          → open_closed e r v w ≡ (ok tt, e', w')
          → (current e' w' ≡ some v) × (is_open e' ≡ true)
      closed_case none h = ground (arith, h)
      closed_case (some r) h = serve-current e r.db r.name v w h

      go :
          (s : ValueState L) (r : Option (Registration L))
          → e.state ≡ s
          → open_in s e v w ≡ (ok tt, e', w')
          → (current e' w' ≡ some v) × (is_open e' ≡ true)
      go (serving cell) r q h = ground (arith, h, q, L.get-set cell v w)
      go (detached x) r q h = closed_case e.reg h
      go closed r q h = closed_case e.reg h

  served :
      (e : Entry L)
      → ((cell : L.Cell) × (e.state ≡ serving cell))
        ⊎ ((e.state ≡ closed) ⊎ ((v : L.Value) × (e.state ≡ detached v)))
  served e = go e.state refl
    where
      go :
          (s : ValueState L)
          → e.state ≡ s
          → ((cell : L.Cell) × (e.state ≡ serving cell))
            ⊎ ((e.state ≡ closed) ⊎ ((v : L.Value) × (e.state ≡ detached v)))
      go (serving cell) q = inl (cell, q)
      go (detached v) q = inr (inr (v, q))
      go closed q = inr (inl q)

  -- `post` is refused exactly while the PV is closed, and then changes nothing; otherwise the value
  -- becomes the current one, and the PV stays as it was, detached or served.
  pub post-current :
      (e : Entry L) (v : L.Value) (w : L.World)
      → let r = post e v w in
        ((is_open e ≡ false) × (r.0 ≡ err not_open) × (r.1 ≡ e) × (r.2 ≡ w))
        ⊎ ((is_open e ≡ true) × (r.0 ≡ ok tt) × (current r.1 r.2 ≡ some v) × (r.1.reg ≡ e.reg))
  unfolding post post_in current is_open
  post-current e v w = elim (served e) [
    | inl (cell, q) ↦ ground (arith, q, L.get-set cell v w)
    | inr (inl q) ↦ ground (arith, q)
    | inr (inr (x, q)) ↦ ground (arith, q)
  ]

  -- `close` leaves no value; a PV that was served is gone from its database, and the registration is
  -- kept, so a later `open` serves it again under the same name.
  pub current-close :
      (e : Entry L) (w : L.World)
      → let r = close e w in
        (current r.0 r.1 ≡ none)
        × (is_open r.0 ≡ false)
        × (r.0.reg ≡ e.reg)
        × ((reg : Registration L) (cell : L.Cell)
            → e.reg ≡ some reg
            → e.state ≡ serving cell
            → L.find_pv reg.db reg.name r.1 ≡ none)
  unfolding close unserve current is_open
  current-close e w =
      (refl, refl, refl, λ reg cell r q. ground (arith, r, q, L.find_pv-remove reg.db reg.name w))

  -- If adopting a PV that holds a value and waits for a server succeeds, the PV is served by the
  -- cell that the database has under the name, the cell holds the value, and the PV is registered
  -- with that database and name.
  pub adopt-serves :
      (e : Entry L) (db : L.Db) (name : String) (v : L.Value) (w : L.World) {e' : Entry L}
      {w' : L.World}
      → e.state ≡ detached v
      → adopt e db name w ≡ (ok tt, e', w')
      → (cell : L.Cell) × (e'.state ≡ serving cell)
        × (L.find_pv db name w' ≡ some cell)
        × (L.get cell w' ≡ v)
        × (e'.reg ≡ some (record { db = db; name = name }))
  unfolding adopt adopt_in adopted
  adopt-serves e db name v w {e'} {w'} q h =
      go (install {L = L} db name v w).0 (install {L = L} db name v w).1 refl (ground (arith, q, h))
    where
      go :
          (r : Result (EntryError L) L.Cell) (w₁ : L.World)
          → install {L = L} db name v w ≡ (r, w₁)
          → adopted e db name (r, w₁) ≡ (ok tt, e', w')
          → (cell : L.Cell) × (e'.state ≡ serving cell)
            × (L.find_pv db name w' ≡ some cell)
            × (L.get cell w' ≡ v)
            × (e'.reg ≡ some (record { db = db; name = name }))
      go (err x) w₁ a k = cc
      go (ok cell) w₁ a k =
          let i = install-Installed db name v w a in
          (
            cell,
            ground (arith, k),
            ground (arith, i.there, k),
            ground (arith, i.holds, k),
            ground (arith, k),
          )
