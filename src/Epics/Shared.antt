-- ===== src/Epics/Shared.antt =====
-- The server side of `epics_pva_rs` that the PVA server calls: the stored value of a shared PV, the
-- rings that carry updates to the clients, and a few functions on descriptors.
use repics.Prelude.{
  ℕ, ◌≡◌, refl, Bool, true, String, Option, none, some, Result, ok, err, List, [], ◌∷◌, ◌++◌, arith,
  Eq, nat_eq,
}
use repics.Prelude.Map.{is_some}
use repics.Epics.Pvdata.{Pvdata, plain_pvdata}

-- The library's `SharedPV` and its edges: what a channel's coming or going triggers.
pub data Edge : Type 0 where
  first_connect last_disconnect : Edge

pub record SharedLib (P : Pvdata) : Type 1 where
  pub Error : Type 0
  pub Shared : Type 0
  pub Outbox : Type 0
  -- The rings between the outboxes and the clients.
  pub Rings : Type 0
  pub same_desc : Eq P.Desc
  pub total_bits : P.Desc → ℕ
  pub descriptor : P.Field → P.Desc
  pub changed_bitset_paths : P.Desc → P.bits.Bits → List String
  pub fill_unmarked_from_prior : P.Desc → P.bits.Bits → P.Field → P.Field → P.Field
  pub fresh : Shared
  pub open_shared : Shared → P.Desc → P.Field → Result Error Shared
  pub post_delta : Shared → P.bits.Bits → P.Field → Result Error Shared
  pub close_shared : Shared → Shared
  pub current : Shared → Option P.Field
  pub introspection : Shared → Option P.Desc
  -- `MonitorOutbox::post`: whether the ring is still there.
  pub post_marked : Outbox → P.Field → List String → Rings → Bool × Rings
  pub post_plain : Outbox → P.Field → Rings → Bool × Rings
  pub bounded : ℕ → Rings → Outbox × Rings
  pub current-open :
      (s : Shared) (d : P.Desc) (v : P.Field) {t : Shared}
      → open_shared s d v ≡ ok t
      → current t ≡ some v
  pub current-close : (s : Shared) → current (close_shared s) ≡ none
  pub current-fresh : current fresh ≡ none
  pub current-post :
      (s : Shared) (bits : P.bits.Bits) (v : P.Field) {t : Shared}
      → post_delta s bits v ≡ ok t
      → is_some (current t) ≡ true

-- The parameter can be met: a PV that stores what it is given, and rings that never close.
unfoldable pub opened_with : Option ℕ → ℕ → ℕ → Result ℕ (Option ℕ)
opened_with s d v = ok (some v)

unfoldable pub posted : Option ℕ → List ℕ → ℕ → Result ℕ (Option ℕ)
posted none bits v = err 0
posted (some _) bits v = ok (some v)

pub current-opened : (s : Option ℕ) (d v : ℕ) {t : Option ℕ} → opened_with s d v ≡ ok t → t ≡ some v
unfolding opened_with
current-opened s d v e = cc

pub current-posted :
    (s : Option ℕ) (bits : List ℕ) (v : ℕ) {t : Option ℕ}
    → posted s bits v ≡ ok t
    → is_some t ≡ true
unfolding posted
current-posted none bits v e = cc
current-posted (some x) bits v e = ground (arith, e)

abbrev pub plain_shared : SharedLib plain_pvdata
plain_shared = record {
  Error = ℕ;
  Shared = Option ℕ;
  Outbox = ℕ;
  Rings = List (ℕ × ℕ);
  same_desc = nat_eq;
  total_bits = λ d. d;
  descriptor = λ v. 1;
  changed_bitset_paths = λ d bits. [];
  fill_unmarked_from_prior = λ d bits delta prior. delta;
  fresh = none;
  open_shared = opened_with;
  post_delta = posted;
  close_shared = λ s. none;
  current = λ s. s;
  introspection = λ s. s;
  post_marked = λ o v paths rings. (true, rings ++ ((o, v) ∷ []));
  post_plain = λ o v rings. (true, rings ++ ((o, v) ∷ []));
  bounded = λ n rings. (n, rings);
  current-open = current-opened;
  current-close = λ s. refl;
  current-fresh = refl;
  current-post = current-posted;
}

-- The library's `SharedSource`, the table of names that it serves.
pub record SourceLib : Type 1 where
  pub Table : Type 0
  pub empty_table : Table
  -- `none` if the name is taken.
  pub try_add : Table → String → ℕ → Option Table
  pub remove_name : Table → String → Table

abbrev pub plain_source : SourceLib
plain_source = record {
  Table = List (String × ℕ);
  empty_table = [];
  try_add = λ t name r. some ((name, r) ∷ t);
  remove_name = λ t name. [];
}
