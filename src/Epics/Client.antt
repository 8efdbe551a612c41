-- ===== src/Epics/Client.antt =====
-- What `epics_ca_rs` hands to repics: its snapshots and errors are opaque, and so are the floats.
use repics.Prelude.{ℕ}

pub record CaTypes : Type 1 where
  pub Snap : Type 0
  pub Error : Type 0
  pub Float : Type 0

abbrev pub plain_ca : CaTypes
plain_ca = record { Snap = ℕ; Error = ℕ; Float = ℕ }
