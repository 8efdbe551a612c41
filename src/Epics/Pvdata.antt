-- ===== src/Epics/Pvdata.antt =====
-- What a monitor carries of `epics_pva_rs`: its descriptors, values and changed sets are opaque
-- here, and so are a server's address and the handle on a monitor.
use repics.Prelude.{ℕ}
use repics.Epics.BitSet.{BitSetLib, list_bits}

pub record Pvdata : Type 1 where
  pub Desc : Type 0
  pub Field : Type 0
  pub Peer : Type 0
  -- The client library's handle on an open monitor.
  pub Control : Type 0
  pub bits : BitSetLib

abbrev pub plain_pvdata : Pvdata
plain_pvdata = record { Desc = ℕ; Field = ℕ; Peer = ℕ; Control = ℕ; bits = list_bits }
