-- ===== src/Text/Port.antt =====
-- A port among the settings, as src/pva/client.rs and src/pva/server.rs read it: what a setting is to do.
use repics.Prelude.{ℕ, ◌≤◌, ◌≡◌, [], Option, none, some}
use repics.Text.{Text, trim}
use repics.Text.Number.{parse_u16, parse_u16-le}

-- The port before and after a setting that is not there, one that is blank, and one that is a 16-bit
-- number with blanks around it.
pub data Ported : Option Text → Option ℕ → Option ℕ → Type 0 where
  unset : {before : Option ℕ} → Ported none before before
  blank : {v : Text} {before : Option ℕ} → trim v ≡ [] → Ported (some v) before before
  number :
      {v : Text} {before : Option ℕ} {p : ℕ}
      → parse_u16 (trim v) ≡ some p
      → Ported (some v) before (some p)

unfoldable pub IsPort : Option ℕ → Type 0
IsPort none = 0 ≤ 65535
IsPort (some p) = p ≤ 65535

pub Ported-IsPort :
    {s : Option Text} {before after : Option ℕ}
    → Ported s before after
    → IsPort before
    → IsPort after
Ported-IsPort unset x = x
Ported-IsPort (blank e) x = x
Ported-IsPort (number {v} {before} {p} e) x = unfold IsPort in parse_u16-le (trim v) p e
