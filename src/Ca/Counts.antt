-- ===== src/Ca/Counts.antt =====
-- src/ca.rs, `read_count` and `monitor_count`: the element count that a read or a monitor asks for.
use repics.Prelude.{
  ℕ, zero, suc, ◌-◌, ◌^◌, Option, none, some, Result, ok, ◌>>=◌, ltb, min, if◌then◌else◌,
}
use repics.Prelude.Int.{ℤ, pos, negsuc}

pub data ReqCount : Type 0 where
  autosize : ℕ → ReqCount
  fixed : ℕ → ReqCount

abbrev pub u32_max : ℕ
u32_max = 2 ^ 32 - 1

-- `u32::try_from(n).unwrap_or(u32::MAX)` of a number that is not negative.
unfoldable pub clamp_u32 : ℕ → ℕ
clamp_u32 n = if ltb n (2 ^ 32) then n else u32_max

-- The native element count is a call of the client library, which fails before the connection.
unfoldable pub read_count : {E : Type 0} → Result E ℕ → ℤ → Result E ReqCount
read_count native (pos zero) = ok (autosize 0)
read_count native (negsuc n) = ok (fixed 0)
read_count native (pos (suc n)) = do m ← native; ok (fixed (min (clamp_u32 (suc n)) m))

unfoldable pub monitor_count : {E : Type 0} → Result E ℕ → ℤ → Result E (Option ℕ)
monitor_count native (pos zero) = ok none
monitor_count native (negsuc n) = do m ← native; ok (some m)
monitor_count native (pos (suc n)) = ok (some (clamp_u32 (suc n)))
