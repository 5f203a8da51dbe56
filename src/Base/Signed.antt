-- ===== src/Base/Signed.antt =====
-- An int64_t as its bit pattern, a number below 2 ^ 64.
use mathlib.Core.Bool.{Bool}
use Prim.Native.Nat.{ℕ, ◌+◌, ◌-◌, ◌/◌, ◌^◌}
use esp32p4_nts_time_server.Base.Tests.{ltb, if◌then◌else◌}
use esp32p4_nts_time_server.Base.Words.{u64}

-- The order of the bit patterns as signed numbers.
unfoldable pub signed_ltb : ℕ → ℕ → Bool
signed_ltb a b = ltb (u64 (a + 2 ^ 63)) (u64 (b + 2 ^ 63))

-- `llabs`
unfoldable pub llabs : ℕ → ℕ
llabs a = if ltb a (2 ^ 63) then a else 2 ^ 64 - a

-- The quotient towards zero of a bit pattern by a positive number.
unfoldable pub signed_quotient : ℕ → ℕ → ℕ
signed_quotient a n = if ltb a (2 ^ 63) then a / n else u64 (2 ^ 64 - (2 ^ 64 - a) / n)
