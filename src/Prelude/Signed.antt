-- ===== src/Prelude/Signed.antt =====
-- Signed numbers over the native numbers.
use Prim.Native.Nat.{ℕ, ◌-◌}
use ommo_sdk_external.Prelude.Tests.{ltb, if◌then◌else◌}

-- `negsuc n` is -(n + 1).
pub data ℤ : Type 0 where
  pos : ℕ → ℤ
  negsuc : ℕ → ℤ

-- The `int32_t` with the same bits as the `uint32_t` `n`.
abbrev pub int32 : ℕ → ℤ
int32 n = if ltb n 2147483648 then pos n else negsuc (4294967295 - n)
