-- ===== src/Prelude/Int.antt =====
-- Signed integers over the native numbers, under the library's names.
use oidc_agent.Prelude.Tests.{if◌then◌else◌, ◌==◌}
use Prim.Native.Nat.{ℕ, ◌-◌}

-- `negsuc n` is -(n + 1).
pub data ℤ : Type 0 where
  pos : ℕ → ℤ
  negsuc : ℕ → ℤ

abbrev pub neg_ℕ : ℕ → ℤ
neg_ℕ n = if n == 0 then pos 0 else negsuc (n - 1)
