-- ===== src/Prelude/Int.antt =====
-- Signed integers over the native numbers, under the library's names.
use Prim.Native.Nat.{ℕ, suc, ◌*◌, zero}
use mathlib.Core.Bool.{Bool, true, false}
use uu_remote_ubuntu_bridge.Prelude.Tests.{ltb, ◌==◌}

-- `negsuc n` is -(n + 1).
pub data ℤ : Type 0 where
  pos : ℕ → ℤ
  negsuc : ℕ → ℤ

abbrev pub neg : ℕ → ℤ
neg zero = pos 0
neg (suc n) = negsuc n

-- `a * k` for a natural `k`.
abbrev pub scale : ℤ → ℕ → ℤ
scale (pos n) k = pos (n * k)
scale (negsuc n) k = neg (suc n * k)

abbrev pub eqb_ℤ : ℤ → ℤ → Bool
eqb_ℤ (pos a) (pos b) = a == b
eqb_ℤ (pos a) (negsuc b) = false
eqb_ℤ (negsuc a) (pos b) = false
eqb_ℤ (negsuc a) (negsuc b) = a == b

abbrev pub ltb_ℤ : ℤ → ℤ → Bool
ltb_ℤ (pos a) (pos b) = ltb a b
ltb_ℤ (pos a) (negsuc b) = false
ltb_ℤ (negsuc a) (pos b) = true
ltb_ℤ (negsuc a) (negsuc b) = ltb b a
