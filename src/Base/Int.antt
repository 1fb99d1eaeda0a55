-- ===== src/Base/Int.antt =====
-- Signed numbers, for i64 offsets and size changes. `negsuc n` is -(n + 1).
use Prim.Native.Nat.{ℕ, suc, ◌+◌, ◌-◌}
use tarbox.Base.Tests.{leb, if◌then◌else◌}

pub data ℤ : Type 0 where
  pos : ℕ → ℤ
  negsuc : ℕ → ℤ

-- a - b, as an integer.
abbrev pub sub_ℕ : ℕ → ℕ → ℤ
sub_ℕ a b = if leb b a then pos (a - b) else negsuc (b - suc a)

-- a + b
abbrev pub add_ℤ : ℤ → ℤ → ℤ
add_ℤ (pos a) (pos b) = pos (a + b)
add_ℤ (pos a) (negsuc b) = sub_ℕ a (suc b)
add_ℤ (negsuc a) (pos b) = sub_ℕ b (suc a)
add_ℤ (negsuc a) (negsuc b) = negsuc (suc (a + b))
