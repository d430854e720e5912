-- ===== src/Base/Integers.antt =====
-- Python's integers over the native numbers, with its floor division.
use Prim.Native.Nat.{ℕ, zero, suc, ◌+◌, ◌-◌, ◌*◌, ◌/◌, ◌%◌}
use get_receipt.Base.Tests.{if◌then◌else◌, leb}

-- `pos n` is n and `negsuc n` is -(n + 1).
pub data ℤ : Type 0 where
  pos : ℕ → ℤ
  negsuc : ℕ → ℤ

-- m - n.
abbrev pub minus : ℕ → ℕ → ℤ
minus m n = if leb n m then pos (m - n) else negsuc (n - m - 1)

infixl 6 ◌+ℤ◌
abbrev pub ◌+ℤ◌ : ℤ → ℤ → ℤ
pos m +ℤ pos n = pos (m + n)
pos m +ℤ negsuc n = minus m (suc n)
negsuc m +ℤ pos n = minus n (suc m)
negsuc m +ℤ negsuc n = negsuc (suc (m + n))

abbrev pub negate : ℤ → ℤ
negate (pos zero) = pos 0
negate (pos (suc n)) = negsuc n
negate (negsuc n) = pos (suc n)

-- Twelve times a number, its quotient by twelve and the remainder, rounding down.
abbrev pub dozens : ℤ → ℤ
dozens (pos n) = pos (n * 12)
dozens (negsuc n) = negsuc (n * 12 + 11)

abbrev pub div_dozen : ℤ → ℤ
div_dozen (pos n) = pos (n / 12)
div_dozen (negsuc n) = negsuc (n / 12)

abbrev pub mod_dozen : ℤ → ℕ
mod_dozen (pos n) = n % 12
mod_dozen (negsuc n) = 11 - n % 12
