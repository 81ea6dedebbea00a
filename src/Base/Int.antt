-- ===== src/Base/Int.antt =====
-- Signed integers over the native numbers: `negsuc n` is -(n + 1). Go's `int` and `time.Duration`.
use native.Mathlib.Omega.{arith}
use Prim.Native.Nat.{zero, ◌<◌, ℕ, suc, ◌-◌, ◌%◌, ◌^◌}
use axmi_pusher.Base.Tests.{if◌then◌else◌, ltb}

pub data ℤ : Type 0 where
  pos : ℕ → ℤ
  negsuc : ℕ → ℤ

-- The idiom `if n <= 0 { n = fallback }`.
abbrev pub positive_or : ℕ → ℤ → ℕ
positive_or fallback (pos (suc n)) = suc n
positive_or fallback _ = fallback

-- The value that an int64 has with the bits of `n`.
abbrev pub of_bits : ℕ → ℤ
of_bits n = if ltb n (2 ^ 63) then pos n else negsuc (2 ^ 64 - 1 - n)

-- The 64 bits of an integer.
abbrev pub to_bits : ℤ → ℕ
to_bits (pos n) = n % 2 ^ 64
to_bits (negsuc n) = 2 ^ 64 - 1 - n % 2 ^ 64

pub positive_or-pos : (fallback : ℕ) (n : ℤ) → 0 < fallback → 0 < positive_or fallback n
positive_or-pos fallback (pos zero) h = h
positive_or-pos fallback (pos (suc n)) h = omega arith
positive_or-pos fallback (negsuc n) h = h
