-- ===== src/Common/Int.antt =====
-- Signed integers over the native numbers, for C's `int` counters.
use Prim.Native.Nat.{ℕ, ◌+◌, ◌-◌}
use mathlib.Core.Path.{◌≡◌}
use mathlib.Core.Bool.{Bool, true, false, ◌&&◌}
use native.Mathlib.Omega.{arith}
use android_binder_ipc.Common.Tests.{ltb, leb, if◌then◌else◌}

-- `negsuc n` is -(n + 1).
pub data ℤ : Type 0 where
  pos : ℕ → ℤ
  negsuc : ℕ → ℤ

abbrev pub inc : ℤ → ℤ
inc (pos n) = pos (n + 1)
inc (negsuc n) = if ltb 0 n then negsuc (n - 1) else pos 0

abbrev pub dec : ℤ → ℤ
dec (pos n) = if ltb 0 n then pos (n - 1) else negsuc 0
dec (negsuc n) = negsuc (n + 1)

-- x == n, for a natural number n
abbrev pub is : ℤ → ℕ → Bool
is (pos m) n = leb m n && leb n m
is (negsuc m) n = false

pub dec-inc : (a : ℤ) → dec (inc a) ≡ a
dec-inc a = ground arith

pub inc-dec : (a : ℤ) → inc (dec a) ≡ a
inc-dec a = ground arith

abbrev pub ltb_ℤ : ℤ → ℤ → Bool
ltb_ℤ (pos a) (pos b) = ltb a b
ltb_ℤ (pos a) (negsuc b) = false
ltb_ℤ (negsuc a) (pos b) = true
ltb_ℤ (negsuc a) (negsuc b) = ltb b a
