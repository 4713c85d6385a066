-- ===== src/Base/Int.antt =====
-- Go's `int` as a signed number, and its unsigned 64-bit counters.
use Prim.Native.Nat.{ℕ, suc, ◌+◌, ◌%◌, ◌^◌, ◌<◌}
use mathlib.Core.Path.{◌≡◌}
use mathlib.Core.Bool.{Bool, true}
use native.Mathlib.Omega.{arith}
use sluice_gate_telemetery_i.Base.Tests.{leb}

-- `negsuc n` is -(n + 1).
pub data ℤ : Type 0 where
  pos : ℕ → ℤ
  negsuc : ℕ → ℤ

-- The rounds of `for attempt := 0; attempt <= r; attempt++`.
abbrev pub attempts : ℤ → ℕ
attempts (pos n) = suc n
attempts (negsuc n) = 0

-- `n >= b` for a length n.
abbrev pub reaches : ℕ → ℤ → Bool
reaches n (pos b) = leb b n
reaches n (negsuc b) = true

abbrev pub u64_mod : ℕ
u64_mod = 2 ^ 64

-- `x.Add(n)` on an atomic.Uint64, `x++` on a uint64.
abbrev pub add_u64 : ℕ → ℕ → ℕ
add_u64 x n = (x + n) % u64_mod

pub add_u64_small : (x n : ℕ) → x + n < u64_mod → add_u64 x n ≡ x + n
add_u64_small x n h = omega arith
