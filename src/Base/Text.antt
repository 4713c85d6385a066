-- ===== src/Base/Text.antt =====
-- Go strings and byte slices: lists of bytes, with their equality test and order.
use Prim.Native.Nat.{ℕ}
use Prim.Native.Char.{code}
use Prim.Native.String.{String}
use mathlib.Core.Path.{◌≡◌, refl}
use mathlib.Core.Logic.{◌↔◌}
use mathlib.Core.Bool.{Bool, true, false, ◌&&◌}
use mathlib.Core.List.{List, [], ◌∷◌}
use native.Mathlib.Omega.{arith}
use sluice_gate_telemetery_i.Base.Tests.{◌==◌, ==_refl, ltb, if◌then◌else◌}

abbrev pub Bytes : Type 0
Bytes = List ℕ

-- The code points of a literal: its bytes when the text is ASCII.
abbrev pub codes : String → Bytes
codes String.[] = []
codes (String.◌∷◌ c s) = code c ∷ codes s

-- `a == b` on strings.
abbrev pub beq : Bytes → Bytes → Bool
beq [] [] = true
beq [] (y ∷ ys) = false
beq (x ∷ xs) [] = false
beq (x ∷ xs) (y ∷ ys) = x == y && beq xs ys

pub beq_eq : (a b : Bytes) → beq a b ≡ true → a ≡ b
beq_eq [] [] h = refl
beq_eq [] (y ∷ ys) h = cc
beq_eq (x ∷ xs) [] h = cc
beq_eq (x ∷ xs) (y ∷ ys) h = ground (arith, beq_eq xs ys)

pub beq_refl : (a : Bytes) → beq a a ≡ true
beq_refl [] = refl
beq_refl (x ∷ xs) = ground (arith, ==_refl x, beq_refl xs)

pub beq_iff : (a b : Bytes) → (beq a b ≡ true) ↔ (a ≡ b)
beq_iff a b = (beq_eq a b, λ e. rw e (beq_refl b))

-- `a < b` on strings.
abbrev pub bytes_lt : Bytes → Bytes → Bool
bytes_lt [] [] = false
bytes_lt [] (y ∷ ys) = true
bytes_lt (x ∷ xs) [] = false
bytes_lt (x ∷ xs) (y ∷ ys) = if x == y then bytes_lt xs ys else ltb x y
